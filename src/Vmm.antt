-- ===== src/Vmm.antt =====
-- kernel/src/memory/vmm.c: four-level page tables over the physical allocator. Memory is read and
-- written through the direct mapping, as the code does: a table is an array of 64-bit entries at
-- its virtual address. TLB flushes and log output are left out.
pub mod Words
pub mod Translate
pub mod Tree
pub mod Made
pub mod Walk
pub mod Mapping
pub mod MapPage
pub mod Ranges
pub mod Areas
pub mod Spaces
pub mod Sample
pub mod Translation
pub mod Unmapping
mod Tests
use kronosos.Base.{
  ℕ, zero, suc, ◌+◌, ◌-◌, ◌*◌, ◌/◌, ◌%◌, ◌^◌, Bool, true, false, not, ◌&&◌, ◌||◌, Option, none,
  some, List, [], ◌∷◌, bit_and, bit_or, ltb, leb, ◌==◌, if◌then◌else◌, add64, sub64, mul64,
}
use kronosos.Pmm
use kronosos.Pmm.{Pmm}

-- The state: memory as entries by table address and index, the static variables that the functions
-- below use, and the physical allocator.
pub record Vmm : Type 0 where
  pub memory : ℕ → ℕ → ℕ
  pub hhdm_offset : ℕ
  pub current_pml4_phys : ℕ
  pub using_nx : Bool
  pub pmm : Pmm

-- A function that may return early: `none` is its `false` or NULL. Its changes stay either way.
abbrev pub Vm : Type 0 → Type 0
Vm A = Vmm → Option A × Vmm

-- what follows a call, from the call's result
abbrev pub resume : {A B : Type 0} → (A → Vm B) → Option A × Vmm → Option B × Vmm
resume f (none, t) = (none, t)
resume f (some a, t) = f a t

infixl 5 ◌>>=◌ ◌>>◌
abbrev pub ◌>>=◌ : {A B : Type 0} → Vm A → (A → Vm B) → Vm B
◌>>=◌ m f s = resume f (m s)

abbrev pub ◌>>◌ : {B : Type 0} → Vm (Unit {0}) → Vm B → Vm B
m >> k = m >>= λ _. k

abbrev pub pure : {A : Type 0} → A → Vm A
pure a s = (some a, s)

abbrev pub guard : Bool → Vm (Unit {0})
guard b s = (if b then some tt else none, s)

abbrev pub page_present : ℕ
page_present = 2 ^ 0

abbrev pub page_writable : ℕ
page_writable = 2 ^ 1

abbrev pub page_user : ℕ
page_user = 2 ^ 2

abbrev pub page_huge : ℕ
page_huge = 2 ^ 7

abbrev pub page_no_execute : ℕ
page_no_execute = 2 ^ 63

-- `~0xFFFULL`
abbrev pub page_addr_mask : ℕ
page_addr_mask = (2 ^ 52 - 1) * 2 ^ 12

-- the first address of the upper half, as the code tests it
abbrev pub upper_half : ℕ
upper_half = 2 ^ 63

-- `entry & flag`, as a truth value
pub has_flag : ℕ → ℕ → Bool
has_flag entry flag = not (bit_and entry flag == 0)

-- the table index of an address at a shift: `(addr >> shift) & 0x1FF`
pub index_at : ℕ → ℕ → ℕ
index_at shift addr = bit_and (addr / 2 ^ shift) 0x1ff

-- `phys_to_virt` under a direct mapping offset; 0 is NULL.
pub phys_to_virt : ℕ → ℕ → ℕ
phys_to_virt hhdm_offset phys = if phys == 0 then 0 else add64 phys hhdm_offset

-- the table at a physical address, and the check that it is not NULL
pub table_at : ℕ → Vm ℕ
unfolding phys_to_virt
table_at phys s =
    let table = phys_to_virt s.hhdm_offset phys in (if table == 0 then none else some table, s)

pub read_entry : ℕ → ℕ → Vm ℕ
read_entry table i s = (some (s.memory table i), s)

pub write_entry : ℕ → ℕ → ℕ → Vm (Unit {0})
write_entry table i entry s =
    (some tt, record s { memory = λ t j. if (t == table) && (j == i) then entry else s.memory t j })

-- `memset(table, 0, PAGE_SIZE_4K)`
pub clear_table : ℕ → Vm (Unit {0})
clear_table table s =
    (some tt, record s { memory = λ t j. if (t == table) && ltb j 512 then 0 else s.memory t j })

-- the result of `pmm_alloc_page`, with the check for NULL
pub alloc_checked : ℕ × Pmm → Vm ℕ
alloc_checked (phys, pmm') s = (if phys == 0 then none else some phys, record s { pmm = pmm' })

pub alloc_table : Vm ℕ
unfolding alloc_checked
alloc_table s = alloc_checked (Pmm.alloc_page s.pmm) s

-- `table[i]` after its table has been created: present, writable, and for user space user
pub new_entry : ℕ → ℕ → ℕ
new_entry phys virt =
    let entry = bit_or (bit_or phys page_present) page_writable in
    if ltb virt upper_half then bit_or entry page_user else entry

-- the new table at a physical page, cleared and entered at `table[i]`
pub make_table : ℕ → ℕ → ℕ → ℕ → Vm (Unit {0})
unfolding clear_table write_entry new_entry phys_to_virt
make_table table i virt phys s =
    (clear_table (phys_to_virt s.hhdm_offset phys) >> write_entry table i (new_entry phys virt)) s

-- "Ensure PDPT (PD, PT) exists", of `vmm_map_page`
pub ensure_table : ℕ → ℕ → ℕ → Vm (Unit {0})
unfolding has_flag alloc_table make_table
ensure_table table i virt s =
    if has_flag (s.memory table i) page_present
    then (some tt, s)
    else (alloc_table >>= make_table table i virt) s

-- one level of `vmm_map_page`: the entry is made if it is missing, and leads to the next table
pub descend : ℕ → ℕ → ℕ → Vm ℕ
unfolding ensure_table read_entry table_at
descend table i virt = do
  ensure_table table i virt
  entry ← read_entry table i
  table_at (bit_and entry page_addr_mask)

-- the hardware flags of the caller's flags, as `vmm_map_page` converts them
pub hw_flags : Bool → ℕ → ℕ
unfolding has_flag
hw_flags using_nx flags =
    let f = page_present in
    let f = if has_flag flags (2 ^ 1) then bit_or f (2 ^ 1) else f in
    let f = if has_flag flags (2 ^ 2) then bit_or f (2 ^ 2) else f in
    let f = if has_flag flags (2 ^ 3) then bit_or f (2 ^ 3) else f in
    let f = if has_flag flags (2 ^ 4) then bit_or f (2 ^ 4) else f in
    let f = if has_flag flags (2 ^ 8) then bit_or f (2 ^ 8) else f in
    let f = if has_flag flags (2 ^ 10) then bit_or f page_huge else f in
    if has_flag flags (2 ^ 9) && using_nx then bit_or f page_no_execute else f

pub map_page : ℕ → ℕ → ℕ → Vm (Unit {0})
unfolding table_at index_at descend write_entry hw_flags
map_page virt_addr phys_addr flags s =
    (do
      guard (not (virt_addr == 0))
      guard (not (phys_addr == 0))
      pml4 ← table_at s.current_pml4_phys
      pdpt ← descend pml4 (index_at 39 virt) virt
      pd ← descend pdpt (index_at 30 virt) virt
      pt ← descend pd (index_at 21 virt) virt
      write_entry pt (index_at 12 virt) (bit_or phys (hw_flags s.using_nx flags)))
      s
  where
    virt : ℕ
    virt = bit_and virt_addr page_addr_mask

    phys : ℕ
    phys = bit_and phys_addr page_addr_mask

-- an entry on the way of `vmm_unmap_page`, which must be present
pub present_entry : ℕ → ℕ → Vm ℕ
unfolding has_flag
present_entry table i s =
    let entry = s.memory table i in (if has_flag entry page_present then some entry else none, s)

-- the end of `vmm_unmap_page`, from the page directory and from the page table on
pub unmap_at_pt : ℕ → ℕ → Vm (Unit {0})
unfolding index_at table_at present_entry write_entry
unmap_at_pt virt pd_entry = do
  pt ← table_at (bit_and pd_entry page_addr_mask)
  _ ← present_entry pt (index_at 12 virt)
  write_entry pt (index_at 12 virt) 0

pub unmap_at_pd : ℕ → ℕ → Vm (Unit {0})
unfolding has_flag index_at table_at present_entry write_entry unmap_at_pt
unmap_at_pd virt pdpt_entry = do
  pd ← table_at (bit_and pdpt_entry page_addr_mask)
  entry ← present_entry pd (index_at 21 virt)
  if has_flag entry page_huge then write_entry pd (index_at 21 virt) 0 else unmap_at_pt virt entry

pub unmap_page : ℕ → Vm (Unit {0})
unfolding has_flag index_at table_at present_entry write_entry unmap_at_pd
unmap_page virt_addr s =
    (let virt = bit_and virt_addr page_addr_mask in
        do
          guard (not (virt_addr == 0))
          pml4 ← table_at s.current_pml4_phys
          e4 ← present_entry pml4 (index_at 39 virt)
          pdpt ← table_at (bit_and e4 page_addr_mask)
          e3 ← present_entry pdpt (index_at 30 virt)
          if has_flag e3 page_huge
              then write_entry pdpt (index_at 30 virt) 0
              else unmap_at_pd virt e3)
      s
