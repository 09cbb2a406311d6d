-- ===== src/Vmm/Spaces.antt =====
-- kernel/src/memory/vmm.c: `create_page_table` and the address spaces.
use kronosos.Base.{ℕ, zero, suc, ◌+◌, Bool, not, ◌&&◌, ◌||◌, bit_and, ◌==◌, if◌then◌else◌}
use kronosos.Pmm
use kronosos.Pmm.{Pmm}
use kronosos.Vmm.{
  Vmm, has_flag, phys_to_virt, clear_table, write_entry, page_present, page_huge, page_addr_mask,
}
use kronosos.Vmm.Translate.{virt_to_phys}

-- The page is cleared, and translated, at its physical address as a pointer, as the code does. 0 is
-- a failure.
pub create_page_table : Vmm → ℕ × Vmm
unfolding virt_to_phys clear_table
create_page_table s =
    let (page, pmm') = Pmm.alloc_page s.pmm in
    let t = record s { pmm = pmm' } in
    if page == 0 then (0, t) else (virt_to_phys t page, (clear_table page t).1)

-- `n` rounds of the loop that copies the entries of the upper half, from entry `i` on
pub copy_entries : ℕ → ℕ → ℕ → ℕ → Vmm → Vmm
unfolding write_entry
copy_entries new_pml4 src_pml4 zero i s = s
copy_entries new_pml4 src_pml4 (suc n) i s =
    copy_entries new_pml4 src_pml4 n (i + 1) (write_entry new_pml4 i (s.memory src_pml4 i) s).1

pub create_address_space : Vmm → ℕ × Vmm
unfolding create_page_table phys_to_virt copy_entries
create_address_space s =
    let (pml4_phys, t) = create_page_table s in
    if pml4_phys == 0 then (0, t) else (
      pml4_phys,
      copy_entries (phys_to_virt t.hhdm_offset pml4_phys)
          (phys_to_virt t.hhdm_offset t.current_pml4_phys) 256 256 t,
    )

-- `pmm_free_page` of the page that an entry leads to
pub free_table : ℕ → Vmm → Vmm
free_table entry s = record s { pmm = Pmm.free_page s.pmm (bit_and entry page_addr_mask) }

-- an entry that leads to a table, not to a page of 2 MiB or 1 GiB
pub leads_down : ℕ → Bool
unfolding has_flag
leads_down entry = has_flag entry page_present && not (has_flag entry page_huge)

-- `n` rounds of the loops that free the tables below a page directory, a page-directory pointer
-- table and the lower half of a PML4, from entry `i` on
pub free_pts : ℕ → ℕ → ℕ → Vmm → Vmm
unfolding leads_down free_table
free_pts pd zero i s = s
free_pts pd (suc n) i s =
    let entry = s.memory pd i in
    free_pts pd n (i + 1) (if leads_down entry then free_table entry s else s)

pub free_pds : ℕ → ℕ → ℕ → Vmm → Vmm
unfolding leads_down free_table free_pts phys_to_virt
free_pds pdpt zero i s = s
free_pds pdpt (suc n) i s =
    let entry = s.memory pdpt i in
    let below = free_pts (phys_to_virt s.hhdm_offset (bit_and entry page_addr_mask)) 512 0 s in
    free_pds pdpt n (i + 1) (if leads_down entry then free_table entry below else s)

pub free_pdpts : ℕ → ℕ → ℕ → Vmm → Vmm
unfolding has_flag free_table free_pds phys_to_virt
free_pdpts pml4 zero i s = s
free_pdpts pml4 (suc n) i s =
    let entry = s.memory pml4 i in
    let below = free_pds (phys_to_virt s.hhdm_offset (bit_and entry page_addr_mask)) 512 0 s in
    free_pdpts pml4 n (i + 1) (if has_flag entry page_present then free_table entry below else s)

pub delete_address_space : ℕ → Vmm → Vmm
unfolding phys_to_virt free_pdpts
delete_address_space pml4_phys s =
    if (pml4_phys == 0) || (pml4_phys == s.current_pml4_phys)
    then s
    else let below = free_pdpts (phys_to_virt s.hhdm_offset pml4_phys) 256 0 s in
      record below { pmm = Pmm.free_page below.pmm pml4_phys }

pub switch_address_space : ℕ → Vmm → Vmm
switch_address_space pml4_phys s =
    if (pml4_phys == 0) || (pml4_phys == s.current_pml4_phys)
    then s
    else record s { current_pml4_phys = pml4_phys }
