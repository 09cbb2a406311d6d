-- ===== src/Vmm/Areas.antt =====
-- kernel/src/memory/vmm.c: the memory areas, `vmm_allocate`, `vmm_free`, `vmm_map_physical` and
-- `vmm_unmap_physical`.
pub mod Physical
pub mod Allocation
use kronosos.Base.{
  ℕ, zero, suc, ◌+◌, ◌-◌, ◌*◌, ◌/◌, ◌%◌, ◌^◌, Bool, true, false, not, ◌&&◌, ◌||◌, Option, none,
  some, List, [], ◌∷◌, length, bit_and, bit_or, ltb, leb, ◌==◌, if◌then◌else◌, add64, mul64,
}
use kronosos.Pmm
use kronosos.Vmm.{Vm, Vmm, has_flag, phys_to_virt, clear_table, map_page, unmap_page}
use kronosos.Vmm.Translate.{virt_to_phys}
use kronosos.Vmm.Ranges.{unmap_loop, map_loop}

pub record Area : Type 0 where
  pub base : ℕ
  pub size : ℕ
  pub flags : ℕ
  pub is_used : Bool

-- The two tables of areas up to their counts, the statistics, and the page tables.
pub record Heap : Type 0 where
  pub user_areas : List Area
  pub kernel_areas : List Area
  pub pages_allocated : ℕ
  pub pages_freed : ℕ
  pub vmm : Vmm

abbrev pub max_memory_areas : ℕ
max_memory_areas = 32

-- the area behind the last one
pub push : List Area → Area → List Area
push [] a = a ∷ []
push (x ∷ xs) a = x ∷ push xs a

pub register_memory_area : List Area → ℕ → ℕ → ℕ → List Area
unfolding push
register_memory_area areas base size flags =
    if leb max_memory_areas (length areas)
    then areas
    else push areas (record { base = base; size = size; flags = flags; is_used = false })

-- the index of the first free area of at least a size, and the area
pub find_free_area : List Area → ℕ → Option (ℕ × Area)
find_free_area [] size = none
find_free_area (a ∷ areas) size =
    let rest = find_free_area areas size in
    if not a.is_used && leb size a.size
    then some (0, a)
    else elim rest [ none ↦ none | some (i, b) ↦ some (suc i, b) ]

-- `area->is_used = used`, for the area at an index
pub set_used : List Area → ℕ → Bool → List Area
set_used [] i used = []
set_used (a ∷ areas) zero used = record a { is_used = used } ∷ areas
set_used (a ∷ areas) (suc i) used = a ∷ set_used areas i used

-- the size rounded up to whole pages
pub round_up : ℕ → ℕ
round_up size = bit_and (add64 size 4095) (2 ^ 64 - 4096)

-- `pmm_free_page` on the state
pub give_back : ℕ → Vmm → Vmm
give_back phys s = record s { pmm = Pmm.free_page s.pmm phys }

-- `n` rounds of the cleaning up of `vmm_allocate`, from round `j` on
pub release_loop : ℕ → ℕ → ℕ → Vmm → Vmm
unfolding virt_to_phys unmap_page give_back
release_loop base zero j s = s
release_loop base (suc n) j s =
    let addr = add64 base (mul64 j 4096) in
    let page_phys = virt_to_phys s addr in
    release_loop base n (j + 1) (give_back page_phys (unmap_page addr s).1)

-- `n` rounds of the loop of `vmm_allocate`, from round `i` on
pub back_loop : ℕ → ℕ → ℕ → ℕ → Vm (Unit {0})
unfolding map_page phys_to_virt clear_table give_back release_loop
back_loop base flags zero i s = (some tt, s)
back_loop base flags (suc n) i s =
    let (phys, pmm') = Pmm.alloc_page s.pmm in
    let t = record s { pmm = pmm' } in
    let (o, u) = map_page (add64 base (mul64 i 4096)) phys flags t in
    let next = back_loop base flags n (i + 1) (clear_table (phys_to_virt u.hhdm_offset phys) u).1 in
    if phys == 0
    then (none, release_loop base i 0 t)
    else elim o [ none ↦ (none, release_loop base i 0 (give_back phys u)) | some _ ↦ next ]

-- `flags & VMM_FLAG_USER` chooses the table of areas.
pub areas_of : Heap → Bool → List Area
areas_of h user = if user then h.user_areas else h.kernel_areas

pub with_areas : Heap → Bool → List Area → Heap
with_areas h user areas =
    if user then record h { user_areas = areas } else record h { kernel_areas = areas }

-- the end of `vmm_allocate`, with the outcome of its loop
pub allocated : Heap → Bool → ℕ → Area → ℕ → Option (Unit {0}) × Vmm → ℕ × Heap
unfolding areas_of with_areas set_used
allocated h user i area page_count (none, t) =
    (0, record (with_areas h user (set_used (areas_of h user) i false)) { vmm = t })
allocated h user i area page_count (some _, t) =
    (area.base, record h { vmm = t; pages_allocated = add64 h.pages_allocated page_count })

pub allocate : Heap → ℕ → ℕ → ℕ × Heap
unfolding has_flag round_up find_free_area areas_of with_areas set_used back_loop allocated
allocate h size flags =
    if size == 0
    then (0, h)
    else let user = has_flag flags (2 ^ 2) in
      elim (find_free_area (areas_of h user) (round_up size)) [
        | none ↦ (0, h)
        | some (i, area) ↦
            let marked = with_areas h user (set_used (areas_of h user) i true) in
            let page_count = round_up size / 4096 in
            allocated marked user i area page_count
              (back_loop area.base (bit_or flags area.flags) page_count 0 h.vmm)
      ]

-- `n` rounds of the loop of `vmm_free`, from round `i` on
pub unmap_free_loop : ℕ → ℕ → ℕ → Vmm → Vmm
unfolding virt_to_phys unmap_page give_back
unmap_free_loop virt zero i s = s
unmap_free_loop virt (suc n) i s =
    let page_addr = add64 virt (mul64 i 4096) in
    let phys_addr = virt_to_phys s page_addr in
    let t = if phys_addr == 0 then s else give_back phys_addr (unmap_page page_addr s).1 in
    unmap_free_loop virt n (i + 1) t

-- The first area at a base address is free again.
pub free_area : List Area → ℕ → List Area
free_area [] base = []
free_area (a ∷ areas) base =
    let rest = free_area areas base in
    if a.base == base then record a { is_used = false } ∷ areas else a ∷ rest

pub free : Heap → ℕ → ℕ → Heap
unfolding round_up unmap_free_loop areas_of with_areas free_area
free h addr size =
    if (addr == 0) || (size == 0)
    then h
    else let page_count = round_up size / 4096 in
      let user = not (leb h.vmm.hhdm_offset addr) in
      record (with_areas h user (free_area (areas_of h user) addr)) {
        vmm = unmap_free_loop addr page_count 0 h.vmm;
        pages_freed = add64 h.pages_freed page_count;
      }
