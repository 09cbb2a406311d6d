-- ===== src/Vmm/Translate.antt =====
-- kernel/src/memory/vmm.c: `virt_to_phys`, which `vmm_get_physical_address` returns, and
-- `vmm_is_mapped`, level by level from the page table up to the PML4.
use kronosos.Base.{ℕ, ◌-◌, Bool, true, false, not, ◌||◌, bit_and, leb, ◌==◌, if◌then◌else◌, add64}
use kronosos.Vmm.{Vmm, has_flag, index_at, page_present, page_huge, page_addr_mask, phys_to_virt}

-- `!table || !(table[i] & PAGE_PRESENT)`
unfoldable pub missing : Vmm → ℕ → ℕ → Bool
unfolding has_flag
missing s table i = (table == 0) || not (has_flag (s.memory table i) page_present)

-- the table that `table[i]` leads to
abbrev pub next : Vmm → ℕ → ℕ → ℕ
next t table i = phys_to_virt t.hhdm_offset (bit_and (t.memory table i) page_addr_mask)

abbrev pub root : Vmm → ℕ
root t = phys_to_virt t.hhdm_offset t.current_pml4_phys

unfoldable pub virt_to_phys_pt : Vmm → ℕ → ℕ → ℕ
unfolding index_at missing
virt_to_phys_pt s addr pt =
    if missing s pt (index_at 12 addr)
    then 0
    else add64 (bit_and (s.memory pt (index_at 12 addr)) page_addr_mask) (bit_and addr 0xfff)

unfoldable pub virt_to_phys_pd : Vmm → ℕ → ℕ → ℕ
unfolding has_flag index_at phys_to_virt missing virt_to_phys_pt
virt_to_phys_pd s addr pd =
    if missing s pd (index_at 21 addr)
    then 0
    else let e = s.memory pd (index_at 21 addr) in
      if has_flag e page_huge
      then add64 (bit_and e page_addr_mask) (bit_and addr 0x1f_ffff)
      else virt_to_phys_pt s addr (next s pd (index_at 21 addr))

unfoldable pub virt_to_phys_pdpt : Vmm → ℕ → ℕ → ℕ
unfolding has_flag index_at phys_to_virt missing virt_to_phys_pd
virt_to_phys_pdpt s addr pdpt =
    if missing s pdpt (index_at 30 addr)
    then 0
    else let e = s.memory pdpt (index_at 30 addr) in
      if has_flag e page_huge
      then add64 (bit_and e page_addr_mask) (bit_and addr 0x3fff_ffff)
      else virt_to_phys_pd s addr (next s pdpt (index_at 30 addr))

unfoldable pub virt_to_phys : Vmm → ℕ → ℕ
unfolding index_at phys_to_virt missing virt_to_phys_pdpt
virt_to_phys s addr =
    if leb s.hhdm_offset addr
    then addr - s.hhdm_offset
    else if missing s (root s) (index_at 39 addr)
    then 0
    else virt_to_phys_pdpt s addr (next s (root s) (index_at 39 addr))

unfoldable pub is_mapped_pd : Vmm → ℕ → ℕ → Bool
unfolding has_flag index_at phys_to_virt missing
is_mapped_pd s addr pd =
    if missing s pd (index_at 21 addr)
    then false
    else if has_flag (s.memory pd (index_at 21 addr)) page_huge
    then true
    else not (missing s (next s pd (index_at 21 addr)) (index_at 12 addr))

unfoldable pub is_mapped_pdpt : Vmm → ℕ → ℕ → Bool
unfolding has_flag index_at phys_to_virt missing is_mapped_pd
is_mapped_pdpt s addr pdpt =
    if missing s pdpt (index_at 30 addr)
    then false
    else if has_flag (s.memory pdpt (index_at 30 addr)) page_huge
    then true
    else is_mapped_pd s addr (next s pdpt (index_at 30 addr))

unfoldable pub is_mapped : Vmm → ℕ → Bool
unfolding index_at phys_to_virt missing is_mapped_pdpt
is_mapped s addr =
    if leb s.hhdm_offset addr
    then true
    else if missing s (root s) (index_at 39 addr)
    then false
    else is_mapped_pdpt s addr (next s (root s) (index_at 39 addr))
