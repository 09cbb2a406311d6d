-- ===== src/Vmm/Tree.antt =====
-- The tree of page tables by levels, and what one level of `vmm_map_page` does to it.
use kronosos.Base.{ℕ, suc, ◌+◌, ◌^◌, ◌<◌, ◌≡◌, ◌≢◌, true, false, Option, none, some, bit_and}
use kronosos.Pmm.Inv
use kronosos.Pmm.Inv.{used, address}
use kronosos.Vmm.{Vmm, has_flag, page_present, page_huge, page_addr_mask, phys_to_virt}

-- An assignment of levels to table addresses: 4 for the PML4 down to 1 for the page tables, and 0
-- for what is no table.
abbrev pub Levels : Type 0
Levels = ℕ → ℕ

-- The entry leads to a table of level `n`.
pub record Leads (offset : ℕ) (lev : Levels) (entry n : ℕ) : Type 0 where
  pub huge : has_flag entry page_huge ≡ false
  pub not_null : phys_to_virt offset (bit_and entry page_addr_mask) ≢ 0
  pub level : lev (phys_to_virt offset (bit_and entry page_addr_mask)) ≡ n

-- Each present entry of a table above level 1 leads to a table one level down, there are no huge
-- pages, and no free page of the physical allocator is a table.
pub record IsTree (s : Vmm) (lev : Levels) : Type 0 where
  pub pmm : Inv.IsValid s.pmm
  pub direct : s.pmm.config.kernel_end + s.hhdm_offset < 2 ^ 64
  pub root : lev (phys_to_virt s.hhdm_offset s.current_pml4_phys) ≡ 4
  pub root_not_null : phys_to_virt s.hhdm_offset s.current_pml4_phys ≢ 0
  pub child :
      (t i n : ℕ)
      → i < 512
      → lev t ≡ suc (suc n)
      → has_flag (s.memory t i) page_present ≡ true
      → Leads s.hhdm_offset lev (s.memory t i) (suc n)
  pub fresh :
      (i : ℕ)
      → i < s.pmm.config.max_pages
      → used s.pmm i ≡ false
      → lev (phys_to_virt s.hhdm_offset (address s.pmm i)) ≡ 0

-- The physical allocator has no free page left.
abbrev pub Exhausted : Vmm → Type 0
Exhausted t = (k : ℕ) → k < t.pmm.config.max_pages → used t.pmm k ≡ true

-- What one level of the walk has done: it has found no page for a table that it needed, or it has
-- found or made the next table. Then it has changed no entry of an older table but `table[i]`,
-- which leads to the new one.
pub data Descended (s : Vmm) (lev : Levels) (table i n : ℕ) : Option ℕ × Vmm → Type 0 where
  failed : {t : Vmm} → Exhausted t → Descended s lev table i n (none, t)
  reached :
      {t : Vmm} (lev' : Levels) (child : ℕ)
      → IsTree t lev'
      → t.hhdm_offset ≡ s.hhdm_offset
      → t.current_pml4_phys ≡ s.current_pml4_phys
      → t.using_nx ≡ s.using_nx
      → ((b : ℕ) → lev b ≢ 0 → lev' b ≡ lev b)
      → ((b j : ℕ) → lev b ≢ 0 → (b ≡ table → j ≢ i) → t.memory b j ≡ s.memory b j)
      → has_flag (t.memory table i) page_present ≡ true
      → phys_to_virt t.hhdm_offset (bit_and (t.memory table i) page_addr_mask) ≡ child
      → Leads t.hhdm_offset lev' (t.memory table i) n
      → Descended s lev table i n (some child, t)
