-- ===== src/Vmm/Unmapping.antt =====
-- `vmm_unmap_page` of a page that `vmm_map_page` has mapped.
use kronosos.Base.{
  ℕ, ◌^◌, ◌<◌, ◌≡◌, ◌≢◌, ◌∙◌, ap, refl, true, false, not, ◌&&◌, Option, none, some, bit_and, ◌==◌,
  if◌then◌else◌, if_yes, if_no, arith,
}
use mathlib.Core.Path.{subst, sym}
use kronosos.Vmm.{
  Vm, Vmm, resume, ◌>>=◌, has_flag, index_at, page_present, page_huge, page_addr_mask, table_at,
  present_entry, write_entry, map_page, unmap_at_pt, unmap_at_pd, unmap_page,
}
use kronosos.Vmm.Translate.{root, virt_to_phys, is_mapped}
use kronosos.Vmm.Tree.{Levels, IsTree, Exhausted}
use kronosos.Vmm.Words.{present-eq}
use kronosos.Vmm.Mapping.{Link, Walked, virt_to_phys-Walked, is_mapped-Walked}
use kronosos.Vmm.MapPage.{
  Installed, exhausted, installed, fill_pt, fill_pt-Installed, page_of, leaf_entry,
  map_page-Installed,
}
use kronosos.Vmm.Translation.{Walked-page, leaf_entry-IsLeaf}

present_entry-there :
    (t : Vmm) (table i : ℕ)
    → has_flag (t.memory table i) page_present ≡ true
    → present_entry table i t ≡ (some (t.memory table i), t)
unfolding present_entry
present_entry-there t table i present = ap (λ (o : Option ℕ). (o, t)) (if_yes _ _ present)

table_at-Link :
    {t : Vmm} {lev : Levels} {table i n child : ℕ}
    → Link t lev table i n child
    → table_at (bit_and (t.memory table i) page_addr_mask) t ≡ (some child, t)
unfolding table_at
table_at-Link {t} {lev} {table} {i} {n} {child} l =
    rw l.to (ap (λ (o : Option ℕ). (o, t)) (if_no _ _ here))
  where
    here : (child == 0) ≡ false
    here = ground (arith, l.child_mapped)

small_page :
    (e : ℕ) (a b : Vm (Unit {0})) (t : Vmm)
    → has_flag e page_huge ≡ false
    → (if has_flag e page_huge then a else b) t ≡ b t
small_page e a b t h = rw h refl

-- The walk of the unmapping ends in the write of 0 to the page's entry.
module _ {t : Vmm} {lev : Levels} {virt e : ℕ} (w : Walked t lev virt e)
    (present : has_flag e page_present ≡ true) where
  from_pt : unmap_at_pt virt (t.memory w.pd (index_at 21 virt)) t ≡ fill_pt 0 virt w.pt t
  unfolding unmap_at_pt fill_pt
  from_pt =
      ap
        (resume
          (λ pt. present_entry pt (index_at 12 virt) >>= λ _. write_entry pt (index_at 12 virt) 0))
        (table_at-Link w.link2)
      ∙ ap (resume (λ _. write_entry w.pt (index_at 12 virt) 0)) (
          present_entry-there t w.pt (index_at 12 virt)
            (ap (λ x. has_flag x page_present) w.entry ∙ present))

  last_pd : ℕ → ℕ → Vm (Unit {0})
  last_pd pd entry =
      if has_flag entry page_huge
      then write_entry pd (index_at 21 virt) 0
      else unmap_at_pt virt entry

  from_pd : unmap_at_pd virt (t.memory w.pdpt (index_at 30 virt)) t ≡ fill_pt 0 virt w.pt t
  unfolding unmap_at_pd last_pd
  from_pd =
      ap (resume (λ pd. present_entry pd (index_at 21 virt) >>= last_pd pd)) (table_at-Link w.link3)
      ∙ ap (resume (last_pd w.pd)) (present_entry-there t w.pd (index_at 21 virt) w.link2.present)
      ∙ small_page (t.memory w.pd (index_at 21 virt)) _
          (unmap_at_pt virt (t.memory w.pd (index_at 21 virt))) t w.link2.huge
      ∙ from_pt

  last_pdpt : ℕ → ℕ → Vm (Unit {0})
  last_pdpt pdpt entry =
      if has_flag entry page_huge
      then write_entry pdpt (index_at 30 virt) 0
      else unmap_at_pd virt entry

  last_pml4 : ℕ → Vm (Unit {0})
  last_pml4 entry = table_at (bit_and entry page_addr_mask) >>= λ pdpt.
      present_entry pdpt (index_at 30 virt) >>= last_pdpt pdpt

  from_pml4 : (present_entry (root t) (index_at 39 virt) >>= last_pml4) t ≡ fill_pt 0 virt w.pt t
  unfolding last_pml4 last_pdpt
  from_pml4 =
      ap (resume last_pml4) (present_entry-there t (root t) (index_at 39 virt) w.link4.present)
      ∙ ap (resume (λ pdpt. present_entry pdpt (index_at 30 virt) >>= last_pdpt pdpt))
          (table_at-Link w.link4)
      ∙ ap (resume (last_pdpt w.pdpt))
          (present_entry-there t w.pdpt (index_at 30 virt) w.link3.present)
      ∙ small_page (t.memory w.pdpt (index_at 30 virt)) _
          (unmap_at_pd virt (t.memory w.pdpt (index_at 30 virt))) t w.link3.huge
      ∙ from_pd

unmap_page-Walked :
    {t : Vmm} {lev : Levels} {e : ℕ} (virt_addr : ℕ) (w : Walked t lev (page_of virt_addr) e)
    → has_flag e page_present ≡ true
    → virt_addr ≢ 0
    → unmap_page virt_addr t ≡ fill_pt 0 (page_of virt_addr) w.pt t
unfolding unmap_page table_at last_pml4 last_pdpt
unmap_page-Walked {t} virt_addr w present hv =
    ap (λ (o : Option (Unit {0})). resume (λ _. table_at t.current_pml4_phys >>= from_root) (o, t))
      (if_yes _ _ first)
    ∙ ap (λ (o : Option ℕ). resume from_root (o, t)) (if_no _ _ second)
    ∙ from_pml4 w present
  where
    from_root : ℕ → Vm (Unit {0})
    from_root pml4 = present_entry pml4 (index_at 39 (page_of virt_addr)) >>= last_pml4 w present

    first : not (virt_addr == 0) ≡ true
    first = ground arith

    second : (root t == 0) ≡ false
    second = ground (arith, w.link4.table_mapped)

-- The page of an address has been taken out of a tree of page tables.
pub data Removed (addr : ℕ) : Option (Unit {0}) × Vmm → Type 0 where
  removed :
      {t : Vmm} (lev : Levels)
      → IsTree t lev
      → virt_to_phys t addr ≡ 0
      → is_mapped t addr ≡ false
      → Removed addr (some tt, t)

-- A mapping for which there was no page, or which `vmm_unmap_page` takes out again.
pub data Undone (virt_addr addr : ℕ) : Option (Unit {0}) × Vmm → Type 0 where
  full : {t : Vmm} → Exhausted t → Undone virt_addr addr (none, t)
  undone : {t : Vmm} → Removed addr (unmap_page virt_addr t) → Undone virt_addr addr (some tt, t)

module _ {s : Vmm} {lev : Levels} (virt_addr phys_addr flags addr : ℕ) (v : IsTree s lev)
    (hv : virt_addr < 2 ^ 64) (hp : phys_addr < 2 ^ 64) (nv : virt_addr ≢ 0) (np : phys_addr ≢ 0)
    (off : (has_flag flags (2 ^ 9) && s.using_nx) ≡ false) (low : addr < s.hhdm_offset)
    (small : addr < 2 ^ 64) (same : page_of addr ≡ page_of virt_addr) where
  to_Removed :
      {t : Vmm}
      → Installed s.hhdm_offset (page_of virt_addr) 0 (some tt, t)
      → Removed addr (some tt, t)
  to_Removed {t} (installed lev' offset tree walked) =
      let here = Walked-page addr hv small same walked in
      let below : addr < t.hhdm_offset = omega (arith, offset) in
      removed lev' tree (virt_to_phys-Walked here below (present-eq 0))
        (is_mapped-Walked here below (present-eq 0))

  to_Undone :
      {r : Option (Unit {0}) × Vmm}
      → Installed s.hhdm_offset (page_of virt_addr) (leaf_entry s phys_addr flags) r
      → Undone virt_addr addr r
  unfolding fill_pt write_entry
  to_Undone (exhausted out) = full out
  to_Undone (installed {t} lev' offset tree walked) =
      let leaf = leaf_entry-IsLeaf s phys_addr flags hp off in
      let cleared =
        subst (λ o. Installed o (page_of virt_addr) 0 (fill_pt 0 (page_of virt_addr) walked.pt t))
          offset
          (fill_pt-Installed (page_of virt_addr) 0 tree walked.link4 walked.link3 walked.link2) in
      undone (
        subst (Removed addr) (sym (unmap_page-Walked virt_addr walked leaf.present nv))
          (to_Removed cleared))

  -- In a tree of page tables, which has no huge pages and no free page of the
  -- physical allocator among its tables, with a valid allocator whose region the direct mapping
  -- places below 2^64, and for nonzero 64-bit addresses and flags that do
  -- not ask for a page without execution that the processor supports: `vmm_unmap_page` of a page
  -- just mapped succeeds, the tables are a tree again, and no address of the page that is below the
  -- direct mapping is mapped or translates.
  pub unmap_page-map_page : Undone virt_addr addr (map_page virt_addr phys_addr flags s)
  unmap_page-map_page = to_Undone (map_page-Installed s virt_addr phys_addr flags v nv np)
