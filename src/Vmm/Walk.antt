-- ===== src/Vmm/Walk.antt =====
-- One level of `vmm_map_page` keeps the tree of page tables.
use kronosos.Base.{
  ℕ, suc, ◌<◌, ◌≡◌, ◌≢◌, ◌∙◌, ap, refl, Bool, true, false, ◌&&◌, Option, some, bit_and, ltb, ◌==◌,
  if_yes, if_no, arith,
}
use mathlib.Core.Path.{subst, sym}
use kronosos.Pmm.{Config, Pmm}
use kronosos.Pmm.Inv.{used, address}
use kronosos.Pmm.Alloc.{Alloc, granted, refused, alloc_page_lem}
use kronosos.Vmm.{
  Vm, Vmm, resume, has_flag, page_present, page_addr_mask, phys_to_virt, table_at, read_entry,
  write_entry, clear_table, alloc_table, alloc_checked, new_entry, ensure_table, make_table,
  descend, ◌>>=◌,
}
use kronosos.Vmm.Tree.{Levels, Leads, IsTree, Descended, failed, reached}
use kronosos.Vmm.Made.{assign, assign-old, page_virt, made, new_table, made-Leads, made-IsTree}

-- the two last steps of a level, once `table[i]` is there
follow : ℕ → ℕ → Vm ℕ
unfolding read_entry table_at
follow table i = read_entry table i >>= λ entry. table_at (bit_and entry page_addr_mask)

follow-eq :
    {s : Vmm} {lev : Levels} {n : ℕ} (table i : ℕ)
    → Leads s.hhdm_offset lev (s.memory table i) n
    → follow table i s
      ≡ (some (phys_to_virt s.hhdm_offset (bit_and (s.memory table i) page_addr_mask)), s)
unfolding follow read_entry table_at
follow-eq {s} table i l = ap (λ (o : Option ℕ). (o, s)) (if_no _ _ mapped)
  where
    mapped : (phys_to_virt s.hhdm_offset (bit_and (s.memory table i) page_addr_mask) == 0) ≡ false
    mapped = ground (arith, l.not_null)

module _ {s : Vmm} {lev : Levels} (table i n virt : ℕ) (v : IsTree s lev)
    (up : lev table ≡ suc (suc n)) (hi : i < 512) where
  there :
      has_flag (s.memory table i) page_present ≡ true
      → Descended s lev table i (suc n) (follow table i s)
  there present =
      let l = v.child table i n hi up present in
      subst (Descended s lev table i (suc n))
        (sym (follow-eq {s = s} {lev = lev} {n = suc n} table i l))
        (reached lev _ v refl refl refl (λ b h. refl) (λ b j h k. refl) present refl l)

  written :
      (t : Pmm) (k : ℕ)
      → (made s t table i virt k).memory table i ≡ new_entry (address s.pmm k) virt
  written t k = if_yes _ _ same
    where
      same : ((table == table) && (i == i)) ≡ true
      same = ground arith

  module _ (k : ℕ) (t : Pmm) (hk : k < s.pmm.config.max_pages) (free : used s.pmm k ≡ false) where
    frame :
        (b j : ℕ)
        → lev b ≢ 0
        → (b ≡ table → j ≢ i)
        → (made s t table i virt k).memory b j ≡ s.memory b j
    frame b j old other = if_no _ _ here ∙ if_no _ _ cleared
      where
        here : ((b == table) && (j == i)) ≡ false
        here = ground arith

        cleared : ((b == page_virt s k) && ltb j 512) ≡ false
        cleared = ground (arith, old, v.fresh k hk free)

    linked :
        Leads s.hhdm_offset
          (assign lev (page_virt s k) (suc n))
          ((made s t table i virt k).memory table i)
          (suc n)
    linked =
        subst (λ e. Leads s.hhdm_offset (assign lev (page_virt s k) (suc n)) e (suc n))
          (sym (written t k)) (made-Leads table i n virt k v up hi hk free)

    new_present : has_flag ((made s t table i virt k).memory table i) page_present ≡ true
    new_present = rw (written t k) (new_table table i n virt k v up hi hk free).present

    linked_up :
        IsTree (made s t table i virt k) (assign lev (page_virt s k) (suc n))
        → Descended s lev table i (suc n) (follow table i (made s t table i virt k))
    linked_up tree =
        subst (Descended s lev table i (suc n))
          (sym (follow-eq {s = made s t table i virt k} table i linked))
          (reached _ _ tree refl refl refl (λ b h. assign-old lev _ _ b (v.fresh k hk free) h) frame
            new_present refl linked)

    made_there :
        address s.pmm k ≢ 0
        → resume (make_table table i virt) (alloc_checked (address s.pmm k, t) s)
          ≡ (some tt, made s t table i virt k)
    unfolding alloc_checked make_table write_entry clear_table
    made_there h =
        ap (λ (o : Option ℕ). resume (make_table table i virt) (o, record s { pmm = t }))
          (if_no _ _ nz)
      where
        nz : (address s.pmm k == 0) ≡ false
        nz = ground arith

  allocated :
      {p : ℕ × Pmm}
      → Alloc s.pmm 1 p
      → Descended s lev table i
          (suc n)
          (resume (λ _. follow table i) (resume (make_table table i virt) (alloc_checked p s)))
  unfolding alloc_checked
  allocated (granted k {t} fits frees _ marks config valid null) =
      let free : used s.pmm k ≡ false = frees k (omega arith) (omega arith) in
      let hk : k < s.pmm.config.max_pages = omega arith in
      subst (Descended s lev table i (suc n))
        (sym (ap (resume (λ _. follow table i)) (made_there k t hk free null)))
        (linked_up k t hk free (made-IsTree table i n virt k v up hi hk free marks config valid))
  allocated (refused {t} full same config _) =
      failed (λ k h. same k ∙ full_at k (omega (arith, ap (λ (c : Config). c.max_pages) config)))
    where
      full_at : (k : ℕ) → k < s.pmm.config.max_pages → used s.pmm k ≡ true
      full_at k h =
          let (j, low, high, u) = full k (omega arith) in
          let same_page : j ≡ k = omega arith in ap (used s.pmm) (sym same_page) ∙ u

  ensured :
      (b : Bool)
      → has_flag (s.memory table i) page_present ≡ b
      → Descended s lev table i (suc n) (resume (λ _. follow table i) (ensure_table table i virt s))
  unfolding ensure_table alloc_table
  ensured true present =
      subst
        (λ (r : Option (Unit {0}) × Vmm).
          Descended s lev table i (suc n) (resume (λ _. follow table i) r))
        (sym (if_yes _ _ present)) (there present)
  ensured false absent =
      subst
        (λ (r : Option (Unit {0}) × Vmm).
          Descended s lev table i (suc n) (resume (λ _. follow table i) r))
        (sym (if_no _ _ absent)) (allocated (alloc_page_lem v.pmm))

  -- One level of `vmm_map_page` from a table of level two or more.
  pub descend-Descended : Descended s lev table i (suc n) (descend table i virt s)
  unfolding descend follow
  descend-Descended = ensured _ refl
