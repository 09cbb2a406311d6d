-- ===== src/Vmm/Made.antt =====
-- A new page table keeps the tree of page tables.
use kronosos.Base.{
  ℕ, suc, ◌+◌, ◌<◌, ◌≡◌, ◌≢◌, ◌∙◌, ap, true, false, ◌&&◌, ltb, leb, ◌==◌, ==→eq, if◌then◌else◌,
  if_yes, if_no, Bool-cases, inl, inr, arith,
}
use mathlib.Core.Path.{subst}
use kronosos.Pmm.{Config, Pmm}
use kronosos.Pmm.Inv
use kronosos.Pmm.Inv.{used, address}
use kronosos.Vmm.{Vmm, has_flag, page_present, phys_to_virt, new_entry}
use kronosos.Vmm.Words.{IsTableEntry, new_entry-IsTableEntry, present-eq}
use kronosos.Vmm.Tree.{Levels, Leads, IsTree}

-- a level for one more address
abbrev pub assign : Levels → ℕ → ℕ → Levels
assign lev a n b = if b == a then n else lev b

pub assign-old : (lev : Levels) (a n b : ℕ) → lev a ≡ 0 → lev b ≢ 0 → assign lev a n b ≡ lev b
assign-old lev a n b h k = elim (Bool-cases (b == a)) [
  | inl same ↦ absurd (k (ap lev (==→eq same) ∙ h))
  | inr apart ↦ if_no _ _ apart
]

-- the virtual address of page `k` of the allocator
abbrev pub page_virt : Vmm → ℕ → ℕ
page_virt s k = phys_to_virt s.hhdm_offset (address s.pmm k)

-- The state after a new table has been made at page `k` for `table[i]`.
abbrev pub made : Vmm → Pmm → ℕ → ℕ → ℕ → ℕ → Vmm
made s pmm' table i virt k = record s {
  pmm = pmm';
  memory = λ t j.
      if (t == table) && (j == i)
      then new_entry (address s.pmm k) virt
      else if (t == page_virt s k) && ltb j 512
      then 0
      else s.memory t j;
}

page_virt-eq :
    {s : Vmm} {lev : Levels} (k : ℕ)
    → IsTree s lev
    → k < s.pmm.config.max_pages
    → page_virt s k ≡ address s.pmm k + s.hhdm_offset
unfolding phys_to_virt
page_virt-eq k v h =
    let c = v.pmm.config in
    let direct = v.direct in let above = c.above in let last = c.end in ground arith

module _ {s : Vmm} {lev : Levels} (table i n virt k : ℕ) (v : IsTree s lev)
    (up : lev table ≡ suc (suc n)) (hi : i < 512) (hk : k < s.pmm.config.max_pages)
    (free : used s.pmm k ≡ false) where
  new_level : lev (page_virt s k) ≡ 0
  new_level = v.fresh k hk free

  pub new_table : IsTableEntry (address s.pmm k) (new_entry (address s.pmm k) virt)
  new_table =
      let c = v.pmm.config in
      let aligned = c.aligned in
      let last = c.end in
      let fits = c.fits in new_entry-IsTableEntry _ virt (omega arith) (omega arith)

  page_virt-ne : page_virt s k ≢ 0
  page_virt-ne = let above = v.pmm.config.above in omega (arith, page_virt-eq k v hk)

  pub made-Leads :
      Leads s.hhdm_offset
        (assign lev (page_virt s k) (suc n))
        (new_entry (address s.pmm k) virt)
        (suc n)
  made-Leads =
      let e = new_table in
      record {
        huge = e.huge;
        not_null = rw e.address page_virt-ne;
        level = rw e.address (assign-self (page_virt s k));
      }
    where
      assign-self : (a : ℕ) → assign lev a (suc n) a ≡ suc n
      assign-self a = ground arith

  made-child :
      (pmm' : Pmm) (t j m : ℕ)
      → j < 512
      → assign lev (page_virt s k) (suc n) t ≡ suc (suc m)
      → has_flag ((made s pmm' table i virt k).memory t j) page_present ≡ true
      → Leads s.hhdm_offset
          (assign lev (page_virt s k) (suc n))
          ((made s pmm' table i virt k).memory t j)
          (suc m)
  made-child pmm' t j m hj lv pr = elim (Bool-cases ((t == table) && (j == i))) [
    | inl here ↦
        let at : t ≡ table = ground arith in
        let depth : suc n ≡ suc m = depth_of at in
        rw (if_yes _ _ here) (
          subst
            (Leads s.hhdm_offset (assign lev (page_virt s k) (suc n))
              (new_entry (address s.pmm k) virt))
            depth made-Leads)
    | inr other ↦ rw (if_no _ _ other) (elim (Bool-cases ((t == page_virt s k) && ltb j 512)) [
      | inl cleared ↦ absurd (no_child other cleared)
      | inr old ↦
          rw (if_no _ _ old) (keep (v.child t j m hj (old_level old) (old_present other old)))
    ])
  ]
    where
      depth_of : t ≡ table → suc n ≡ suc m
      depth_of at = omega (
        arith,
        lv,
        ap (assign lev (page_virt s k) (suc n)) at,
        assign-old lev (page_virt s k) (suc n) table new_level (λ z. omega (arith, up)),
        up,
      )

      no_child : ((t == table) && (j == i)) ≡ false → ((t == page_virt s k) && ltb j 512) ≡ true → ⊥
      no_child other cleared =
          let gone = present-eq 0 in
          let still = rw (if_no _ _ other, if_yes _ _ cleared) at pr in cc

      old_level : ((t == page_virt s k) && ltb j 512) ≡ false → lev t ≡ suc (suc m)
      old_level old = ground (arith, lv)

      old_present :
          ((t == table) && (j == i)) ≡ false
          → ((t == page_virt s k) && ltb j 512) ≡ false
          → has_flag (s.memory t j) page_present ≡ true
      old_present other old = rw (if_no _ _ other, if_no _ _ old) at pr

      keep :
          Leads s.hhdm_offset lev (s.memory t j) (suc m)
          → Leads s.hhdm_offset (assign lev (page_virt s k) (suc n)) (s.memory t j) (suc m)
      keep l = record {
        huge = l.huge;
        not_null = l.not_null;
        level = assign-old lev _ _ _ new_level (λ z. omega (arith, l.level)) ∙ l.level;
      }

  made-fresh :
      (pmm' : Pmm) (j : ℕ)
      → pmm'.config ≡ s.pmm.config
      → j < pmm'.config.max_pages
      → used pmm' j ≡ false
      → ((j : ℕ) → used pmm' j ≡ (if leb k j && ltb j (k + 1) then true else used s.pmm j))
      → assign lev (page_virt s k) (suc n) (phys_to_virt s.hhdm_offset (address pmm' j)) ≡ 0
  made-fresh pmm' j config hj unused marks = rw same (if_no _ _ apart ∙ v.fresh j below was_unused)
    where
      below : j < s.pmm.config.max_pages
      below = omega (arith, ap (λ (c : Config). c.max_pages) config)

      same : address pmm' j ≡ address s.pmm j
      same = omega (arith, ap (λ (c : Config). c.kernel_start) config)

      was_unused : used s.pmm j ≡ false
      was_unused = ground (arith, marks j)

      apart : (page_virt s j == page_virt s k) ≡ false
      apart = ground (arith, page_virt-eq j v below, page_virt-eq k v hk, marks j)

  pub made-IsTree :
      {pmm' : Pmm}
      → ((j : ℕ) → used pmm' j ≡ (if leb k j && ltb j (k + 1) then true else used s.pmm j))
      → pmm'.config ≡ s.pmm.config
      → Inv.IsValid pmm'
      → IsTree (made s pmm' table i virt k) (assign lev (page_virt s k) (suc n))
  made-IsTree {pmm'} marks config valid = record {
    pmm = valid;
    direct = rw config v.direct;
    root = assign-old lev _ _ _ new_level (λ z. omega (arith, v.root)) ∙ v.root;
    root_not_null = v.root_not_null;
    child = made-child pmm';
    fresh = λ j h u. made-fresh pmm' j config h u marks;
  }
