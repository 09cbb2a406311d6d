-- ===== src/Vmm/MapPage.antt =====
-- `vmm_map_page` from its guards to the last write.
use kronosos.Base.{
  ℕ, suc, ◌≡◌, ◌≢◌, ◌∙◌, ap, refl, true, false, not, ◌&&◌, Option, none, some, bit_and, bit_or,
  ◌==◌, if◌then◌else◌, if_yes, if_no, arith,
}
use mathlib.Core.Path.{subst, sym}
use kronosos.Vmm.{
  Vm, Vmm, resume, guard, ◌>>=◌, has_flag, index_at, page_present, page_addr_mask, phys_to_virt,
  table_at, write_entry, descend, hw_flags, map_page,
}
use kronosos.Vmm.Translate.{root}
use kronosos.Vmm.Tree.{Levels, Leads, IsTree, Exhausted, Descended, failed, reached}
use kronosos.Vmm.Walk.{descend-Descended}
use kronosos.Vmm.Words.{index_at-lt}
use kronosos.Vmm.Mapping.{Link, Kept, Link-Kept, Walked}

-- The steps of `vmm_map_page` from the page table, the page directory, the PDPT and the PML4 on.
unfoldable pub fill_pt : ℕ → ℕ → ℕ → Vm (Unit {0})
fill_pt e virt pt = write_entry pt (index_at 12 virt) e

fill_pd : ℕ → ℕ → ℕ → Vm (Unit {0})
fill_pd e virt pd = descend pd (index_at 21 virt) virt >>= fill_pt e virt

fill_pdpt : ℕ → ℕ → ℕ → Vm (Unit {0})
fill_pdpt e virt pdpt = descend pdpt (index_at 30 virt) virt >>= fill_pd e virt

fill_pml4 : ℕ → ℕ → ℕ → Vm (Unit {0})
fill_pml4 e virt pml4 = descend pml4 (index_at 39 virt) virt >>= fill_pdpt e virt

-- What a run has done from a state with a given offset: it has run out of pages for tables, or
-- the walk to the page's entry, which is now `e`, stands in a tree of page tables.
pub data Installed (offset virt e : ℕ) : Option (Unit {0}) × Vmm → Type 0 where
  exhausted : {t : Vmm} → Exhausted t → Installed offset virt e (none, t)
  installed :
      {t : Vmm} (lev : Levels)
      → t.hhdm_offset ≡ offset
      → IsTree t lev
      → Walked t lev virt e
      → Installed offset virt e (some tt, t)

module _ {t : Vmm} {lev : Levels} (pt j e : ℕ) (v : IsTree t lev) (at : lev pt ≡ 1) where
  abbrev after : Vmm
  after = record t { memory = λ b i. if (b == pt) && (i == j) then e else t.memory b i }

  other_table : (b i : ℕ) → b ≢ pt → after.memory b i ≡ t.memory b i
  other_table b i ne = if_no _ _ apart
    where
      apart : ((b == pt) && (i == j)) ≡ false
      apart = ground arith

  after-Kept : Kept t lev after lev pt
  after-Kept = record {
    offset = refl;
    levels = λ b h. refl;
    entries = λ b i h ne. other_table b i ne;
  }

  after-IsTree : IsTree after lev
  after-IsTree = record {
    pmm = v.pmm;
    direct = v.direct;
    root = v.root;
    root_not_null = v.root_not_null;
    child = λ b i n h up present.
        let same = other_table b i (λ z. omega (arith, up, at, ap lev z)) in
        subst (λ x. Leads t.hhdm_offset lev x (suc n)) (sym same)
          (v.child b i n h up (ap (λ x. has_flag x page_present) (sym same) ∙ present));
    fresh = v.fresh;
  }

  entered : after.memory pt j ≡ e
  entered = if_yes _ _ here
    where
      here : ((pt == pt) && (j == j)) ≡ true
      here = ground arith

-- One level of the walk, as the link that it leaves and what it keeps.
data Went (s : Vmm) (lev : Levels) (table i n : ℕ) : Option ℕ × Vmm → Type 0 where
  stopped : {t : Vmm} → Exhausted t → Went s lev table i n (none, t)
  went :
      {t : Vmm} (lev' : Levels) (child : ℕ)
      → IsTree t lev'
      → Link t lev' table i n child
      → Kept s lev t lev' table
      → root t ≡ root s
      → t.hhdm_offset ≡ s.hhdm_offset
      → Went s lev table i n (some child, t)

descend-Went :
    {s : Vmm} {lev : Levels} {r : Option ℕ × Vmm} (table i n : ℕ)
    → lev table ≡ suc (suc n)
    → table ≢ 0
    → Descended s lev table i (suc n) r
    → Went s lev table i (suc n) r
descend-Went table i n up ne (failed out) = stopped out
descend-Went {s} {lev} table i n up ne
      (reached {t} lev' child tree offset pml4 nx levels frame present to leads) =
    went lev' child tree
      (record {
        at = levels table (λ z. omega (arith, up)) ∙ up;
        table_mapped = ne;
        present = present;
        huge = leads.huge;
        to = to;
        child_mapped = λ z. leads.not_null (to ∙ z);
        level = ap lev' (sym to) ∙ leads.level;
      })
      (record {
        offset = offset;
        levels = levels;
        entries = λ b j h other. frame b j h (λ z. absurd (other z));
      })
      (ap (λ (x : ℕ). phys_to_virt x t.current_pml4_phys) offset
        ∙ ap (phys_to_virt s.hhdm_offset) pml4)
      offset

module _ (virt e : ℕ) where
  pub fill_pt-Installed :
      {t : Vmm} {lev : Levels} {pdpt pd pt : ℕ}
      → IsTree t lev
      → Link t lev (root t) (index_at 39 virt) 3 pdpt
      → Link t lev pdpt (index_at 30 virt) 2 pd
      → Link t lev pd (index_at 21 virt) 1 pt
      → Installed t.hhdm_offset virt e (fill_pt e virt pt t)
  unfolding write_entry fill_pt
  fill_pt-Installed {t} {lev} {pdpt} {pd} {pt} v l4 l3 l2 =
      installed lev refl (after-IsTree pt _ e v l2.level) (record {
        pdpt = pdpt;
        pd = pd;
        pt = pt;
        link4 = Link-Kept l4 kept (λ z. omega (arith, l4.at, l2.level, ap lev z));
        link3 = Link-Kept l3 kept (λ z. omega (arith, l3.at, l2.level, ap lev z));
        link2 = Link-Kept l2 kept (λ z. omega (arith, l2.at, l2.level, ap lev z));
        entry = entered pt _ e v l2.level;
      })
    where
      kept : Kept t lev (after pt (index_at 12 virt) e v l2.level) lev pt
      kept = after-Kept pt _ e v l2.level

  moved :
      {a b : ℕ} {r : Option (Unit {0}) × Vmm} → a ≡ b → Installed a virt e r → Installed b virt e r
  moved {r = r} same i = subst (λ o. Installed o virt e r) same i

  at_root :
      {u : Vmm} {lev : Levels} {i n child b c : ℕ}
      → c ≡ b
      → Link u lev b i n child
      → Link u lev c i n child
  at_root {u} {lev} {i} {n} {child} same l = subst (λ (x : ℕ). Link u lev x i n child) (sym same) l

  fill_pd-Installed :
      {t : Vmm} {lev : Levels} {pdpt pd : ℕ}
      → IsTree t lev
      → Link t lev (root t) (index_at 39 virt) 3 pdpt
      → Link t lev pdpt (index_at 30 virt) 2 pd
      → Installed t.hhdm_offset virt e (fill_pd e virt pd t)
  unfolding fill_pd
  fill_pd-Installed {t} {lev} {pdpt} {pd} v l4 l3 = go (
      descend-Went pd _ 0 l3.level l3.child_mapped
        (descend-Descended pd _ 0 virt v l3.level (index_at-lt 21 virt)))
    where
      go :
          {r : Option ℕ × Vmm}
          → Went t lev pd (index_at 21 virt) 1 r
          → Installed t.hhdm_offset virt e (resume (fill_pt e virt) r)
      go (stopped out) = exhausted out
      go (went lev' pt tree link kept same offset) =
          let keep4 = Link-Kept l4 kept (λ z. omega (arith, l4.at, l3.level, ap lev z)) in
          let keep3 = Link-Kept l3 kept (λ z. omega (arith, l3.at, l3.level, ap lev z)) in
          moved offset (fill_pt-Installed tree (at_root same keep4) keep3 link)

  fill_pdpt-Installed :
      {t : Vmm} {lev : Levels} {pdpt : ℕ}
      → IsTree t lev
      → Link t lev (root t) (index_at 39 virt) 3 pdpt
      → Installed t.hhdm_offset virt e (fill_pdpt e virt pdpt t)
  unfolding fill_pdpt
  fill_pdpt-Installed {t} {lev} {pdpt} v l4 = go (
      descend-Went pdpt _ 1 l4.level l4.child_mapped
        (descend-Descended pdpt _ 1 virt v l4.level (index_at-lt 30 virt)))
    where
      go :
          {r : Option ℕ × Vmm}
          → Went t lev pdpt (index_at 30 virt) 2 r
          → Installed t.hhdm_offset virt e (resume (fill_pd e virt) r)
      go (stopped out) = exhausted out
      go (went lev' pd tree link kept same offset) =
          let keep4 = Link-Kept l4 kept (λ z. omega (arith, l4.at, l4.level, ap lev z)) in
          moved offset (fill_pd-Installed tree (at_root same keep4) link)

  fill_pml4-Installed :
      {t : Vmm} {lev : Levels}
      → IsTree t lev
      → Installed t.hhdm_offset virt e (fill_pml4 e virt (root t) t)
  unfolding fill_pml4
  fill_pml4-Installed {t} {lev} v = go (
      descend-Went (root t) _ 2 v.root v.root_not_null
        (descend-Descended (root t) _ 2 virt v v.root (index_at-lt 39 virt)))
    where
      go :
          {r : Option ℕ × Vmm}
          → Went t lev (root t) (index_at 39 virt) 3 r
          → Installed t.hhdm_offset virt e (resume (fill_pdpt e virt) r)
      go (stopped out) = exhausted out
      go (went lev' pdpt tree link kept same offset) =
          moved offset (fill_pdpt-Installed tree (at_root same link))

-- the page of an address
abbrev pub page_of : ℕ → ℕ
page_of addr = bit_and addr page_addr_mask

-- the leaf entry that `vmm_map_page` writes
abbrev pub leaf_entry : Vmm → ℕ → ℕ → ℕ
leaf_entry s phys_addr flags = bit_or (page_of phys_addr) (hw_flags s.using_nx flags)

module _ (s : Vmm) (virt_addr phys_addr flags : ℕ) where
  abbrev last_steps : ℕ → Vm (Unit {0})
  last_steps = fill_pml4 (leaf_entry s phys_addr flags) (page_of virt_addr)

  past_guards :
      virt_addr ≢ 0
      → phys_addr ≢ 0
      → root s ≢ 0
      → map_page virt_addr phys_addr flags s ≡ last_steps (root s) s
  unfolding map_page table_at fill_pml4 fill_pdpt fill_pd fill_pt
  past_guards hv hp hr =
      ap
        (λ (o : Option (Unit {0})).
          resume
            (λ _. guard (not (phys_addr == 0)) >>= λ _. table_at s.current_pml4_phys >>= last_steps)
            (o, s))
        (if_yes _ _ first)
      ∙ ap
          (λ (o : Option (Unit {0})).
            resume (λ _. table_at s.current_pml4_phys >>= last_steps) (o, s))
          (if_yes _ _ second)
      ∙ ap (λ (o : Option ℕ). resume last_steps (o, s)) (if_no _ _ third)
    where
      first : not (virt_addr == 0) ≡ true
      first = ground arith

      second : not (phys_addr == 0) ≡ true
      second = ground arith

      third : (root s == 0) ≡ false
      third = ground arith

  pub map_page-Installed :
      {lev : Levels}
      → IsTree s lev
      → virt_addr ≢ 0
      → phys_addr ≢ 0
      → Installed s.hhdm_offset
          (page_of virt_addr)
          (leaf_entry s phys_addr flags)
          (map_page virt_addr phys_addr flags s)
  map_page-Installed v hv hp =
      subst (Installed s.hhdm_offset (page_of virt_addr) (leaf_entry s phys_addr flags))
        (sym (past_guards hv hp v.root_not_null))
        (fill_pml4-Installed (page_of virt_addr) (leaf_entry s phys_addr flags) v)
