-- ===== src/Vmm/Mapping.antt =====
-- `vmm_map_page` as a whole: the chain of tables that it walks, and the translation afterwards.
use kronosos.Base.{
  ℕ, suc, ◌<◌, ◌≡◌, ◌≢◌, ◌∙◌, ap, refl, Bool, true, false, not, bit_and, leb, if◌then◌else◌, if_no,
  arith, add64,
}
use kronosos.Vmm.{Vmm, has_flag, index_at, page_present, page_huge, page_addr_mask}
use kronosos.Vmm.Translate.{
  missing, next, root, virt_to_phys_pt, virt_to_phys_pd, virt_to_phys_pdpt, virt_to_phys,
  is_mapped_pd, is_mapped_pdpt, is_mapped,
}
use kronosos.Vmm.Tree.{Levels}

-- A present entry of a table of level `n + 1` leads to the table `child`.
pub record Link (t : Vmm) (lev : Levels) (table i n child : ℕ) : Type 0 where
  pub at : lev table ≡ suc n
  pub table_mapped : table ≢ 0
  pub present : has_flag (t.memory table i) page_present ≡ true
  pub huge : has_flag (t.memory table i) page_huge ≡ false
  pub to : next t table i ≡ child
  pub child_mapped : child ≢ 0
  pub level : lev child ≡ n

-- What a later step keeps, which changes no entry of the tables but those of `table`.
pub record Kept (s : Vmm) (lev : Levels) (t : Vmm) (lev' : Levels) (table : ℕ) : Type 0 where
  pub offset : t.hhdm_offset ≡ s.hhdm_offset
  pub levels : (b : ℕ) → lev b ≢ 0 → lev' b ≡ lev b
  pub entries : (b j : ℕ) → lev b ≢ 0 → b ≢ table → t.memory b j ≡ s.memory b j

pub Link-Kept :
    {s t : Vmm} {lev lev' : Levels} {table i n child other : ℕ}
    → Link s lev table i (suc n) child
    → Kept s lev t lev' other
    → table ≢ other
    → Link t lev' table i (suc n) child
Link-Kept {s} {t} {lev} {lev'} {table} {i} {n} {child} {other} l k ne =
    let same = k.entries table i (λ z. omega (arith, l.at)) ne in
    record {
      at = k.levels table (λ z. omega (arith, l.at)) ∙ l.at;
      table_mapped = l.table_mapped;
      present = rw same l.present;
      huge = rw same l.huge;
      to = rw (same, k.offset) l.to;
      child_mapped = l.child_mapped;
      level = k.levels child (λ z. omega (arith, l.level)) ∙ l.level;
    }

-- The walk to the page table of `virt`, whose entry is `e`.
pub record Walked (t : Vmm) (lev : Levels) (virt e : ℕ) : Type 0 where
  pub pdpt : ℕ
  pub pd : ℕ
  pub pt : ℕ
  pub link4 : Link t lev (root t) (index_at 39 virt) 3 pdpt
  pub link3 : Link t lev pdpt (index_at 30 virt) 2 pd
  pub link2 : Link t lev pd (index_at 21 virt) 1 pt
  pub entry : t.memory pt (index_at 12 virt) ≡ e

missing-Link :
    {t : Vmm} {lev : Levels} {table i n child : ℕ}
    → Link t lev table i n child
    → missing t table i ≡ false
unfolding missing
missing-Link l = ground (arith, l.table_mapped, l.present)

-- The code's walk along the chain.
module _ {t : Vmm} {lev : Levels} {virt e : ℕ} {b : Bool} (w : Walked t lev virt e)
    (low : virt < t.hhdm_offset) (present : has_flag e page_present ≡ b) where
  direct : leb t.hhdm_offset virt ≡ false
  direct = ground arith

  leaf : missing t w.pt (index_at 12 virt) ≡ not b
  unfolding missing
  leaf = let at = w.entry in let here = w.link2.child_mapped in rw at (ground (arith, present))

  abbrev pub found : ℕ
  found = if not b then 0 else add64 (bit_and e page_addr_mask) (bit_and virt 0xfff)

  pt_result : virt_to_phys_pt t virt w.pt ≡ found
  unfolding virt_to_phys_pt
  pt_result = let at = w.entry in rw (leaf, at) refl

  pub virt_to_phys-Walked : virt_to_phys t virt ≡ found
  unfolding virt_to_phys virt_to_phys_pdpt virt_to_phys_pd
  virt_to_phys-Walked =
      if_no _ _ direct
      ∙ if_no _ _ (missing-Link w.link4)
      ∙ ap (virt_to_phys_pdpt t virt) w.link4.to
      ∙ if_no _ _ (missing-Link w.link3)
      ∙ if_no _ _ w.link3.huge
      ∙ ap (virt_to_phys_pd t virt) w.link3.to
      ∙ if_no _ _ (missing-Link w.link2)
      ∙ if_no _ _ w.link2.huge
      ∙ ap (virt_to_phys_pt t virt) w.link2.to
      ∙ pt_result

  pub is_mapped-Walked : is_mapped t virt ≡ not (not b)
  unfolding is_mapped is_mapped_pdpt is_mapped_pd
  is_mapped-Walked =
      if_no _ _ direct
      ∙ if_no _ _ (missing-Link w.link4)
      ∙ ap (is_mapped_pdpt t virt) w.link4.to
      ∙ if_no _ _ (missing-Link w.link3)
      ∙ if_no _ _ w.link3.huge
      ∙ ap (is_mapped_pd t virt) w.link3.to
      ∙ if_no _ _ (missing-Link w.link2)
      ∙ if_no _ _ w.link2.huge
      ∙ ap (λ p. not (missing t p (index_at 12 virt))) w.link2.to
      ∙ ap not leaf
