-- ===== src/Pmm/RoundTrip.antt =====
-- Allocation and release undo one another.
use kronosos.Base.{ℕ, ◌+◌, min, ◌≡◌, ◌≢◌, ◌∙◌, ap, refl, arith}
use kronosos.Pmm.{Config, Pmm, null, alloc_pages, free_pages}
use kronosos.Pmm.Inv.{IsValid, used, address}
use kronosos.Pmm.Alloc.{Alloc, granted, refused, alloc_pages_lem}
use kronosos.Pmm.Free.{Freed, free_pages_lem}
use mathlib.Core.Path.{subst₂}

-- What an allocation followed by the free of what it returned leaves behind.
pub record Restored (s t : Pmm) : Type 0 where
  pub pages : (j : ℕ) → used t j ≡ used s j
  pub config : t.config ≡ s.config
  pub valid : IsValid t

Alloc-Restored :
    {s : Pmm} {count : ℕ} {r : ℕ × Pmm}
    → IsValid s
    → count ≢ 0
    → Alloc s count r
    → r.0 ≢ null
    → Restored s (free_pages r.1 r.0 count)
Alloc-Restored v pos (refused all same config valid) ne = absurd (ne refl)
Alloc-Restored {s} {count} v pos (granted k {t} fit free before marks config valid ne) _ = record {
  pages = λ j. ground (arith, freed.pages j, marks j, free j);
  config = freed.config ∙ config;
  valid = freed.valid;
}
  where
    freed : Freed t k (k + count) (free_pages t (address s k) count)
    freed =
        let limit = ap (λ (c : Config). c.max_pages) config in
        let first = ap (λ (c : Config). c.kernel_start) config in
        let fits = valid.config.fits in
        let last = valid.config.end in
        let end : min (k + count) t.config.max_pages ≡ k + count = omega arith in
        let at : address t k ≡ address s k = omega arith in
        let all = free_pages_lem k count valid (omega arith) (omega arith) in
        subst₂ (λ e a. Freed t k e (free_pages t a count)) end at all

-- In a valid state, for a count other than 0, freeing what `pmm_alloc_pages` has returned, when it is
-- not NULL, undoes it: every page is as it was, and the configuration and the invariant are kept.
pub free_pages-alloc_pages :
    {s : Pmm} (count : ℕ)
    → IsValid s
    → count ≢ 0
    → (alloc_pages s count).0 ≢ null
    → Restored s (free_pages (alloc_pages s count).1 (alloc_pages s count).0 count)
free_pages-alloc_pages count v pos = Alloc-Restored v pos (alloc_pages_lem count v pos)
