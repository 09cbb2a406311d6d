-- ===== src/Pmm/Alloc.antt =====
-- `pmm_alloc_page` and `pmm_alloc_pages`: first fit, and NULL exactly when nothing fits.
use kronosos.Base.{
  ℕ, ◌+◌, ◌≤◌, ◌<◌, ◌≡◌, ◌≢◌, refl, true, false, not, Option, none, some, arith, ltb, leb, ◌==◌,
  ==→eq, if_yes, if_no, ◌||◌, ◌&&◌, if◌then◌else◌, length, Bool-cases, inl, inr, List,
}
use kronosos.Pmm.{Pmm, null, page_used, mark_used, alloc_result, alloc_page, alloc_pages}
use kronosos.Pmm.Bitmap.{length-mark_used, length-mark_run, page_used-mark_used, page_used-mark_run}
use kronosos.Pmm.Inv.{mapped_on, IsValid, IsValid-same, used, address, page_address-eq}
use kronosos.Pmm.Search.{
  Scan, FirstRun, found, none_free, Blocked, find_free-FirstRun, find_run-FirstRun,
}

-- What an allocation of `count` pages does: it hands out the lowest run of free pages, marks
-- those and no other; or there is no such run, and it returns NULL and marks nothing.
pub data Alloc (s : Pmm) (count : ℕ) : ℕ × Pmm → Type 0 where
  granted :
      (k : ℕ) {t : Pmm}
      → k + count ≤ s.config.max_pages
      → ((j : ℕ) → k ≤ j → j < k + count → used s j ≡ false)
      → ((m : ℕ) → m < k → Blocked s.static_bitmap count m)
      → ((j : ℕ) → used t j ≡ (if leb k j && ltb j (k + count) then true else used s j))
      → t.config ≡ s.config
      → IsValid t
      → address s k ≢ null
      → Alloc s count (address s k, t)
  refused :
      {t : Pmm}
      → ((m : ℕ) → m + count ≤ s.config.max_pages → Blocked s.static_bitmap count m)
      → ((j : ℕ) → used t j ≡ used s j)
      → t.config ≡ s.config
      → IsValid t
      → Alloc s count (null, t)

alloc_result-Alloc :
    {s : Pmm} {count : ℕ} (marked : ℕ → List ℕ) (o : Option ℕ)
    → IsValid s
    → 0 < count
    → FirstRun s.static_bitmap count s.config.max_pages o
    → ((k : ℕ) → length (marked k) ≡ length s.static_bitmap)
    → ((k j : ℕ)
        → k + count ≤ s.config.max_pages
        → page_used (marked k) j ≡ (if leb k j && ltb j (k + count) then true else used s j))
    → Alloc s count (alloc_result s marked o)
unfolding alloc_result
alloc_result-Alloc {s} marked none v pos (none_free all) len marks =
    refused all (λ j. refl) refl (IsValid-same v refl refl refl)
alloc_result-Alloc {s} marked (some _) v pos (found k fit free before) len marks =
    rw (page_address-eq k v.config (omega arith)) (
      granted k fit free before (λ j. marks k j fit) refl (IsValid-same v refl refl (len k))
        (let low = v.config.above in omega arith))

mark_used-run :
    {s : Pmm}
    → IsValid s
    → (k j : ℕ) → k + 1 ≤ s.config.max_pages
    → page_used (mark_used s.static_bitmap k) j
      ≡ (if leb k j && ltb j (k + 1) then true else used s j)
mark_used-run {s} v k j h =
    let tracked = v.config.tracked in
    ground (arith, v.size, page_used-mark_used s.static_bitmap k j)

-- `pmm_alloc_page` takes the lowest free page, marks it and no other, and returns its address,
-- which is not NULL; or every page is used, and it returns NULL and marks nothing. Either way the
-- invariant and the configuration are kept.
pub alloc_page_lem : {s : Pmm} → IsValid s → Alloc s 1 (alloc_page s)
unfolding alloc_page
alloc_page_lem {s} v = rw (if_no _ _ (mapped_on v)) (
    alloc_result-Alloc _ _ v (omega arith)
      (find_free-FirstRun _ _ 0 (omega arith) (λ m h. absurd (omega arith)))
      (length-mark_used s.static_bitmap) (mark_used-run v))

-- In a valid state, and for a count other than 0: `pmm_alloc_pages` marks the lowest run of `count`
-- free pages and nothing else, and returns its non-NULL address; or it marks nothing and returns
-- NULL, and there is no such run. The invariant is kept.
pub alloc_pages_lem :
    {s : Pmm} (count : ℕ) → IsValid s → count ≢ 0 → Alloc s count (alloc_pages s count)
unfolding alloc_pages
alloc_pages_lem {s} count v pos = rw (if_no _ _ guard) (elim (Bool-cases (count == 1)) [
  | inl one ↦ rw (if_yes _ _ one) (let same : count ≡ 1 = ==→eq one in rw same (alloc_page_lem v))
  | inr many ↦ rw (if_no _ _ many) (
      alloc_result-Alloc _ _ v (omega arith) (find_run-FirstRun _ _ _ 0 0 0 0 (omega arith) start)
        (λ k. length-mark_run s.static_bitmap count k)
        (λ k j h.
          let tracked = v.config.tracked in
          page_used-mark_run s.static_bitmap count k j (omega (arith, v.size))))
])
  where
    guard : (not s.mapped || (count == 0)) ≡ false
    guard = ground (arith, v.mapped)

    start : Scan s.static_bitmap count 0 0 0 0
    start = record {
      here = refl;
      short = omega arith;
      begun = λ ne. refl;
      free = λ j p q. absurd (omega arith);
      blocked = λ m h. absurd (omega arith);
    }
