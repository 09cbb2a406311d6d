-- ===== src/Pmm/Search.antt =====
-- The searches of `pmm_alloc_page` and `pmm_alloc_pages`: what they find.
use kronosos.Base.{
  ℕ, zero, suc, ◌+◌, ◌≤◌, ◌<◌, ◌≡◌, ◌≢◌, refl, true, false, Option, none, some, arith, ltb, ◌==◌,
  ==→eq, if◌then◌else◌, Bool-cases, inl, inr, List,
}
use mathlib.Core.Path.{subst}
use kronosos.Pmm.{page_used, find_free, find_run}

-- The run of `count` pages from page `m` on has a used page.
abbrev pub Blocked : List ℕ → ℕ → ℕ → Type 0
Blocked bitmap count m = (j : ℕ) × (m ≤ j) × (j < m + count) × (page_used bitmap j ≡ true)

-- A search of pages 0 to `n - 1` gives the lowest run of `count` free pages, if there is one.
pub data FirstRun (bitmap : List ℕ) (count n : ℕ) : Option ℕ → Type 0 where
  found :
      (k : ℕ)
      → k + count ≤ n
      → ((j : ℕ) → k ≤ j → j < k + count → page_used bitmap j ≡ false)
      → ((m : ℕ) → m < k → Blocked bitmap count m)
      → FirstRun bitmap count n (some k)
  none_free : ((m : ℕ) → m + count ≤ n → Blocked bitmap count m) → FirstRun bitmap count n none

pub find_free-FirstRun :
    (bitmap : List ℕ) (n i : ℕ) {end : ℕ}
    → i + n ≡ end
    → ((m : ℕ) → m < i → page_used bitmap m ≡ true)
    → FirstRun bitmap 1 end (find_free bitmap n i)
unfolding find_free
find_free-FirstRun bitmap zero i e before =
    none_free (λ m h. (m, omega arith, omega arith, before m (omega arith)))
find_free-FirstRun bitmap (suc n) i e before = elim (Bool-cases (page_used bitmap i)) [
  | inl u ↦ rw u (
      find_free-FirstRun bitmap n (i + 1) (omega arith) (λ m h. elim (Bool-cases (m == i)) [
        | inl same ↦ ground arith
        | inr apart ↦ before m (ground arith)
      ]))
  | inr f ↦ rw f (
      found i (omega arith) (λ j a b. let same : j ≡ i = omega arith in rw same f)
        (λ m h. (m, omega arith, omega arith, before m h)))
]

-- The loop has seen the pages below `i`: the last `found` of them are free, from page `b` on, and
-- no run from below `b` is free.
pub record Scan (bitmap : List ℕ) (count i seen start b : ℕ) : Type 0 where
  pub here : b + seen ≡ i
  pub short : seen < count
  pub begun : seen ≢ 0 → start ≡ b
  pub free : (j : ℕ) → b ≤ j → j < i → page_used bitmap j ≡ false
  pub blocked : (m : ℕ) → m < b → Blocked bitmap count m

-- A property of the pages below `i` and of page `i` is one of the pages below `i + 1`.
below_suc : {P : ℕ → Type 0} (i : ℕ) → P i → ((m : ℕ) → m < i → P m) → (m : ℕ) → m < i + 1 → P m
below_suc {P} i last before m h = elim (Bool-cases (i == m)) [
  | inl same ↦ subst P (==→eq same) last
  | inr apart ↦ before m (ground arith)
]

module _ {bitmap : List ℕ} {count i seen start b : ℕ} (s : Scan bitmap count i seen start b) where
  Scan-used : page_used bitmap i ≡ true → Scan bitmap count (i + 1) 0 start (i + 1)
  Scan-used u = record {
    here = omega arith;
    short = let kept = s.short in omega arith;
    begun = λ ne. absurd (ne refl);
    free = λ j p q. absurd (omega arith);
    blocked = λ m h. elim (Bool-cases (ltb m b)) [
      | inl low ↦ s.blocked m (ground arith)
      | inr high ↦ let kept = s.short in let at = s.here in (i, omega arith, ground arith, u)
    ];
  }

  start_of_run : (if seen == 0 then i else start) ≡ b
  start_of_run =
      let at = s.here in
      let was = s.begun in
      elim (Bool-cases (seen == 0)) [
        | inl new ↦ ground arith
        | inr old ↦ rw old (was (ground arith))
      ]

  Scan-free :
      page_used bitmap i ≡ false
      → ((seen + 1) == count) ≡ false
      → Scan bitmap count (i + 1) (seen + 1) (if seen == 0 then i else start) b
  Scan-free f more = record {
    here = let at = s.here in omega arith;
    short = let kept = s.short in ground arith;
    begun = λ ne. start_of_run;
    free = λ j p q. free_below j q p;
    blocked = s.blocked;
  }
    where
      free_below : (j : ℕ) → j < i + 1 → b ≤ j → page_used bitmap j ≡ false
      free_below = below_suc i (λ p. f) (λ j q p. s.free j p q)

  Scan-full :
      {end : ℕ} (n : ℕ)
      → i + suc n ≡ end
      → page_used bitmap i ≡ false
      → ((seen + 1) == count) ≡ true
      → FirstRun bitmap count end (some (if seen == 0 then i else start))
  Scan-full n e f full = rw start_of_run (
      found b (let at = s.here in ground arith)
        (λ j p q.
          below_suc {P = λ j. b ≤ j → page_used bitmap j ≡ false} i (λ p. f) (λ j q p. s.free j p q)
            j (let at = s.here in ground arith) p)
        s.blocked)

pub find_run-FirstRun :
    (bitmap : List ℕ) (count n i seen start b : ℕ) {end : ℕ}
    → i + n ≡ end
    → Scan bitmap count i seen start b
    → FirstRun bitmap count end (find_run bitmap count n i seen start)
unfolding find_run
find_run-FirstRun bitmap count zero i seen start b e s =
    let open_run = s.short in let at_end = s.here in none_free (λ m h. s.blocked m (omega arith))
find_run-FirstRun bitmap count (suc n) i seen start b e s = elim (Bool-cases (page_used bitmap i)) [
  | inl u ↦
      rw u (find_run-FirstRun bitmap count n (i + 1) 0 start (i + 1) (omega arith) (Scan-used s u))
  | inr f ↦ rw f (elim (Bool-cases ((seen + 1) == count)) [
    | inl full ↦ rw full (Scan-full s n e f full)
    | inr more ↦ rw more (
        find_run-FirstRun bitmap count n (i + 1) (seen + 1) (if seen == 0 then i else start) b
          (omega arith) (Scan-free s f more))
  ])
]
