-- ===== src/Pmm/Count.antt =====
-- `pmm_get_free_memory` and `pmm_get_used_memory`: the counting loops, and how the calls of the
-- allocator change them.
use kronosos.Base.{
  ℕ, zero, suc, ◌+◌, ◌-◌, ◌*◌, ◌^◌, ◌≤◌, ◌<◌, min, max, ◌≡◌, ◌≢◌, ◌∙◌, ap, Bool, true, false, arith,
  ltb, leb, ◌==◌, if_yes, if_no, ◌&&◌, if◌then◌else◌, Bool-cases, inl, inr, List, add64,
}
use kronosos.Pmm.{
  Config, Pmm, null, page_used, count_free, count_used, get_free_memory, get_used_memory,
  alloc_pages,
}
use kronosos.Pmm.Inv.{IsValid, used, mapped_on}
use kronosos.Pmm.Alloc.{Alloc, granted, refused, alloc_pages_lem}

-- how many of the `n` numbers from `i` on pass a test
tally : (ℕ → Bool) → ℕ → ℕ → ℕ
tally f zero i = 0
tally f (suc n) i = (if f i then 1 else 0) + tally f n (i + 1)

tally-le : (f : ℕ → Bool) (n i : ℕ) → tally f n i ≤ n
unfolding tally
tally-le f zero i = omega arith
tally-le f (suc n) i = ground (arith, tally-le f n (i + 1))

count_used-tally :
    (bitmap : List ℕ) (n i acc : ℕ)
    → acc + n < 2 ^ 64
    → count_used bitmap n i acc ≡ acc + tally (page_used bitmap) n i
unfolding tally count_used
count_used-tally bitmap zero i acc h = omega arith
count_used-tally bitmap (suc n) i acc h = elim (Bool-cases (page_used bitmap i)) [
  | inl u ↦ rw (u, count_used-tally bitmap n (i + 1) (add64 acc 1) (omega arith)) (omega arith)
  | inr f ↦ rw (f, count_used-tally bitmap n (i + 1) acc (omega arith)) (omega arith)
]

count_free-tally :
    (bitmap : List ℕ) (n i acc : ℕ)
    → acc + n < 2 ^ 64
    → count_free bitmap n i acc + tally (page_used bitmap) n i ≡ acc + n
unfolding tally count_free
count_free-tally bitmap zero i acc h = omega arith
count_free-tally bitmap (suc n) i acc h = elim (Bool-cases (page_used bitmap i)) [
  | inl u ↦ rw (u) (omega (arith, count_free-tally bitmap n (i + 1) acc (omega arith)))
  | inr f ↦ rw (f) (omega (arith, count_free-tally bitmap n (i + 1) (add64 acc 1) (omega arith)))
]

-- Setting a run of numbers that all failed the test adds as many as lie in the range counted.
tally-run :
    (f g : ℕ → Bool) (k e n i : ℕ)
    → ((j : ℕ) → k ≤ j → j < e → f j ≡ false)
    → ((j : ℕ) → g j ≡ (if leb k j && ltb j e then true else f j))
    → tally g n i ≡ tally f n i + (min e (i + n) - max k i)
unfolding tally
tally-run f g k e zero i clear run = omega arith
tally-run f g k e (suc n) i clear run = elim (Bool-cases (leb k i && ltb i e)) [
  | inl inside ↦
      let off : f i ≡ false = clear i (ground arith) (ground arith) in
      let on : g i ≡ true = run i ∙ if_yes _ _ inside in
      rw (off, on) (ground (arith, tally-run f g k e n (i + 1) clear run))
  | inr outside ↦
      let same : g i ≡ f i = run i ∙ if_no _ _ outside in
      rw same (ground (arith, tally-run f g k e n (i + 1) clear run))
]

abbrev used_pages : Pmm → ℕ
used_pages s = tally (used s) s.config.max_pages 0

used_memory-tally : {s : Pmm} → IsValid s → get_used_memory s ≡ used_pages s * 4096
unfolding get_used_memory
used_memory-tally {s} v =
    let tracked = v.config.tracked in
    rw
      (
        if_no _ _ (mapped_on v),
        count_used-tally s.static_bitmap s.config.max_pages 0 0 (omega arith),
        v.config.page_size,
      )
      (omega (arith, tally-le (used s) s.config.max_pages 0))

free_memory-tally :
    {s : Pmm} → IsValid s → get_free_memory s + used_pages s * 4096 ≡ s.config.max_pages * 4096
unfolding get_free_memory
free_memory-tally {s} v =
    let tracked = v.config.tracked in
    rw (if_no _ _ (mapped_on v), v.config.page_size)
      (omega (arith, count_free-tally s.static_bitmap s.config.max_pages 0 0 (omega arith)))

-- Free and used memory make up the managed region.
pub get_free_memory-add-get_used_memory :
    {s : Pmm} → IsValid s → get_free_memory s + get_used_memory s ≡ s.config.max_pages * 4096
get_free_memory-add-get_used_memory v = omega (arith, free_memory-tally v, used_memory-tally v)

-- Marking a run of free pages takes its size from the free memory.
run-memory :
    {s t : Pmm} (k e : ℕ)
    → IsValid s
    → IsValid t
    → t.config ≡ s.config
    → e ≤ s.config.max_pages
    → ((j : ℕ) → k ≤ j → j < e → used s j ≡ false)
    → ((j : ℕ) → used t j ≡ (if leb k j && ltb j e then true else used s j))
    → get_free_memory t + (e - k) * 4096 ≡ get_free_memory s
run-memory {s} {t} k e v w config fit free marks = omega (
  arith,
  free_memory-tally v,
  free_memory-tally w,
  ap (λ (c : Config). c.max_pages) config,
  ap (λ (c : Config). tally (used t) c.max_pages 0) config,
  tally-run (used s) (used t) k e s.config.max_pages 0 free marks,
)

Alloc-memory :
    {s : Pmm} {count : ℕ} {r : ℕ × Pmm}
    → IsValid s
    → Alloc s count r
    → get_free_memory r.1 + (if r.0 == null then 0 else count * 4096) ≡ get_free_memory s
Alloc-memory {s} {count} v (granted k {t} fit free before marks config valid ne) =
    ground (arith, run-memory k (k + count) v valid config fit free marks)
Alloc-memory {s} v (refused {t} all same config valid) = ground (
  arith,
  run-memory 0 0 v valid config (omega arith) (λ j p q. absurd (omega arith))
      (λ j. same j ∙ ground arith),
)

-- `pmm_alloc_pages` takes the size of what it hands out from the free memory, and nothing when it
-- returns NULL.
pub get_free_memory-alloc_pages :
    {s : Pmm} (count : ℕ)
    → IsValid s
    → count ≢ 0
    → let (a, t) = alloc_pages s count in
      get_free_memory t + (if a == null then 0 else count * 4096) ≡ get_free_memory s
get_free_memory-alloc_pages count v pos = Alloc-memory v (alloc_pages_lem count v pos)
