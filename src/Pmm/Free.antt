-- ===== src/Pmm/Free.antt =====
-- `pmm_free_page`, `pmm_free_pages` and `pmm_is_page_free`.
use kronosos.Base.{
  ℕ, zero, suc, ◌+◌, ◌-◌, ◌*◌, ◌/◌, ◌^◌, ◌≤◌, ◌<◌, min, ◌≡◌, ◌≢◌, ◌∙◌, ap, refl, true, false, not,
  arith, ltb, leb, ◌==◌, if_yes, if_no, ◌||◌, ◌&&◌, if◌then◌else◌, Bool-cases, inl, inr, ◌↔◌, add64,
  mul64,
}
use kronosos.Pmm.{
  Pmm, page_used, page_index, out_of_range, mark_free, free_page, free_loop, free_pages,
  is_page_free,
}
use kronosos.Pmm.Bitmap.{length-mark_free, page_used-mark_free}
use kronosos.Pmm.Inv.{
  IsValid, IsValid-same, used, address, page_index-address, out_of_range-address, in_range,
  mapped_on,
}

-- Between `s` and `t` the pages from `i` to `e - 1` have been freed, and nothing else has changed.
pub record Freed (s : Pmm) (i e : ℕ) (t : Pmm) : Type 0 where
  pub pages : (j : ℕ) → used t j ≡ (if leb i j && ltb j e then false else used s j)
  pub config : t.config ≡ s.config
  pub valid : IsValid t

-- `pmm_free_page` at the address of a page of the region frees that page alone.
pub free_page_lem :
    {s : Pmm} (i : ℕ)
    → IsValid s
    → i < s.config.max_pages
    → Freed s i (i + 1) (free_page s (address s i))
unfolding free_page
free_page_lem {s} i v h =
    rw
      (
        if_no _ _ (mapped_on v),
        if_no _ _ (out_of_range-address i v.config h),
        page_index-address i v.config,
        if_no _ _ inside,
      )
      (elim (Bool-cases (used s i)) [
        | inl u ↦ rw (if_no _ _ (ap not u)) (record {
          pages = freed_pages;
          config = refl;
          valid = IsValid-same v refl refl (length-mark_free s.static_bitmap i);
        })
        | inr f ↦
            rw (if_yes _ _ (ap not f))
              (record { pages = λ j. ground arith; config = refl; valid = v })
      ])
  where
    inside : leb s.config.max_pages i ≡ false
    inside = ground arith

    freed_pages :
        (j : ℕ)
        → page_used (mark_free s.static_bitmap i) j
          ≡ (if leb i j && ltb j (i + 1) then false else used s j)
    freed_pages j =
        let tracked = v.config.tracked in
        ground (arith, v.size, page_used-mark_free s.static_bitmap i j)

-- At any other address `pmm_free_page` does nothing.
pub free_page_elsewhere :
    {s : Pmm} (page : ℕ)
    → IsValid s
    → ((i : ℕ) → i < s.config.max_pages → page ≢ address s i)
    → free_page s page ≡ s
unfolding free_page
free_page_elsewhere {s} page v other = elim (Bool-cases (out_of_range s.config page)) [
  | inl out ↦ rw (if_no _ _ (mapped_on v), if_yes _ _ out)
  | inr inside ↦
      absurd (other _ (in_range page v.config inside).0 (in_range page v.config inside).1)
]

-- `pmm_is_page_free` says whether its argument is the address of a free page of the region.
pub is_page_free_lem :
    {s : Pmm} (page : ℕ)
    → IsValid s
    → (is_page_free s page ≡ true)
      ↔ ((i : ℕ) × (i < s.config.max_pages) × (page ≡ address s i) × (used s i ≡ false))
unfolding is_page_free
is_page_free_lem {s} page v = (to, from)
  where
    at : (i : ℕ) → i < s.config.max_pages → is_page_free s (address s i) ≡ not (used s i)
    at i h =
        rw
          (
            if_no _ _ (mapped_on v),
            if_no _ _ (out_of_range-address i v.config h),
            page_index-address i v.config,
          )
          (if_no _ _ (let inside : leb s.config.max_pages i ≡ false = ground arith in inside))

    refuse : is_page_free s page ≡ true → out_of_range s.config page ≡ true → ⊥
    refuse free out =
        let no_page : is_page_free s page ≡ false = rw (if_no _ _ (mapped_on v), if_yes _ _ out) in
        cc

    to :
        is_page_free s page ≡ true
        → (i : ℕ) × (i < s.config.max_pages) × (page ≡ address s i) × (used s i ≡ false)
    to free = elim (Bool-cases (out_of_range s.config page)) [
      | inl out ↦ absurd (refuse free out)
      | inr inside ↦
          let (h, e) = in_range page v.config inside in
          (
            page_index s.config page,
            h,
            e,
            let eq : is_page_free s page ≡ not (used s (page_index s.config page)) =
                  ap (is_page_free s) e ∙ at _ h in
                ground arith,
          )
    ]

    from :
        (i : ℕ) × (i < s.config.max_pages) × (page ≡ address s i) × (used s i ≡ false)
        → is_page_free s page ≡ true
    from (i, h, e, f) = rw (e, at i h, f) refl

-- Freeing the pages up to `e`, then those up to `f`.
Freed-trans :
    {s t u : Pmm} {i e f : ℕ} → i ≤ e → e ≤ f → Freed s i e t → Freed t e f u → Freed s i f u
Freed-trans p q a b = record {
  pages = λ j. ground (arith, a.pages j, b.pages j);
  config = b.config ∙ a.config;
  valid = b.valid;
}

free_loop-Freed :
    (s : Pmm) (page k n i b e : ℕ)
    → IsValid s
    → page ≡ address s k
    → k + i ≡ b
    → b + n ≡ e
    → e ≤ s.config.max_pages
    → Freed s b e (free_loop s page n i)
unfolding free_loop
free_loop-Freed s page k zero i b e v at p q h = record {
  pages = λ j. ground arith;
  config = refl;
  valid = v;
}
free_loop-Freed s page k (suc n) i b e v at p q h = rw next (
    Freed-trans (omega arith) (omega arith) one (
      free_loop-Freed (free_page s (address s b)) page k n (i + 1) (b + 1) e one.valid
        (rw one.config at) (omega arith) (omega arith) (rw one.config h)))
  where
    next : add64 page (mul64 i s.config.page_size) ≡ address s b
    next =
        rw v.config.page_size (let fits = v.config.fits in let last = v.config.end in omega arith)

    one : Freed s b (b + 1) (free_page s (address s b))
    one = free_page_lem b v (omega arith)

-- In a valid state, for a page `i` of the region and a `count` for which the end address does not
-- wrap around at 2^64: `pmm_free_pages` frees the `count` pages from `i` on, up to the end of the
-- region at most, and no other.
pub free_pages_lem :
    {s : Pmm} (i count : ℕ)
    → IsValid s
    → i < s.config.max_pages
    → address s i + count * 4096 < 2 ^ 64
    → Freed s i (min (i + count) s.config.max_pages) (free_pages s (address s i) count)
unfolding free_pages
free_pages_lem {s} i count v h wrap = elim (Bool-cases (count == 0)) [
  | inl nothing ↦
      rw (if_yes _ _ (let g : (not s.mapped || (count == 0)) ≡ true = ground arith in g))
        (record { pages = λ j. ground arith; config = refl; valid = v })
  | inr some_pages ↦
      rw
        (if_no _ _ (let g : (not s.mapped || (count == 0)) ≡ false = ground (arith, v.mapped) in g))
        (elim (Bool-cases (count == 1)) [
          | inl one ↦ rw (if_yes _ _ one) (
              let end : min (i + count) s.config.max_pages ≡ i + 1 = ground arith in
              rw end (free_page_lem i v h))
          | inr many ↦
              rw (if_no _ _ many, if_no _ _ (out_of_range-address i v.config h), end_page, clipped)
                (free_loop-Freed s _ i _ 0 i _ v refl (omega arith) (omega arith) (omega arith))
        ])
]
  where
    end_page : add64 (address s i) (mul64 count s.config.page_size) ≡ address s i + count * 4096
    end_page = rw v.config.page_size (omega arith)

    clipped :
        (if ltb s.config.kernel_end (address s i + count * 4096)
          then (s.config.kernel_end - address s i) / s.config.page_size
          else count)
        ≡ min (i + count) s.config.max_pages - i
    clipped = rw v.config.page_size (let last = v.config.end in ground arith)
