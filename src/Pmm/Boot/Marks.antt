-- ===== src/Pmm/Boot/Marks.antt =====
-- The marking loops of `pmm_init`: which pages they mark, and that they end.
use kronosos.Base.{
  ℕ, zero, suc, ◌+◌, ◌-◌, ◌*◌, ◌/◌, ◌%◌, ◌^◌, ◌≤◌, ◌<◌, ◌≡◌, ◌∙◌, sym, Bool, true, false, not,
  arith, ltb, leb, ◌==◌, if_yes, if_no, ◌||◌, ◌&&◌, if◌then◌else◌, Bool-cases, inl, inr, List, [],
  ◌∷◌, add64, sub64, length,
}
use kronosos.Pmm.{Config, page_used, mark_used}
use kronosos.Pmm.Bitmap.{length-mark_used, page_used-mark_used}
use kronosos.Pmm.Inv.{ConfigIsValid}
use kronosos.Pmm.Boot.{Entry, Outcome, done, and_then, mark_region, mark_entry, mark_entries}

-- The loops end with a bitmap in which page `j` is used where `f` says so.
pub data Marked (f : ℕ → Bool) : Outcome (List ℕ) → Type 0 where
  marked : {b : List ℕ} → length b ≡ 8192 → ((j : ℕ) → page_used b j ≡ f j) → Marked f (done b)

Marked-ext :
    {f g : ℕ → Bool} {r : Outcome (List ℕ)} → Marked f r → ((j : ℕ) → g j ≡ f j) → Marked g r
Marked-ext (marked len pages) same = marked len (λ j. pages j ∙ sym (same j))

-- From page `a` on, the loop marks each page whose address lies below `region_end`.
mark_region-Marked :
    {c : Config} (n : ℕ) (bitmap : List ℕ) (a region_end : ℕ)
    → ConfigIsValid c
    → length bitmap ≡ 8192
    → region_end ≤ c.kernel_end
    → c.max_pages ≤ a + n
    → Marked
        (λ j.
          if leb a j && ltb (c.kernel_start + j * 4096) region_end
          then true
          else page_used bitmap j)
        (mark_region n c bitmap (c.kernel_start + a * 4096) region_end)
unfolding mark_region
mark_region-Marked {c} zero bitmap a region_end v len fit enough =
    rw (if_no _ _ past) (marked len (λ j. ground arith))
  where
    past : ltb (c.kernel_start + a * 4096) region_end ≡ false
    past = let last = v.end in ground arith
mark_region-Marked {c} (suc n) bitmap a region_end v len fit enough =
    elim (Bool-cases (ltb (c.kernel_start + a * 4096) region_end)) [
      | inl go ↦
          let last = v.end in
          let tracked = v.tracked in
          let fits = v.fits in
          let low : a < c.max_pages = ground arith in
          let inside : ltb a c.max_pages ≡ true = ground arith in
          rw (if_yes _ _ go, index low, if_yes _ _ inside, next (omega arith))
            (Marked-ext
              (mark_region-Marked n (mark_used bitmap a) (a + 1) region_end v
                (length-mark_used bitmap a ∙ len) fit (omega arith))
              (λ j. ground (arith, page_used-mark_used bitmap a j (omega arith))))
      | inr stop ↦ rw (if_no _ _ stop) (marked len (λ j. ground arith))
    ]
  where
    index : a < c.max_pages → sub64 (c.kernel_start + a * 4096) c.kernel_start / c.page_size ≡ a
    index low =
        let tracked = v.tracked in
        let fits = v.fits in let last = v.end in rw v.page_size (omega arith)

    next :
        c.kernel_start + (a + 1) * 4096 < 2 ^ 64
        → add64 (c.kernel_start + a * 4096) c.page_size ≡ c.kernel_start + (a + 1) * 4096
    next h = rw v.page_size (omega arith)

-- Page `j` of the region overlaps the entry, which is not usable.
abbrev pub covers : ℕ → Config → Entry → ℕ → Bool
covers usable c e j =
    not (e.kind == usable)
    && (ltb e.base (c.kernel_start + j * 4096 + 4096)
        && ltb (c.kernel_start + j * 4096) (e.base + e.length))

-- An entry that starts on a page boundary, and ends inside the address space.
pub record EntryIsAligned (e : Entry) : Type 0 where
  pub aligned : e.base % 4096 ≡ 0
  pub fits : e.base + e.length < 2 ^ 64

mark_entry-Marked :
    {c : Config} (usable : ℕ) (e : Entry) (bitmap : List ℕ)
    → ConfigIsValid c
    → EntryIsAligned e
    → length bitmap ≡ 8192
    → Marked
        (λ j. if ltb j c.max_pages && covers usable c e j then true else page_used bitmap j)
        (mark_entry usable c e bitmap)
unfolding mark_entry
mark_entry-Marked {c} usable e bitmap v w len = elim (Bool-cases (e.kind == usable)) [
  | inl free ↦ rw (if_yes _ _ free) (marked len (λ j. ground arith))
  | inr taken ↦
      rw (if_no _ _ taken, e_end)
        (elim (Bool-cases (leb c.kernel_end e.base || leb (e.base + e.length) c.kernel_start)) [
          | inl outside ↦
              rw (if_yes _ _ outside) (marked len (λ j. let last = v.end in ground arith))
          | inr overlap ↦
              rw (if_no _ _ overlap, first overlap)
                (Marked-ext
                  (mark_region-Marked c.max_pages bitmap a _ v len (ground arith) (omega arith))
                  (same taken overlap))
        ])
]
  where
    e_end : add64 e.base e.length ≡ e.base + e.length
    e_end = let fits = w.fits in omega arith

    a : ℕ
    a = (e.base - c.kernel_start) / 4096

    first :
        (leb c.kernel_end e.base || leb (e.base + e.length) c.kernel_start) ≡ false
        → (if ltb e.base c.kernel_start then c.kernel_start else e.base) ≡ c.kernel_start + a * 4096
    first h = let p = w.aligned in let q = v.aligned in ground arith

    same :
        (e.kind == usable) ≡ false
        → (leb c.kernel_end e.base || leb (e.base + e.length) c.kernel_start) ≡ false
        → (j : ℕ)
        → (if ltb j c.max_pages && covers usable c e j then true else page_used bitmap j) ≡ (
            if leb a j
              && ltb
                  (c.kernel_start + j * 4096)
                  (if ltb c.kernel_end (e.base + e.length) then c.kernel_end else e.base + e.length)
            then true
            else page_used bitmap j)
    same taken h j = let p = w.aligned in let q = v.aligned in let last = v.end in ground arith

and_then-Marked :
    {f g : ℕ → Bool} {r : Outcome (List ℕ)} {k : List ℕ → Outcome (List ℕ)}
    → Marked f r
    → ((b : List ℕ) → length b ≡ 8192 → ((j : ℕ) → page_used b j ≡ f j) → Marked g (k b))
    → Marked g (and_then r k)
and_then-Marked (marked len pages) next = next _ len pages

-- The loop over the memory map marks the pages of the region that some entry covers.
pub covered : ℕ → Config → List Entry → ℕ → Bool
covered usable c [] j = false
covered usable c (e ∷ es) j = covers usable c e j || covered usable c es j

abbrev pub AllAligned : List Entry → Type 0
AllAligned [] = Unit
AllAligned (e ∷ es) = EntryIsAligned e × AllAligned es

pub mark_entries-Marked :
    {c : Config} (usable : ℕ) (es : List Entry) (bitmap : List ℕ)
    → ConfigIsValid c
    → AllAligned es
    → length bitmap ≡ 8192
    → Marked
        (λ j. if ltb j c.max_pages && covered usable c es j then true else page_used bitmap j)
        (mark_entries usable c es bitmap)
unfolding mark_entries covered
mark_entries-Marked usable [] bitmap v w len = marked len (λ j. ground arith)
mark_entries-Marked {c} usable (e ∷ es) bitmap v (w, ws) len =
    and_then-Marked (mark_entry-Marked usable e bitmap v w len) (λ b len' pages.
      Marked-ext (mark_entries-Marked usable es b v ws len') (λ j. ground (arith, pages j)))
