-- ===== src/Pmm/Bitmap.antt =====
-- What marking a page does to the bitmap, page by page.
use kronosos.Base.{
  ℕ, zero, suc, ◌+◌, ◌-◌, ◌*◌, ◌/◌, ◌%◌, ◌^◌, ◌≤◌, ◌<◌, ◌≡◌, refl, true, false, List, arith, ◌==◌,
  if◌then◌else◌, ltb, leb, ◌&&◌, length, get_or, set, bit_and, length-set, get_or-set, Bool-cases,
  inl, inr, ◌∙◌,
}
use kronosos.Base.Bits.{
  bit, bit-le-one, bit_and-pow, bit-set, bit-bit_and, bit-pow, two_pow-lt, bit-complement,
}
use kronosos.Pmm.{page_used, mark_used, mark_free, mark_run}
use native.Mathlib.Nat.{one-le-pow}

abbrev byte : List ℕ → ℕ → ℕ
byte bitmap i = get_or bitmap (i / 8) 0

page_used-eq-bit :
    (bitmap : List ℕ) (i : ℕ) → page_used bitmap i ≡ (bit (byte bitmap i) (i % 8) == 1)
unfolding page_used
page_used-eq-bit bitmap i = elim (Bool-cases (bit (byte bitmap i) (i % 8) == 0)) [
  | inl clear ↦
      let zero_bit : bit (byte bitmap i) (i % 8) ≡ 0 = ground arith in
      rw (bit_and-pow, zero_bit) (ground arith)
  | inr on ↦
      let one_bit : bit (byte bitmap i) (i % 8) ≡ 1 =
        ground (arith, bit-le-one (byte bitmap i) (i % 8)) in
      ground (arith, bit_and-pow (byte bitmap i) (i % 8), one-le-pow (i % 8) 2)
]

-- Two page numbers are equal when their byte and bit numbers are.
index_eq : (i j : ℕ) → i / 8 ≡ j / 8 → i % 8 ≡ j % 8 → i ≡ j
index_eq i j p q = omega arith

-- Bit `j` of a byte in which bit `k` has been cleared.
bit-clear :
    (b k j : ℕ)
    → k < 8
    → j < 8
    → bit (bit_and b (2 ^ 8 - 1 - 2 ^ k)) j ≡ (if k == j then 0 else bit b j)
bit-clear b k j hk hj = ground (
  arith,
  bit-bit_and b (2 ^ 8 - 1 - 2 ^ k) j,
  bit-complement 8 (2 ^ k) j hj (two_pow-lt k 8 hk),
  bit-pow k j,
  bit-le-one b j,
)

-- A write to the byte of page `i` that changes its bit to `v` changes page `i` alone.
write_page :
    (bitmap : List ℕ) (i j b v : ℕ)
    → i / 8 < length bitmap
    → ((k : ℕ) → k < 8 → bit b k ≡ (if i % 8 == k then v else bit (byte bitmap i) k))
    → page_used (set bitmap (i / 8) b) j ≡ (if i == j then v == 1 else page_used bitmap j)
write_page bitmap i j b v h changed =
    rw (page_used-eq-bit (set bitmap (i / 8) b) j, page_used-eq-bit bitmap j)
      (elim (Bool-cases (i / 8 == j / 8)) [
        | inl same ↦
            let here : i / 8 ≡ j / 8 = ground arith in
            ground (
              arith,
              get_or-set bitmap (i / 8) (j / 8) b 0 h,
              changed (j % 8) (omega arith),
              index_eq i j here,
            )
        | inr apart ↦ ground (arith, get_or-set bitmap (i / 8) (j / 8) b 0 h)
      ])

pub page_used-mark_used :
    (bitmap : List ℕ) (i j : ℕ)
    → i / 8 < length bitmap
    → page_used (mark_used bitmap i) j ≡ (if i == j then true else page_used bitmap j)
unfolding mark_used
page_used-mark_used bitmap i j h =
    write_page bitmap i j _ 1 h (λ k hk. bit-set (byte bitmap i) (i % 8) k)

pub page_used-mark_free :
    (bitmap : List ℕ) (i j : ℕ)
    → i / 8 < length bitmap
    → page_used (mark_free bitmap i) j ≡ (if i == j then false else page_used bitmap j)
unfolding mark_free
page_used-mark_free bitmap i j h =
    write_page bitmap i j _ 0 h (λ k hk. bit-clear (byte bitmap i) (i % 8) k (omega arith) hk)

pub length-mark_used : (bitmap : List ℕ) (i : ℕ) → length (mark_used bitmap i) ≡ length bitmap
unfolding mark_used
length-mark_used bitmap i = length-set bitmap (i / 8) _

pub length-mark_free : (bitmap : List ℕ) (i : ℕ) → length (mark_free bitmap i) ≡ length bitmap
unfolding mark_free
length-mark_free bitmap i = length-set bitmap (i / 8) _

pub length-mark_run : (bitmap : List ℕ) (n i : ℕ) → length (mark_run bitmap n i) ≡ length bitmap
unfolding mark_run
length-mark_run bitmap zero i = refl
length-mark_run bitmap (suc n) i =
    length-mark_run (mark_used bitmap i) n (i + 1) ∙ length-mark_used bitmap i

-- A run of marks sets its pages and no other.
pub page_used-mark_run :
    (bitmap : List ℕ) (n i j : ℕ)
    → i + n ≤ 8 * length bitmap
    → page_used (mark_run bitmap n i) j
      ≡ (if leb i j && ltb j (i + n) then true else page_used bitmap j)
unfolding mark_run
page_used-mark_run bitmap zero i j h = ground arith
page_used-mark_run bitmap (suc n) i j h = ground (
  arith,
  page_used-mark_run (mark_used bitmap i) n (i + 1) j (omega (arith, length-mark_used bitmap i)),
  page_used-mark_used bitmap i j (omega arith),
)
