-- ===== src/Ext2/Bitmaps/Search.antt =====
-- kernel/src/fs/ext2.c: the bit that `find_free_bit` gives, and the bitmap with a bit set.
use kronosos.Base.{
  ℕ, zero, suc, ◌+◌, ◌-◌, ◌*◌, ◌/◌, ◌%◌, ◌^◌, ◌≤◌, ◌<◌, ◌≡◌, ◌∙◌, refl, sym, ap, Bool, false,
  Option, none, some, ltb, ◌==◌, ==→eq, if◌then◌else◌, if_yes, if_no, all_below, all_below-apply,
  if_split, Bool-cases, inl, inr, arith, bit_and, bit_or,
}
use mathlib.Core.Path.{subst}
use native.Mathlib.Nat.{one-le-pow}
use kronosos.Base.Bits.{bit, bit-le-one, bit_and-pow, bit-set, bit_or-lt, two_pow-lt}
use kronosos.Base.Bytes.{Bytes}
use kronosos.Ext2.Bitmaps.{find_zero, find_free_from, find_free_bit, mark_bit}

-- bit `k` of a bitmap
abbrev pub bit_at : Bytes → ℕ → ℕ
bit_at bitmap k = bit (bitmap (k / 8)) (k % 8)

-- A test of a bit by its mask.
mask-bit : (byte j : ℕ) → (bit_and byte (2 ^ j) == 0) ≡ (bit byte j == 0)
mask-bit byte j = elim (Bool-cases (bit byte j == 0)) [
  | inl zeroed ↦
      let z : bit byte j ≡ 0 = ==→eq zeroed in
      let m : bit_and byte (2 ^ j) ≡ 0 =
        bit_and-pow byte j ∙ ap (λ (b : ℕ). b * 2 ^ j) z ∙ omega arith in
      ground arith
  | inr marked ↦
      let o : bit byte j ≡ 1 = ground (arith, bit-le-one byte j) in
      let m : bit_and byte (2 ^ j) ≡ 2 ^ j =
        bit_and-pow byte j ∙ ap (λ (b : ℕ). b * 2 ^ j) o ∙ omega arith in
      ground (arith, one-le-pow j 2)
]

-- Of the values from `a` to below `b`, those before the result are 1 and that of the result is 0.
unfoldable pub FirstZero : (ℕ → ℕ) → ℕ → ℕ → Option ℕ → Type 0
FirstZero f a b none = (m : ℕ) → a ≤ m → m < b → f m ≡ 1
FirstZero f a b (some k) = (a ≤ k) × (k < b) × (f k ≡ 0) × ((m : ℕ) → a ≤ m → m < k → f m ≡ 1)

-- before the start, only ones
longer :
    (f : ℕ → ℕ) (a c b : ℕ) (o : Option ℕ)
    → a ≤ c
    → ((m : ℕ) → a ≤ m → m < c → f m ≡ 1)
    → FirstZero f c b o
    → FirstZero f a b o
unfolding FirstZero
longer f a c b none le ones h = λ m l u. elim (Bool-cases (ltb m c)) [
  | inl before ↦ ones m l (ground arith)
  | inr behind ↦ h m (ground arith) u
]
longer f a c b (some k) le ones (l, u, z, h) = (
  omega arith,
  u,
  z,
  λ m x y. elim (Bool-cases (ltb m c)) [
    | inl before ↦ ones m x (ground arith)
    | inr behind ↦ h m (ground arith) y
  ],
)

find_zero-FirstZero : (byte n j : ℕ) → FirstZero (bit byte) j (j + n) (find_zero byte n j)
unfolding find_zero FirstZero
find_zero-FirstZero byte zero j = λ m l u. absurd (omega arith)
find_zero-FirstZero byte (suc n) j =
    let e : j + 1 + n ≡ j + suc n = omega arith in
    if_split (FirstZero (bit byte) j (j + suc n)) (bit_and byte (2 ^ j) == 0) (some j)
      (find_zero byte n (j + 1))
      (λ hit.
        (omega arith, omega arith, ground (arith, mask-bit byte j), λ m l u. absurd (omega arith)))
      (λ missed.
        let one : bit byte j ≡ 1 = ground (arith, mask-bit byte j, bit-le-one byte j) in
        longer (bit byte) j (j + 1) (j + suc n) (find_zero byte n (j + 1)) (omega arith)
          (λ m l u. let at : j ≡ m = omega arith in ap (bit byte) (sym at) ∙ one)
          (subst (λ (b : ℕ). FirstZero (bit byte) (j + 1) b (find_zero byte n (j + 1))) e
            (find_zero-FirstZero byte n (j + 1))))

full_byte : (j : ℕ) → j < 8 → bit 0xff j ≡ 1
unfolding all_below bit
full_byte j h = ==→eq (all_below-apply (λ i. bit 0xff i == 1) 8 j refl h)

-- bit `m` of the bitmap is one of byte `i`.
bit_at-byte :
    (bitmap : Bytes) (i m : ℕ)
    → i * 8 ≤ m
    → m < i * 8 + 8
    → bit_at bitmap m ≡ bit (bitmap i) (m - i * 8)
bit_at-byte bitmap i m l u =
    let byte : m / 8 ≡ i = omega arith in
    let index : m % 8 ≡ m - i * 8 = omega arith in
    ap (λ (k : ℕ). bit (bitmap k) (m % 8)) byte ∙ ap (bit (bitmap i)) index

find_free_from-FirstZero :
    (bitmap : Bytes) (n i : ℕ)
    → FirstZero (bit_at bitmap) (i * 8) (i * 8 + n * 8) (find_free_from bitmap n i)
unfolding find_free_from FirstZero
find_free_from-FirstZero bitmap zero i = λ m l u. absurd (omega arith)
find_free_from-FirstZero bitmap (suc n) i =
    let rest = find_free_from bitmap n (i + 1) in
    let a : (i + 1) * 8 ≡ i * 8 + 8 = omega arith in
    let b : (i + 1) * 8 + n * 8 ≡ i * 8 + suc n * 8 = omega arith in
    let ih : FirstZero (bit_at bitmap) (i * 8 + 8) (i * 8 + suc n * 8) rest =
      subst (λ (x : ℕ). FirstZero (bit_at bitmap) x (i * 8 + suc n * 8) rest) a
        (subst (λ (x : ℕ). FirstZero (bit_at bitmap) ((i + 1) * 8) x rest) b
          (find_free_from-FirstZero bitmap n (i + 1))) in
    let skip : ((j : ℕ) → j < 8 → bit (bitmap i) j ≡ 1)
        → FirstZero (bit_at bitmap) (i * 8) (i * 8 + suc n * 8) rest =
      λ ones.
        longer (bit_at bitmap) (i * 8) (i * 8 + 8) (i * 8 + suc n * 8) rest (omega arith)
          (λ m l u. bit_at-byte bitmap i m l u ∙ ones (m - i * 8) (omega arith)) ih in
    if_split (FirstZero (bit_at bitmap) (i * 8) (i * 8 + suc n * 8)) (bitmap i == 0xff) rest _
      (λ full. skip (λ j h. ap (λ (x : ℕ). bit x j) (==→eq full) ∙ full_byte j h))
      (λ partial. in_byte (find_zero (bitmap i) 8 0) rest skip (find_zero-FirstZero (bitmap i) 8 0))
  where
    in_byte :
        (o rest : Option ℕ)
        → (((j : ℕ) → j < 8 → bit (bitmap i) j ≡ 1)
            → FirstZero (bit_at bitmap) (i * 8) (i * 8 + suc n * 8) rest)
        → FirstZero (bit (bitmap i)) 0 8 o
        → FirstZero
            (bit_at bitmap)
            (i * 8)
            (i * 8 + suc n * 8)
            (elim o as (λ x. Option ℕ) [ none ↦ rest | some j ↦ some (i * 8 + j) ])
    in_byte none rest skip h = skip (λ j l. h j (omega arith) l)
    in_byte (some j) rest skip (l, u, z, h) =
        let index : i * 8 + j - i * 8 ≡ j = omega arith in
        (
          omega arith,
          omega arith,
          bit_at-byte bitmap i (i * 8 + j) (omega arith) (omega arith)
              ∙ ap (bit (bitmap i)) index
              ∙ z,
          λ m a b.
              bit_at-byte bitmap i m a (omega arith) ∙ h (m - i * 8) (omega arith) (omega arith),
        )

-- The bit that find_free_bit gives is clear and within the bitmap, and all bits before it are set;
-- when it gives none, all bits of the bitmap are set.
pub find_free_bit-FirstZero :
    (bitmap : Bytes) (size : ℕ) → FirstZero (bit_at bitmap) 0 (size * 8) (find_free_bit bitmap size)
unfolding find_free_bit
find_free_bit-FirstZero bitmap size =
    let e : 0 * 8 + size * 8 ≡ size * 8 = omega arith in
    subst (λ (x : ℕ). FirstZero (bit_at bitmap) 0 x (find_free_from bitmap size 0)) e
      (find_free_from-FirstZero bitmap size 0)

-- marking a bit sets it, and leaves the others
pub bit_at-mark_bit :
    (bitmap : Bytes) (k m : ℕ)
    → ((i : ℕ) → bitmap i < 2 ^ 8)
    → bit_at (mark_bit bitmap k) m ≡ (if k == m then 1 else bit_at bitmap m)
unfolding mark_bit
bit_at-mark_bit bitmap k m small = elim (Bool-cases (m / 8 == k / 8)) [
  | inr elsewhere ↦
      let no : (k == m) ≡ false = ground arith in
      ap (λ (b : ℕ). bit b (m % 8)) (if_no _ _ elsewhere) ∙ sym (if_no _ _ no)
  | inl here ↦
      let wide =
        bit_or-lt 8 (bitmap (m / 8)) (2 ^ (k % 8)) (small (m / 8))
          (two_pow-lt (k % 8) 8 (omega arith)) in
      let byte : bit_or (bitmap (m / 8)) (2 ^ (k % 8)) % 2 ^ 8
          ≡ bit_or (bitmap (m / 8)) (2 ^ (k % 8)) =
        omega arith in
      let same : (k % 8 == m % 8) ≡ (k == m) = ground arith in
      ap (λ (b : ℕ). bit b (m % 8)) (if_yes _ _ here ∙ byte)
      ∙ bit-set (bitmap (m / 8)) (k % 8) (m % 8)
      ∙ ap (λ (b : Bool). if b then 1 else bit_at bitmap m) same
]

-- In a bitmap of bytes below 2^8, when the bit that find_free_bit gave has been marked, the next one that it gives is a higher one.
pub find_free_bit-mark_bit :
    (bitmap : Bytes) (size k l : ℕ)
    → ((i : ℕ) → bitmap i < 2 ^ 8)
    → find_free_bit bitmap size ≡ some k
    → find_free_bit (mark_bit bitmap k) size ≡ some l
    → k < l
unfolding FirstZero
find_free_bit-mark_bit bitmap size k l small e f =
    let (_, _, _, ones) =
      subst (FirstZero (bit_at bitmap) 0 (size * 8)) e (find_free_bit-FirstZero bitmap size) in
    let marked = mark_bit bitmap k in
    let (_, _, clear, _) =
      subst (FirstZero (bit_at marked) 0 (size * 8)) f (find_free_bit-FirstZero marked size) in
    let now = bit_at-mark_bit bitmap k l small in
    elim (Bool-cases (k == l)) [
      | inl same ↦ absurd (let one = if_yes 1 (bit_at bitmap l) same in omega arith)
      | inr other ↦
          let kept = if_no 1 (bit_at bitmap l) other in
          elim (Bool-cases (ltb k l)) [
            | inl less ↦ ground arith
            | inr more ↦ absurd (let one = ones l (omega arith) (ground arith) in omega arith)
          ]
    ]
