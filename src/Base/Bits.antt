-- ===== src/Base/Bits.antt =====
-- The bits of a machine word, and what `&`, `|` and `~` do to each of them.
use Prim.Native.Nat.{
  ℕ, zero, suc, ◌+◌, ◌-◌, ◌*◌, ◌/◌, ◌%◌, ◌^◌, ◌≤◌, ◌<◌, min, max, bit_and, bit_or, digits, bitwise,
  bit_and-bitwise, bit_or-bitwise,
}
use mathlib.Core.Path.{◌≡◌, refl, ap, ◌∙◌}
use native.Mathlib.Nat.{pow-suc, one-le-pow, pow-le-pow_right}
use native.Mathlib.Omega.{arith}
use kronosos.Base.Tests.{◌==◌, if◌then◌else◌}

-- The digit recursion of the native operations needs no more fuel than the first number.
module _ (z : ℕ → ℕ) (f : ℕ → ℕ → ℕ) where
  digits-fuel : (n m a b : ℕ) → a ≤ n → a ≤ m → digits z f n a b ≡ digits z f m a b
  digits-fuel zero zero a b p q = refl
  digits-fuel zero (suc m) zero b p q = refl
  digits-fuel zero (suc m) (suc a) b p q = absurd (omega arith)
  digits-fuel (suc n) zero zero b p q = refl
  digits-fuel (suc n) zero (suc a) b p q = absurd (omega arith)
  digits-fuel (suc n) (suc m) zero b p q = refl
  digits-fuel (suc n) (suc m) (suc a) b p q =
      ap (λ (t : ℕ). t * 2 + f (suc a % 2) (b % 2))
        (digits-fuel n m (suc a / 2) (b / 2) (omega arith) (omega arith))

  bitwise-halve :
      (a b : ℕ)
      → bitwise z f (suc a) b ≡ bitwise z f (suc a / 2) (b / 2) * 2 + f (suc a % 2) (b % 2)
  bitwise-halve a b =
      ap (λ (t : ℕ). t * 2 + f (suc a % 2) (b % 2))
        (digits-fuel a (suc a / 2) (suc a / 2) (b / 2) (omega arith) (omega arith))

pub bit_and-halve : (a b : ℕ) → bit_and a b ≡ bit_and (a / 2) (b / 2) * 2 + min (a % 2) (b % 2)
bit_and-halve zero b = simp bit_and-bitwise (omega arith)
bit_and-halve (suc a) b = simp bit_and-bitwise (bitwise-halve (λ b. 0) min a b)

pub bit_or-halve : (a b : ℕ) → bit_or a b ≡ bit_or (a / 2) (b / 2) * 2 + max (a % 2) (b % 2)
bit_or-halve zero b = simp bit_or-bitwise (omega arith)
bit_or-halve (suc a) b = simp bit_or-bitwise (bitwise-halve (λ b. b) max a b)

pub two_pow-lt : (k n : ℕ) → k < n → 2 ^ k < 2 ^ n
two_pow-lt k n h =
    omega
      (arith, pow-suc 2 k, one-le-pow k 2 (omega arith), pow-le-pow_right {n = 2} (omega arith) h)

-- Bit `j` of `a`, as 0 or 1.
unfoldable pub bit : ℕ → ℕ → ℕ
bit a zero = a % 2
bit a (suc j) = bit (a / 2) j

pub bit-le-one : (a j : ℕ) → bit a j ≤ 1
unfolding bit
bit-le-one a zero = omega arith
bit-le-one a (suc j) = bit-le-one (a / 2) j

pub bit-bit_and : (a b j : ℕ) → bit (bit_and a b) j ≡ min (bit a j) (bit b j)
unfolding bit
bit-bit_and a b zero = omega (arith, bit_and-halve a b)
bit-bit_and a b (suc j) =
    let half : bit_and a b / 2 ≡ bit_and (a / 2) (b / 2) = omega (arith, bit_and-halve a b) in
    rw half (bit-bit_and (a / 2) (b / 2) j)

pub bit-bit_or : (a b j : ℕ) → bit (bit_or a b) j ≡ max (bit a j) (bit b j)
unfolding bit
bit-bit_or a b zero = omega (arith, bit_or-halve a b)
bit-bit_or a b (suc j) =
    let half : bit_or a b / 2 ≡ bit_or (a / 2) (b / 2) = omega (arith, bit_or-halve a b) in
    rw half (bit-bit_or (a / 2) (b / 2) j)

bit-zero : (j : ℕ) → bit 0 j ≡ 0
unfolding bit
bit-zero zero = refl
bit-zero (suc j) = bit-zero j

-- A power of two has one bit.
pub bit-pow : (k j : ℕ) → bit (2 ^ k) j ≡ (if k == j then 1 else 0)
unfolding bit
bit-pow zero zero = refl
bit-pow zero (suc j) = bit-zero j ∙ ground arith
bit-pow (suc k) zero = ground (arith, pow-suc 2 k)
bit-pow (suc k) (suc j) =
    let half : 2 ^ suc k / 2 ≡ 2 ^ k = omega (arith, pow-suc 2 k) in
    rw half (bit-pow k j ∙ ground arith)

-- bit `j` of a number in which bit `k` has been set
pub bit-set : (b k j : ℕ) → bit (bit_or b (2 ^ k)) j ≡ (if k == j then 1 else bit b j)
bit-set b k j = ground (arith, bit-bit_or b (2 ^ k) j, bit-pow k j, bit-le-one b j)

-- The complement within a width.
pub bit-complement : (w a j : ℕ) → j < w → a < 2 ^ w → bit (2 ^ w - 1 - a) j ≡ 1 - bit a j
unfolding bit
bit-complement zero a j h ha = absurd (omega arith)
bit-complement (suc w) a zero h ha = omega (arith, pow-suc 2 w)
bit-complement (suc w) a (suc j) h ha =
    let half : (2 ^ suc w - 1 - a) / 2 ≡ 2 ^ w - 1 - a / 2 = omega (arith, pow-suc 2 w) in
    rw half (bit-complement w (a / 2) j (omega arith) (omega (arith, pow-suc 2 w)))

-- Numbers with the same bits are the same.
pub bit-injective_below :
    (w a b : ℕ) → a < 2 ^ w → b < 2 ^ w → ((j : ℕ) → bit a j ≡ bit b j) → a ≡ b
unfolding bit
bit-injective_below zero a b ha hb same = omega arith
bit-injective_below (suc w) a b ha hb same = omega (
  arith,
  same 0,
  pow-suc 2 w,
  bit-injective_below w (a / 2) (b / 2) (omega (arith, pow-suc 2 w)) (omega (arith, pow-suc 2 w))
      (λ j. same (suc j)),
)

pub zero-bit_and : (b : ℕ) → bit_and 0 b ≡ 0
zero-bit_and b = simp bit_and-bitwise (omega arith)

bit_and-zero_below : (n a : ℕ) → a ≤ n → bit_and a 0 ≡ 0
bit_and-zero_below zero a h = omega (arith, bit_and-halve a 0, ap (λ (t : ℕ). bit_and t 0) empty)
  where
    empty : a / 2 ≡ 0
    empty = omega arith
bit_and-zero_below (suc n) zero h = simp bit_and-bitwise (omega arith)
bit_and-zero_below (suc n) (suc a) h =
    omega (arith, bit_and-halve (suc a) 0, bit_and-zero_below n (suc a / 2) (omega arith))

pub bit_and-zero : (a : ℕ) → bit_and a 0 ≡ 0
bit_and-zero a = bit_and-zero_below a a (omega arith)

-- `a & (1 << j)` is the bit at its place.
pub bit_and-pow : (a j : ℕ) → bit_and a (2 ^ j) ≡ bit a j * 2 ^ j
unfolding bit
bit_and-pow a zero = omega (arith, bit_and-halve a 1, bit_and-zero (a / 2))
bit_and-pow a (suc j) =
    let half : 2 ^ suc j / 2 ≡ 2 ^ j = omega (arith, pow-suc 2 j) in
    omega (
      arith,
      bit_and-halve a (2 ^ suc j),
      pow-suc 2 j,
      ap (λ (t : ℕ). bit_and (a / 2) t) half,
      bit_and-pow (a / 2) j,
      ap (λ (t : ℕ). bit (a / 2) j * t) (pow-suc 2 j),
    )

pub bit_or-lt : (w a b : ℕ) → a < 2 ^ w → b < 2 ^ w → bit_or a b < 2 ^ w
bit_or-lt zero a b ha hb = rw (all_zero a ha, all_zero b hb) (omega arith)
  where
    all_zero : (n : ℕ) → n < 2 ^ 0 → n ≡ 0
    all_zero n h = omega arith
bit_or-lt (suc w) a b ha hb = omega (
  arith,
  bit_or-halve a b,
  pow-suc 2 w,
  bit_or-lt w (a / 2) (b / 2) (omega (arith, pow-suc 2 w)) (omega (arith, pow-suc 2 w)),
)

pub bit_and-lt : (w a b : ℕ) → a < 2 ^ w → bit_and a b < 2 ^ w
bit_and-lt zero a b ha = rw (all_zero a ha) (simp bit_and-bitwise (omega arith))
  where
    all_zero : (n : ℕ) → n < 2 ^ 0 → n ≡ 0
    all_zero n h = omega arith
bit_and-lt (suc w) a b ha = omega (
  arith,
  bit_and-halve a b,
  pow-suc 2 w,
  bit_and-lt w (a / 2) (b / 2) (omega (arith, pow-suc 2 w)),
)
