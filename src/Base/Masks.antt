-- ===== src/Base/Masks.antt =====
-- Masks and disjoint fields of a word, as arithmetic.
use native.Mathlib.Nat.{
  pow-suc, one-le-pow, div-div-eq-div-mul, mod-lt, div-add-mod, mul-add-mod_self_left, mod-eq_of_lt,
}
use Prim.Native.Nat.{
  ℕ, zero, suc, ◌+◌, ◌-◌, ◌*◌, ◌/◌, ◌%◌, ◌^◌, ◌≤◌, ◌<◌, bit_and, bit_or, bit_or-bitwise,
}
use mathlib.Core.Path.{◌≡◌, ap, ◌∙◌}
use native.Mathlib.Omega.{arith}
use kronosos.Base.Bits.{bit_and-halve, bit_or-halve, bit_and-zero}

double : (q k : ℕ) → q * 2 ^ suc k ≡ q * 2 ^ k * 2
double q k = omega (arith, ap (λ (t : ℕ). q * t) (pow-suc 2 k))

bit_or-zero_below : (n a : ℕ) → a ≤ n → bit_or a 0 ≡ a
bit_or-zero_below n zero h = simp bit_or-bitwise (omega arith)
bit_or-zero_below zero (suc a) h = absurd (omega arith)
bit_or-zero_below (suc n) (suc a) h =
    omega (arith, bit_or-halve (suc a) 0, bit_or-zero_below n (suc a / 2) (omega arith))

pub bit_or-zero : (a : ℕ) → bit_or a 0 ≡ a
bit_or-zero a = bit_or-zero_below a a (omega arith)

mod-double : (a m : ℕ) → 0 < m → a % (m * 2) ≡ a / 2 % m * 2 + a % 2
mod-double a m h =
    let r = a / 2 % m * 2 + a % 2 in
    let small : r < m * 2 = omega (arith, mod-lt (a / 2) h) in
    let split : a ≡ m * 2 * (a / 2 / m) + r = omega (arith, div-add-mod (a / 2) m) in
    ap (λ (t : ℕ). t % (m * 2)) split
    ∙ mul-add-mod_self_left (m * 2) (a / 2 / m) r
    ∙ mod-eq_of_lt small

-- A mask of `k` low ones is the remainder by `2 ^ k`.
pub bit_and-low : (k a : ℕ) → bit_and a (2 ^ k - 1) ≡ a % 2 ^ k
bit_and-low zero a = omega (arith, bit_and-zero a)
bit_and-low (suc k) a =
    let half : (2 ^ suc k - 1) / 2 ≡ 2 ^ k - 1 = omega (arith, pow-suc 2 k, one-le-pow k 2) in
    omega (
      arith,
      bit_and-halve a (2 ^ suc k - 1),
      ap (λ (t : ℕ). bit_and (a / 2) t) half,
      bit_and-low k (a / 2),
      pow-suc 2 k,
      one-le-pow k 2,
      mod-double a (2 ^ k) (one-le-pow k 2 (omega arith)),
      ap (λ (t : ℕ). a % t) (pow-suc 2 k),
    )

-- A mask whose `k` low bits are zero.
pub bit_and-high : (k a b : ℕ) → bit_and a (b * 2 ^ k) ≡ bit_and (a / 2 ^ k) b * 2 ^ k
bit_and-high zero a b =
    let e : b * 2 ^ 0 ≡ b = omega arith in
    let f : a / 2 ^ 0 ≡ a = omega arith in rw (e, f) (omega arith)
bit_and-high (suc k) a b =
    let half : b * 2 ^ suc k / 2 ≡ b * 2 ^ k = omega (arith, double b k) in
    let quarter : a / 2 / 2 ^ k ≡ a / 2 ^ suc k =
      div-div-eq-div-mul a 2 (2 ^ k) ∙ ap (λ (t : ℕ). a / t) (omega (arith, pow-suc 2 k)) in
    omega (
      arith,
      bit_and-halve a (b * 2 ^ suc k),
      ap (λ (t : ℕ). bit_and (a / 2) t) half,
      bit_and-high k (a / 2) b,
      double b k,
      ap (λ (t : ℕ). bit_and t b * 2 ^ k) quarter,
      double (bit_and (a / 2 ^ suc k) b) k,
    )

-- `|` of a number whose `k` low bits are zero and one below `2 ^ k` is their sum.
pub bit_or-fields : (k q r : ℕ) → r < 2 ^ k → bit_or (q * 2 ^ k) r ≡ q * 2 ^ k + r
bit_or-fields zero q r h =
    let none_left : r ≡ 0 = omega arith in
    let e : q * 2 ^ 0 ≡ q = omega arith in rw (none_left, e, bit_or-zero q) (omega arith)
bit_or-fields (suc k) q r h = omega (
  arith,
  bit_or-halve (q * 2 ^ suc k) r,
  double q k,
  bit_or-fields k q (r / 2) (omega (arith, pow-suc 2 k)),
  ap (λ (t : ℕ). bit_or t (r / 2))
      (let e : q * 2 ^ suc k / 2 ≡ q * 2 ^ k = omega (arith, double q k) in e),
)
