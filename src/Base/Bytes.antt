-- ===== src/Base/Bytes.antt =====
-- Objects of bytes, as functions from offsets: little-endian numbers in them, and copies.
use Prim.Native.Nat.{ℕ, zero, suc, ◌+◌, ◌-◌, ◌*◌, ◌/◌, ◌%◌, ◌^◌, ◌<◌, ◌≤◌}
use mathlib.Core.Path.{◌≡◌, refl, sym, ap, ◌∙◌}
use mathlib.Core.Bool.{true, false, ◌&&◌}
use native.Mathlib.Omega.{arith}
use native.Mathlib.Nat.{pow-suc}
use kronosos.Base.Tests.{ltb, leb, ◌==◌, if◌then◌else◌, if_yes, if_no}

abbrev pub Bytes : Type 0
Bytes = ℕ → ℕ

-- the little-endian number in `n` bytes
abbrev pub read : Bytes → ℕ → ℕ → ℕ
read m a zero = 0
read m a (suc n) = m a + 256 * read m (a + 1) n

-- The number `v`, cut to `n` bytes, is stored at `a`.
unfoldable pub write : Bytes → ℕ → ℕ → ℕ → Bytes
write m a zero v = m
write m a (suc n) v = write (λ i. if i == a then v % 256 else m i) (a + 1) n (v / 256)

-- `memcpy` of `n` bytes between two objects
unfoldable pub copy : Bytes → ℕ → Bytes → ℕ → ℕ → Bytes
copy dest d src s n = λ i. if leb d i && ltb i (d + n) then src (s + (i - d)) else dest i

-- `memset` of the first `n` bytes to 0
unfoldable pub clear_bytes : Bytes → ℕ → Bytes
clear_bytes m n = λ i. if ltb i n then 0 else m i

pub write-before : (m : Bytes) (a n v i : ℕ) → i < a → write m a n v i ≡ m i
unfolding write
write-before m a zero v i h = refl
write-before m a (suc n) v i h =
    write-before (λ j. if j == a then v % 256 else m j) (a + 1) n (v / 256) i (omega arith)
    ∙ ground arith

pub write-behind : (m : Bytes) (a n v i : ℕ) → a + n ≤ i → write m a n v i ≡ m i
unfolding write
write-behind m a zero v i h = refl
write-behind m a (suc n) v i h =
    write-behind (λ j. if j == a then v % 256 else m j) (a + 1) n (v / 256) i (omega arith)
    ∙ ground arith

-- the bytes that are read decide
pub read-same :
    (m k : Bytes) (a n : ℕ) → ((i : ℕ) → a ≤ i → i < a + n → m i ≡ k i) → read m a n ≡ read k a n
read-same m k a zero h = refl
read-same m k a (suc n) h =
    let e = h a (omega arith) (omega arith) in
    let f = read-same m k (a + 1) n (λ i l u. h i (omega arith) (omega arith)) in omega arith

pub read-write : (m : Bytes) (a n v : ℕ) → v < 256 ^ n → read (write m a n v) a n ≡ v
unfolding write
read-write m a zero v h = omega arith
read-write m a (suc n) v h =
    let k : Bytes = λ j. if j == a then v % 256 else m j in
    let first = write-before k (a + 1) n (v / 256) a (omega arith) in
    let here : k a ≡ v % 256 = ground arith in
    let rest = read-write k (a + 1) n (v / 256) (omega (arith, pow-suc 256 n)) in
    omega (arith, first, here, rest)

pub read-write_before :
    (m : Bytes) (a n v b k : ℕ) → b + k ≤ a → read (write m a n v) b k ≡ read m b k
read-write_before m a n v b k h =
    read-same (write m a n v) m b k (λ i l u. write-before m a n v i (omega arith))

pub read-write_behind :
    (m : Bytes) (a n v b k : ℕ) → a + n ≤ b → read (write m a n v) b k ≡ read m b k
read-write_behind m a n v b k h =
    read-same (write m a n v) m b k (λ i l u. write-behind m a n v i (omega arith))

pub copy-inside :
    (dest : Bytes) (d : ℕ) (src : Bytes) (s n i : ℕ)
    → i < n
    → copy dest d src s n (d + i) ≡ src (s + i)
unfolding copy
copy-inside dest d src s n i h =
    let e : d + i - d ≡ i = omega arith in
    let t : (leb d (d + i) && ltb (d + i) (d + n)) ≡ true = ground arith in
    if_yes _ _ t ∙ ap (λ (j : ℕ). src (s + j)) e

pub copy-before :
    (dest : Bytes) (d : ℕ) (src : Bytes) (s n i : ℕ) → i < d → copy dest d src s n i ≡ dest i
unfolding copy
copy-before dest d src s n i h =
    let t : (leb d i && ltb i (d + n)) ≡ false = ground arith in if_no _ _ t

pub copy-behind :
    (dest : Bytes) (d : ℕ) (src : Bytes) (s n i : ℕ) → d + n ≤ i → copy dest d src s n i ≡ dest i
unfolding copy
copy-behind dest d src s n i h =
    let t : (leb d i && ltb i (d + n)) ≡ false = ground arith in if_no _ _ t

-- between the starts of two objects
pub copy-start : (dest src : Bytes) (n i : ℕ) → i < n → copy dest 0 src 0 n i ≡ src i
copy-start dest src n i h =
    let e : 0 + i ≡ i = omega arith in
    ap (copy dest 0 src 0 n) (sym e) ∙ copy-inside dest 0 src 0 n i h ∙ ap src e
