-- ===== src/Strings/Compare.antt =====
-- `strlen`, `memcmp` and `strcmp`.
use kronosos.Base.{
  ℕ, zero, suc, ◌+◌, ◌≤◌, ◌<◌, ◌≡◌, ◌≢◌, ◌∙◌, ap, true, false, some, ltb, ◌==◌, ==→eq, if_yes,
  if_no, Bool-cases, inl, inr, arith,
}
use mathlib.Core.Path.{sym, subst}
use mathlib.Core.Option.{map}
use kronosos.Strings.{Memory, Order, less, same, more, compare_from, memcmp, strlen}

-- A string of length `l` stands at `s`.
pub record IsString (m : Memory) (s l : ℕ) : Type 0 where
  pub inner : (i : ℕ) → i < l → m (s + i) ≢ 0
  pub end : m (s + l) ≡ 0

pub next-IsString : {m : Memory} {s l : ℕ} → IsString m s (suc l) → IsString m (s + 1) l
next-IsString {m} {s} {l} v = record {
  inner = λ i h. subst (λ (a : ℕ). m a ≢ 0) (omega arith) (v.inner (suc i) (omega arith));
  end = ap m (omega arith) ∙ v.end;
}

-- `strlen` finds the length of a string with any fuel above it.
pub strlen_lem :
    (fuel : ℕ) {m : Memory} {s l : ℕ} → IsString m s l → l < fuel → strlen fuel m s ≡ some l
unfolding strlen
strlen_lem zero v h = absurd (omega arith)
strlen_lem (suc fuel) {m} {s} {l = zero} v h = if_yes _ _ ended
  where
    ended : (m s == 0) ≡ true
    ended =
        let z = v.end in
        let at : s + 0 ≡ s = omega arith in let zero_byte = ap m (sym at) ∙ z in ground arith
strlen_lem (suc fuel) {m} {s} {l = suc l} v h =
    if_no _ _ going ∙ ap (map suc) (strlen_lem fuel (next-IsString v) (omega arith))
  where
    going : (m s == 0) ≡ false
    going =
        let at : s + 0 ≡ s = omega arith in
        let first : m s ≢ 0 = subst (λ (a : ℕ). m a ≢ 0) at (v.inner 0 (omega arith)) in
        ground arith

-- The first bytes from offset `i` on in which two places differ, before offset `n`, decide.
pub data Decided (m : Memory) (s1 s2 i n : ℕ) : Order → Type 0 where
  alike : ((j : ℕ) → i ≤ j → j < n → m (s1 + j) ≡ m (s2 + j)) → Decided m s1 s2 i n same
  below :
      (k : ℕ)
      → i ≤ k
      → k < n
      → ((j : ℕ) → i ≤ j → j < k → m (s1 + j) ≡ m (s2 + j))
      → m (s1 + k) < m (s2 + k)
      → Decided m s1 s2 i n less
  above :
      (k : ℕ)
      → i ≤ k
      → k < n
      → ((j : ℕ) → i ≤ j → j < k → m (s1 + j) ≡ m (s2 + j))
      → m (s2 + k) < m (s1 + k)
      → Decided m s1 s2 i n more

module _ (m : Memory) (s1 s2 : ℕ) where
  first_too :
      {i k : ℕ}
      → m (s1 + i) ≡ m (s2 + i)
      → ((j : ℕ) → i + 1 ≤ j → j < k → m (s1 + j) ≡ m (s2 + j))
      → (j : ℕ) → i ≤ j
      → j < k
      → m (s1 + j) ≡ m (s2 + j)
  first_too {i} eq rest j low high = elim (Bool-cases (j == i)) [
    | inl here ↦
        let at = ==→eq here in
        ap (λ (a : ℕ). m (s1 + a)) at ∙ eq ∙ ap (λ (a : ℕ). m (s2 + a)) (sym at)
    | inr later ↦ rest j (ground arith) high
  ]

  earlier :
      {i n : ℕ} {r : Order}
      → m (s1 + i) ≡ m (s2 + i)
      → Decided m s1 s2 (i + 1) n r
      → Decided m s1 s2 i n r
  earlier eq (alike rest) = alike (first_too eq rest)
  earlier eq (below k low high rest lt) = below k (omega arith) high (first_too eq rest) lt
  earlier eq (above k low high rest lt) = above k (omega arith) high (first_too eq rest) lt

  nothing_before : {i : ℕ} (j : ℕ) → i ≤ j → j < i → m (s1 + j) ≡ m (s2 + j)
  nothing_before j low high = absurd (omega arith)

  compare_from-Decided : (n i : ℕ) → Decided m s1 s2 i (i + n) (compare_from m s1 s2 n i)
  unfolding compare_from
  compare_from-Decided zero i = alike (λ j low high. absurd (omega arith))
  compare_from-Decided (suc n) i = elim (Bool-cases (m (s1 + i) == m (s2 + i))) [
    | inl eq ↦ rw eq (
        earlier (==→eq eq) (
          subst (λ (e : ℕ). Decided m s1 s2 (i + 1) e (compare_from m s1 s2 n (i + 1)))
            (omega arith) (compare_from-Decided n (i + 1))))
    | inr ne ↦ rw ne (elim (Bool-cases (ltb (m (s1 + i)) (m (s2 + i)))) [
      | inl lt ↦
          rw (if_yes _ _ lt) (below i (omega arith) (omega arith) nothing_before (ground arith))
      | inr ge ↦
          rw (if_no _ _ ge) (above i (omega arith) (omega arith) nothing_before (ground arith))
    ])
  ]

-- `memcmp` is 0 when the `n` bytes agree, and otherwise has the sign of the first difference.
pub memcmp-Decided : (m : Memory) (s1 s2 n : ℕ) → Decided m s1 s2 0 n (memcmp m s1 s2 n)
unfolding memcmp
memcmp-Decided m s1 s2 n =
    subst (λ (e : ℕ). Decided m s1 s2 0 e (compare_from m s1 s2 n 0)) (omega arith)
      (compare_from-Decided m s1 s2 n 0)
