-- ===== src/Strings/Strcmp.antt =====
-- `strcmp` on strings.
use kronosos.Base.{
  ℕ, zero, suc, ◌+◌, ◌≤◌, ◌<◌, ◌≡◌, ◌∙◌, refl, ap, true, false, not, ◌&&◌, Option, some, ltb, ◌==◌,
  ==→eq, if_yes, if_no, Bool-cases, inl, inr, arith,
}
use mathlib.Core.Path.{sym}
use kronosos.Strings.{Memory, Order, strcmp, byte_order}
use kronosos.Strings.Compare.{IsString, next-IsString, Decided, alike, below, above}

-- The loop has enough fuel, and its answer is decided by the first difference up to offset `l`.
pub data Answer (m : Memory) (s1 s2 l : ℕ) : Option Order → Type 0 where
  answer : {r : Order} → Decided m s1 s2 0 (suc l) r → Answer m s1 s2 l (some r)

module _ (m : Memory) (s1 s2 : ℕ) where
  shifted :
      (eq : m s1 ≡ m s2) {k : ℕ}
      → ((j : ℕ) → 0 ≤ j → j < k → m (s1 + 1 + j) ≡ m (s2 + 1 + j))
      → (j : ℕ) → 0 ≤ j
      → j < suc k
      → m (s1 + j) ≡ m (s2 + j)
  shifted eq rest zero low high = ap m (omega arith) ∙ eq ∙ ap m (omega arith)
  shifted eq rest (suc j) low high =
      ap m (omega arith) ∙ rest j (omega arith) (omega arith) ∙ ap m (omega arith)

  at_next : (s j : ℕ) → m (s + 1 + j) ≡ m (s + suc j)
  at_next s j = ap m (omega arith)

  one_more :
      {l : ℕ} {o : Option Order}
      → m s1 ≡ m s2
      → Answer m (s1 + 1) (s2 + 1) l o
      → Answer m s1 s2 (suc l) o
  one_more eq (answer (alike rest)) = answer (alike (shifted eq rest))
  one_more eq (answer (below k low high rest lt)) = answer (
      below (suc k) (omega arith) (omega arith) (shifted eq rest)
        (omega (arith, at_next s1 k, at_next s2 k)))
  one_more eq (answer (above k low high rest lt)) = answer (
      above (suc k) (omega arith) (omega arith) (shifted eq rest)
        (omega (arith, at_next s1 k, at_next s2 k)))

  at_start : (s : ℕ) → m s ≡ m (s + 0)
  at_start s = ap m (omega arith)

  none_before : (j : ℕ) → 0 ≤ j → j < 0 → m (s1 + j) ≡ m (s2 + j)
  none_before j low high = absurd (omega arith)

  -- the answer at the first byte: the bytes differ, or both strings end
  decided_here :
      (l : ℕ) → (m s1 ≡ m s2 → l ≡ 0) → Answer m s1 s2 l (some (byte_order (m s1) (m s2)))
  unfolding byte_order
  decided_here l h = elim (Bool-cases (ltb (m s1) (m s2))) [
    | inl lt ↦ rw (if_yes _ _ lt) (
        answer (
          below 0 (omega arith) (omega arith) none_before
            (ground (arith, at_start s1, at_start s2))))
    | inr ge ↦ rw (if_no _ _ ge) (elim (Bool-cases (m s1 == m s2)) [
      | inl eq ↦ rw (if_yes _ _ eq) (
          answer (
            alike (λ j low high.
              let only : j ≡ 0 = omega (arith, h (==→eq eq)) in
              ap (λ (i : ℕ). m (s1 + i)) only
              ∙ sym (at_start s1)
              ∙ ==→eq eq
              ∙ at_start s2
              ∙ ap (λ (i : ℕ). m (s2 + i)) (sym only))))
      | inr ne ↦ rw (if_no _ _ ne) (
          answer (
            above 0 (omega arith) (omega arith) none_before
              (ground (arith, at_start s1, at_start s2))))
    ])
  ]

-- `strcmp` of a string of length `l` and any other, with fuel above `l`, ends; it is 0 when the
-- bytes agree up to the terminator, and otherwise has the sign of the first difference.
pub strcmp-Answer :
    (fuel : ℕ) {m : Memory} {s1 : ℕ} (s2 : ℕ) {l : ℕ}
    → IsString m s1 l
    → l < fuel
    → Answer m s1 s2 l (strcmp fuel m s1 s2)
unfolding strcmp
strcmp-Answer zero s2 v h = absurd (omega arith)
strcmp-Answer (suc fuel) {m} {s1} s2 {l = zero} v h =
    rw (if_no _ _ stops) (decided_here m s1 s2 zero (λ eq. refl))
  where
    stops : (not (m s1 == 0) && (m s1 == m s2)) ≡ false
    stops = ground (arith, v.end, at_start m s1 s2 s1)
strcmp-Answer (suc fuel) {m} {s1} s2 {l = suc l} v h = elim (Bool-cases (m s1 == m s2)) [
  | inl eq ↦
      rw (if_yes _ _ (goes eq))
        (one_more m s1 s2 (==→eq eq) (strcmp-Answer fuel (s2 + 1) (next-IsString v) (omega arith)))
  | inr ne ↦ rw (if_no _ _ (stops ne)) (decided_here m s1 s2 (suc l) (λ eq. absurd (differ ne eq)))
]
  where
    goes : (m s1 == m s2) ≡ true → (not (m s1 == 0) && (m s1 == m s2)) ≡ true
    goes eq = let first = v.inner 0 (omega arith) in ground (arith, at_start m s1 s2 s1)

    stops : (m s1 == m s2) ≡ false → (not (m s1 == 0) && (m s1 == m s2)) ≡ false
    stops ne = ground arith

    differ : (m s1 == m s2) ≡ false → m s1 ≡ m s2 → ⊥
    differ ne eq = ground arith
