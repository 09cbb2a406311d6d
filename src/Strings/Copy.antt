-- ===== src/Strings/Copy.antt =====
-- `memcpy`, `memmove`, `memset` and `strncpy`: the bytes of memory afterwards.
use kronosos.Base.{
  ℕ, zero, suc, ◌+◌, ◌-◌, ◌≤◌, ◌<◌, ◌≡◌, ◌≢◌, ◌∙◌, ap, true, false, ◌&&◌, ltb, leb, ◌==◌, ==→eq,
  if◌then◌else◌, if_yes, if_no, Bool-cases, inl, inr, ◌⊎◌, arith,
}
use mathlib.Core.Path.{sym}
use kronosos.Strings.{Memory, store, copy_up, copy_down, memcpy, memmove}

-- memory after the bytes `i` to `i + n - 1` of `src` have been copied
abbrev copied : Memory → ℕ → ℕ → ℕ → ℕ → Memory
copied m dest src n i a =
    if leb (dest + i) a && ltb a (dest + i + n) then m (src + (a - dest)) else m a

inside :
    (m : Memory) (dest src n i a : ℕ)
    → dest + i ≤ a
    → a < dest + i + n
    → copied m dest src n i a ≡ m (src + (a - dest))
inside m dest src n i a low high = if_yes _ _ within
  where
    within : (leb (dest + i) a && ltb a (dest + i + n)) ≡ true
    within = ground arith

outside :
    (m : Memory) (dest src n i a : ℕ)
    → (a < dest + i) ⊎ (dest + i + n ≤ a)
    → copied m dest src n i a ≡ m a
outside m dest src n i a apart = if_no _ _ beyond
  where
    beyond : (leb (dest + i) a && ltb a (dest + i + n)) ≡ false
    beyond = ground arith

-- One round more, if the byte that it writes is not read later or is the last to be read.
module _ (m : Memory) (dest src i a : ℕ) where
  abbrev round : Memory
  round = store m (dest + i) (m (src + i))

  round_elsewhere : (b : ℕ) → b ≢ dest + i → round b ≡ m b
  unfolding store
  round_elsewhere b ne = if_no _ _ apart
    where
      apart : (b == (dest + i)) ≡ false
      apart = ground arith

  round_here : a ≡ dest + i → round a ≡ m (src + (a - dest))
  unfolding store
  round_here at = if_yes _ _ here ∙ ap m (omega (arith, at))
    where
      here : (a == (dest + i)) ≡ true
      here = ground arith

  -- the copy upwards, whose first round is this
  up :
      (n : ℕ)
      → (dest < src) ⊎ (src + i + suc n ≤ dest + i)
      → copied round dest src n (i + 1) a ≡ copied m dest src (suc n) i a
  up n h = elim (Bool-cases (leb (dest + (i + 1)) a && ltb a (dest + (i + 1) + n))) [
    | inl later ↦
        if_yes _ _ later
        ∙ round_elsewhere _ (ground arith)
        ∙ sym (inside m dest src (suc n) i a (ground arith) (ground arith))
    | inr other ↦ if_no _ _ other ∙ elim (Bool-cases (a == (dest + i))) [
      | inl here ↦
          round_here (==→eq here)
          ∙ sym (inside m dest src (suc n) i a (ground arith) (ground arith))
      | inr apart ↦
          round_elsewhere _ (ground arith) ∙ sym (outside m dest src (suc n) i a (ground arith))
    ]
  ]

  -- the copy downwards, whose first round is this
  down : src < dest → copied round dest src i 0 a ≡ copied m dest src (suc i) 0 a
  down h = elim (Bool-cases (leb (dest + 0) a && ltb a (dest + 0 + i))) [
    | inl later ↦
        if_yes _ _ later
        ∙ round_elsewhere _ (ground arith)
        ∙ sym (inside m dest src (suc i) 0 a (ground arith) (ground arith))
    | inr other ↦ if_no _ _ other ∙ elim (Bool-cases (a == (dest + i))) [
      | inl here ↦
          round_here (==→eq here)
          ∙ sym (inside m dest src (suc i) 0 a (ground arith) (ground arith))
      | inr apart ↦
          round_elsewhere _ (ground arith) ∙ sym (outside m dest src (suc i) 0 a (ground arith))
    ]
  ]

copy_up-copied :
    (m : Memory) (dest src n i : ℕ)
    → (dest < src) ⊎ (src + i + n ≤ dest + i)
    → (a : ℕ) → copy_up m dest src n i a ≡ copied m dest src n i a
unfolding copy_up
copy_up-copied m dest src zero i h a = sym (outside m dest src 0 i a (ground arith))
copy_up-copied m dest src (suc n) i h a =
    copy_up-copied (store m (dest + i) (m (src + i))) dest src n (i + 1) (ground arith) a
    ∙ up m dest src i a n h

copy_down-copied :
    (m : Memory) (dest src n : ℕ)
    → src < dest
    → (a : ℕ) → copy_down m dest src n a ≡ copied m dest src n 0 a
unfolding copy_down
copy_down-copied m dest src zero h a = sym (outside m dest src 0 0 a (ground arith))
copy_down-copied m dest src (suc n) h a =
    copy_down-copied (store m (dest + n) (m (src + n))) dest src n h a ∙ down m dest src n a h

-- the bytes from the first on
copied_whole :
    (m : Memory) (dest src n a : ℕ)
    → copied m dest src n 0 a
      ≡ (if leb dest a && ltb a (dest + n) then m (src + (a - dest)) else m a)
copied_whole m dest src n a =
    ap (λ (d : ℕ). if leb d a && ltb a (d + n) then m (src + (a - dest)) else m a) (omega arith)

-- `memmove` copies the bytes that the source had before, however the ranges overlap, and changes
-- no other byte.
pub memmove_lem :
    (m : Memory) (dest src n a : ℕ)
    → memmove m dest src n a
      ≡ (if leb dest a && ltb a (dest + n) then m (src + (a - dest)) else m a)
unfolding memmove
memmove_lem m dest src n a = elim (Bool-cases (ltb dest src)) [
  | inl below ↦
      ap (λ (f : Memory). f a) (if_yes _ _ below)
      ∙ copy_up-copied m dest src n 0 (ground arith) a
      ∙ copied_whole m dest src n a
  | inr other ↦ ap (λ (f : Memory). f a) (if_no _ _ other) ∙ elim (Bool-cases (ltb src dest)) [
    | inl above ↦
        ap (λ (f : Memory). f a) (if_yes _ _ above)
        ∙ copy_down-copied m dest src n (ground arith) a
        ∙ copied_whole m dest src n a
    | inr same ↦
        ap (λ (f : Memory). f a) (if_no _ _ same) ∙ unmoved (omega (arith, same_place other same))
  ]
]
  where
    same_place : ltb dest src ≡ false → ltb src dest ≡ false → dest ≡ src
    same_place p q = ground arith

    unmoved :
        dest ≡ src → m a ≡ (if leb dest a && ltb a (dest + n) then m (src + (a - dest)) else m a)
    unmoved e = elim (Bool-cases (leb dest a && ltb a (dest + n))) [
      | inl inner ↦
          let here : a ≡ src + (a - dest) = ground arith in ap m here ∙ sym (if_yes _ _ inner)
      | inr outer ↦ sym (if_no _ _ outer)
    ]

-- Where the ranges do not overlap, `memcpy` does what `memmove` does.
pub memcpy-memmove :
    (m : Memory) (dest src n a : ℕ)
    → (dest + n ≤ src) ⊎ (src + n ≤ dest)
    → memcpy m dest src n a ≡ memmove m dest src n a
unfolding memcpy
memcpy-memmove m dest src n a apart =
    copy_up-copied m dest src n 0 (ground arith) a
    ∙ copied_whole m dest src n a
    ∙ sym (memmove_lem m dest src n a)
