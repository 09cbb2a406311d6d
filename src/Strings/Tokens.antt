-- ===== src/Strings/Tokens.antt =====
-- kernel/src/lib/string.c: `strtok_r`, `strspn` and `strpbrk`, with the same fuel for each loop.
use kronosos.Base.{
  ℕ, zero, suc, ◌+◌, Bool, true, false, not, Option, none, some, ◌==◌, if◌then◌else◌,
}
use kronosos.Strings.{Memory, store, strchr}

-- whether a character is in the string at `a`: the inner loop of `strspn` and `strpbrk`
pub in_set : ℕ → Memory → ℕ → ℕ → Option Bool
in_set zero m a c = none
in_set (suc fuel) m a c =
    let rest = in_set fuel m (a + 1) c in
    if m a == 0 then some false else if c == m a then some true else rest

-- the loop of `strspn` with `bound` for the inner loop, from the count `n` on
pub strspn_from : ℕ → ℕ → Memory → ℕ → ℕ → ℕ → Option ℕ
unfolding in_set
strspn_from bound zero m p accept n = none
strspn_from bound (suc fuel) m p accept n =
    let rest = strspn_from bound fuel m (p + 1) accept (n + 1) in
    if m p == 0 then some n else elim (in_set bound m accept (m p)) [
      | none ↦ none
      | some found ↦ if found then rest else some n
    ]

pub strspn : ℕ → Memory → ℕ → ℕ → Option ℕ
unfolding strspn_from
strspn fuel m s accept = strspn_from fuel fuel m s accept 0

-- the loop of `strpbrk`; the inner option is NULL
pub strpbrk_from : ℕ → ℕ → Memory → ℕ → ℕ → Option (Option ℕ)
unfolding in_set
strpbrk_from bound zero m s accept = none
strpbrk_from bound (suc fuel) m s accept =
    let rest = strpbrk_from bound fuel m (s + 1) accept in
    if m s == 0 then some none else elim (in_set bound m accept (m s)) [
      | none ↦ none
      | some found ↦ if found then some (some s) else rest
    ]

pub strpbrk : ℕ → Memory → ℕ → ℕ → Option (Option ℕ)
unfolding strpbrk_from
strpbrk fuel m s accept = strpbrk_from fuel fuel m s accept

-- whether `strchr` has found the character
pub is_found : Option ℕ → Bool
is_found none = false
is_found (some a) = true

-- The loops of `strtok_r`: to the end of the string, or to the first character of which
-- "is a delimiter" is not `wanted`.
pub skip : ℕ → ℕ → Memory → ℕ → ℕ → Bool → Option ℕ
unfolding strchr is_found
skip bound zero m str delim wanted = none
skip bound (suc fuel) m str delim wanted =
    let rest = skip bound fuel m (str + 1) delim wanted in
    if m str == 0 then some str else elim (strchr bound m delim (m str)) [
      | none ↦ none
      | some o ↦ if (if wanted then is_found o else not (is_found o)) then rest else some str
    ]

-- The result of `strtok_r`: the token or NULL, memory, and `*saveptr`.
pub record Token : Type 0 where
  pub start : Option ℕ
  pub memory : Memory
  pub saveptr : ℕ

-- the end of `strtok_r`, from the start and the end of the token
pub end_token : Memory → ℕ → ℕ → Token
unfolding store
end_token m start str =
    if m str == 0
    then record { start = some start; memory = m; saveptr = str }
    else record { start = some start; memory = store m str 0; saveptr = str + 1 }

-- A NULL `str` is 0.
pub strtok_r : ℕ → Memory → ℕ → ℕ → ℕ → Option Token
unfolding skip end_token
strtok_r fuel m str delim saveptr =
    elim (skip fuel fuel m (if str == 0 then saveptr else str) delim true) [
      | none ↦ none
      | some start ↦
          if m start == 0
          then some (record { start = none; memory = m; saveptr = start })
          else elim (skip fuel fuel m start delim false) [
            | none ↦ none
            | some str' ↦ some (end_token m start str')
          ]
    ]
