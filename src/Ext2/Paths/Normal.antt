-- ===== src/Ext2/Paths/Normal.antt =====
-- kernel/src/fs/ext2.c: `ext2_normalize_path` against its description by a stack of names.
use kronosos.Base.{
  ℕ, suc, ◌≡◌, ◌≢◌, ◌∙◌, refl, sym, ap, true, false, Option, none, some, List, [], ◌∷◌, ◌++◌,
  length, ◌==◌, if◌then◌else◌, if_yes, if_no, if_both, Bool-cases, inl, inr, arith,
}
use kronosos.Ext2.{Disk, Fs}
use kronosos.Ext2.Paths.Described.{
  absolute, is_dot, is_dots, names, parent, resolve, render, path_of,
}
use kronosos.Ext2.Paths.Parts.{
  same_string-dot, same_string-dots, full_path-absolute, or_root-render,
}
use kronosos.Ext2.Paths.{take, last_slash, add_token, add_tokens, or_root, normalize_path}

-- no character is a slash.
IsName : List ℕ → Type 0
IsName [] = true ≡ true
IsName (c ∷ t) = (c ≢ 47) × IsName t

AreNames : List (List ℕ) → Type 0
unfolding IsName
AreNames [] = true ≡ true
AreNames (t ∷ stack) = IsName t × AreNames stack

last_slash-IsName : (t : List ℕ) → IsName t → last_slash t ≡ none
unfolding last_slash IsName
last_slash-IsName [] h = refl
last_slash-IsName (c ∷ t) (ne, h) =
    let no : (c == 47) ≡ false = ground arith in
    ap
      (λ (o : Option ℕ). elim o as (λ x. Option ℕ) [
        | some k ↦ some (suc k)
        | none ↦ if c == 47 then some 0 else none
      ])
      (last_slash-IsName t h)
    ∙ if_no _ _ no

last_slash-append : (xs t : List ℕ) → IsName t → last_slash (xs ++ (47 ∷ t)) ≡ some (length xs)
unfolding last_slash
last_slash-append [] t h =
    ap (λ (o : Option ℕ). elim o as (λ x. Option ℕ) [ some k ↦ some (suc k) | none ↦ some 0 ])
      (last_slash-IsName t h)
last_slash-append (c ∷ xs) t h =
    ap
      (λ (o : Option ℕ). elim o as (λ x. Option ℕ) [
        | some k ↦ some (suc k)
        | none ↦ if c == 47 then some 0 else none
      ])
      (last_slash-append xs t h)

take-length : (xs ys : List ℕ) → take (length xs) (xs ++ ys) ≡ xs
unfolding take
take-length [] ys = refl
take-length (c ∷ xs) ys = ap (λ (l : List ℕ). c ∷ l) (take-length xs ys)

-- a rendered path is empty only without names.
length-append_slash : (xs t : List ℕ) → (length (xs ++ (47 ∷ t)) == 0) ≡ false
length-append_slash [] t = ground arith
length-append_slash (c ∷ xs) t = ground arith

-- What `..` makes of a rendered path.
abbrev cut : List ℕ → Option ℕ → List ℕ
cut path o = elim o [ none ↦ path | some k ↦ if k == 0 then path else take k path ]

cut-render :
    (stack : List (List ℕ))
    → AreNames stack
    → cut (render stack) (last_slash (render stack)) ≡ render (parent stack)
unfolding render parent AreNames last_slash
cut-render [] h = refl
cut-render (t ∷ []) (h, _) = ap (cut (47 ∷ t)) (last_slash-append [] t h)
cut-render (t ∷ u ∷ stack) (h, _) =
    let path = render (u ∷ stack) in
    ap (cut (path ++ (47 ∷ t))) (last_slash-append path t h)
    ∙ if_no _ _ (length-append_slash (render stack) u)
    ∙ take-length path (47 ∷ t)

-- One token after the others.
add_token-render :
    (stack : List (List ℕ)) (t : List ℕ)
    → AreNames stack
    → add_token (render stack) t ≡ render (resolve stack (t ∷ []))
unfolding add_token resolve render
add_token-render stack t h =
    let dot = is_dot t in
    let dots = is_dots t in
    elim (Bool-cases dot) [
      | inl stay ↦ if_yes _ _ (same_string-dot t ∙ stay) ∙ sym (ap render (if_yes _ _ stay))
      | inr move ↦ elim (Bool-cases dots) [
        | inl up ↦
            if_no _ _ (same_string-dot t ∙ move)
            ∙ if_yes _ _ (same_string-dots t ∙ up)
            ∙ cut-render stack h
            ∙ sym (ap render (if_no _ _ move ∙ if_yes _ _ up))
        | inr down ↦
            if_no _ _ (same_string-dot t ∙ move)
            ∙ if_no _ _ (same_string-dots t ∙ down)
            ∙ sym (ap render (if_no _ _ move ∙ if_no _ _ down))
      ]
    ]

resolve-first :
    (stack : List (List ℕ)) (t : List ℕ) (rest : List (List ℕ))
    → resolve stack (t ∷ rest) ≡ resolve (resolve stack (t ∷ [])) rest
unfolding resolve
resolve-first stack t rest =
    let dot = is_dot t in
    let dots = is_dots t in
    elim (Bool-cases dot) [
      | inl stay ↦
          if_yes _ _ stay ∙ sym (ap (λ (s : List (List ℕ)). resolve s rest) (if_yes _ _ stay))
      | inr move ↦ elim (Bool-cases dots) [
        | inl up ↦
            if_no _ _ move
            ∙ if_yes _ _ up
            ∙ sym (ap (λ (s : List (List ℕ)). resolve s rest) (if_no _ _ move ∙ if_yes _ _ up))
        | inr down ↦
            if_no _ _ move
            ∙ if_no _ _ down
            ∙ sym (ap (λ (s : List (List ℕ)). resolve s rest) (if_no _ _ move ∙ if_no _ _ down))
      ]
    ]

parent-AreNames : (stack : List (List ℕ)) → AreNames stack → AreNames (parent stack)
unfolding parent AreNames
parent-AreNames [] h = h
parent-AreNames (t ∷ []) h = h
parent-AreNames (t ∷ u ∷ stack) (_, h) = h

resolve-AreNames :
    (stack : List (List ℕ)) (t : List ℕ)
    → AreNames stack
    → IsName t
    → AreNames (resolve stack (t ∷ []))
unfolding resolve AreNames
resolve-AreNames stack t h n =
    if_both AreNames (is_dot t) stack _ h
      (if_both AreNames (is_dots t) (parent stack) (t ∷ stack) (parent-AreNames stack h) (n, h))

IsName-append : (t : List ℕ) (c : ℕ) → IsName t → c ≢ 47 → IsName (t ++ (c ∷ []))
unfolding IsName
IsName-append [] c h ne = (ne, refl)
IsName-append (x ∷ t) c (n, h) ne = (n, IsName-append t c h ne)

add_tokens-render :
    (stack : List (List ℕ)) (token rest : List ℕ)
    → AreNames stack
    → IsName token
    → add_tokens (render stack) token rest ≡ render (resolve stack (names token rest))
unfolding add_tokens names resolve IsName
add_tokens-render stack [] [] h n = refl
add_tokens-render stack (t ∷ token) [] h n = add_token-render stack (t ∷ token) h
add_tokens-render stack [] (c ∷ rest) h n = elim (Bool-cases (c == 47)) [
  | inl slash ↦
      if_yes _ _ slash
      ∙ add_tokens-render stack [] rest h refl
      ∙ sym (ap (λ (l : List (List ℕ)). render (resolve stack l)) (if_yes _ _ slash))
  | inr other ↦
      if_no _ _ other
      ∙ add_tokens-render stack (c ∷ []) rest h (ground arith, refl)
      ∙ sym (ap (λ (l : List (List ℕ)). render (resolve stack l)) (if_no _ _ other))
]
add_tokens-render stack (t ∷ token) (c ∷ rest) h (n, ns) = elim (Bool-cases (c == 47)) [
  | inl slash ↦
      let next = resolve stack ((t ∷ token) ∷ []) in
      if_yes _ _ slash
      ∙ ap (λ (path : List ℕ). add_tokens path [] rest) (add_token-render stack (t ∷ token) h)
      ∙ add_tokens-render next [] rest (resolve-AreNames stack (t ∷ token) h (n, ns)) refl
      ∙ ap render (sym (resolve-first stack (t ∷ token) (names [] rest)))
      ∙ sym (ap (λ (l : List (List ℕ)). render (resolve stack l)) (if_yes _ _ slash))
  | inr other ↦
      if_no _ _ other
      ∙ add_tokens-render stack (t ∷ (token ++ (c ∷ []))) rest h
          (n, IsName-append token c ns (ground arith))
      ∙ sym (ap (λ (l : List (List ℕ)). render (resolve stack l)) (if_no _ _ other))
]

-- For the first 255 characters of the path, which stands behind the current directory when it does
-- not begin with a slash: ext2_normalize_path gives their names, each behind a slash, after `.` has
-- been left out and `..` has dropped the name before it unless that is the first; without names it
-- gives the root.
pub normalize_path-render :
    {D : Disk} (path : List ℕ) (s : Fs D)
    → normalize_path path s ≡ path_of (resolve [] (names [] (take 255 (absolute path s))))
unfolding normalize_path render AreNames IsName
normalize_path-render path s =
    ap (λ (full : List ℕ). or_root (add_tokens [] [] full)) (full_path-absolute path s)
    ∙ ap or_root (add_tokens-render [] [] (take 255 (absolute path s)) refl refl)
    ∙ or_root-render (resolve [] (names [] (take 255 (absolute path s))))
