-- ===== src/Ext2/Paths/Parts.antt =====
-- kernel/src/fs/ext2.c: the parts of `ext2_normalize_path` around its loop, against the description.
use kronosos.Base.{
  ℕ, ◌≡◌, ◌∙◌, refl, sym, ap, List, [], ◌∷◌, ◌++◌, ◌==◌, if◌then◌else◌, if_yes, if_no, Bool-cases,
  inl, inr, arith,
}
use kronosos.Ext2.{Disk, Fs}
use kronosos.Ext2.Paths.{take, same_string, full_path, or_root}
use kronosos.Ext2.Paths.Described.{absolute, is_dot, is_dots, render, path_of}

-- how the code compares a token with them
pub same_string-dot : (t : List ℕ) → same_string t (46 ∷ []) ≡ is_dot t
unfolding same_string is_dot
same_string-dot [] = refl
same_string-dot (c ∷ []) = ground arith
same_string-dot (c ∷ d ∷ t) = ground arith

pub same_string-dots : (t : List ℕ) → same_string t (46 ∷ 46 ∷ []) ≡ is_dots t
unfolding same_string is_dots
same_string-dots [] = refl
same_string-dots (c ∷ []) = ground arith
same_string-dots (c ∷ d ∷ []) = ground arith
same_string-dots (c ∷ d ∷ e ∷ t) = ground arith

behind :
    {D : Disk} (s : Fs D) (rest : List ℕ)
    → (if s.mounted then take 255 (s.current_dir ++ rest) else take 255 rest)
      ≡ take 255 ((if s.mounted then s.current_dir else []) ++ rest)
behind s rest = elim (Bool-cases s.mounted) [
  | inl on ↦ if_yes _ _ on ∙ sym (ap (λ (dir : List ℕ). take 255 (dir ++ rest)) (if_yes _ _ on))
  | inr off ↦ if_no _ _ off ∙ sym (ap (λ (dir : List ℕ). take 255 (dir ++ rest)) (if_no _ _ off))
]

pub full_path-absolute :
    {D : Disk} (path : List ℕ) (s : Fs D) → full_path path s ≡ take 255 (absolute path s)
unfolding full_path absolute take
full_path-absolute [] s = behind s (47 ∷ [])
full_path-absolute (c ∷ path) s = elim (Bool-cases (c == 47)) [
  | inl slash ↦ if_yes _ _ slash ∙ sym (ap (take 255) (if_yes _ _ slash))
  | inr other ↦ if_no _ _ other ∙ behind s (47 ∷ c ∷ path) ∙ sym (ap (take 255) (if_no _ _ other))
]

or_root-append : (xs t : List ℕ) → or_root (xs ++ (47 ∷ t)) ≡ xs ++ (47 ∷ t)
unfolding or_root
or_root-append [] t = refl
or_root-append (c ∷ xs) t = refl

pub or_root-render : (stack : List (List ℕ)) → or_root (render stack) ≡ path_of stack
unfolding or_root render path_of
or_root-render [] = refl
or_root-render (t ∷ stack) = or_root-append (render stack) t
