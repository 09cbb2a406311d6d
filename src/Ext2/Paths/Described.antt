-- ===== src/Ext2/Paths/Described.antt =====
-- kernel/src/fs/ext2.c: the path that `ext2_normalize_path` gives, described by a stack of names.
use kronosos.Base.{ℕ, Bool, false, List, [], ◌∷◌, ◌++◌, ◌&&◌, ◌==◌, if◌then◌else◌}
use kronosos.Ext2.{Disk, Fs}

-- The path begins with a slash.
unfoldable pub is_absolute : List ℕ → Bool
is_absolute [] = false
is_absolute (c ∷ path) = c == 47

-- A path that does not begin with a slash stands behind the current directory, or behind the root
-- while nothing is mounted.
unfoldable pub absolute : {D : Disk} → List ℕ → Fs D → List ℕ
unfolding is_absolute
absolute path s =
    if is_absolute path then path else (if s.mounted then s.current_dir else []) ++ 47 ∷ path

-- the names between the slashes of a path; `token` is what has been read of the next one.
unfoldable pub names : List ℕ → List ℕ → List (List ℕ)
names [] [] = []
names (t ∷ token) [] = (t ∷ token) ∷ []
names [] (c ∷ rest) = if c == 47 then names [] rest else names (c ∷ []) rest
names (t ∷ token) (c ∷ rest) =
    if c == 47 then (t ∷ token) ∷ names [] rest else names (t ∷ (token ++ (c ∷ []))) rest

-- The last name is dropped, but never the first.
unfoldable pub parent : List (List ℕ) → List (List ℕ)
parent [] = []
parent (t ∷ []) = t ∷ []
parent (t ∷ u ∷ stack) = u ∷ stack

-- the names `.` and `..`
unfoldable pub is_dot : List ℕ → Bool
is_dot [] = false
is_dot (c ∷ []) = c == 46
is_dot (c ∷ d ∷ t) = false

unfoldable pub is_dots : List ℕ → Bool
is_dots [] = false
is_dots (c ∷ []) = false
is_dots (c ∷ d ∷ []) = (c == 46) && (d == 46)
is_dots (c ∷ d ∷ e ∷ t) = false

-- The names after `.` and `..` have been resolved, the last one first.
unfoldable pub resolve : List (List ℕ) → List (List ℕ) → List (List ℕ)
unfolding parent is_dot is_dots
resolve stack [] = stack
resolve stack (t ∷ rest) =
    if is_dot t
    then resolve stack rest
    else if is_dots t
    then resolve (parent stack) rest
    else resolve (t ∷ stack) rest

-- the path of the names, each behind a slash
unfoldable pub render : List (List ℕ) → List ℕ
render [] = []
render (t ∷ stack) = render stack ++ (47 ∷ t)

-- The path of a stack of names; without names it is the root.
unfoldable pub path_of : List (List ℕ) → List ℕ
unfolding render
path_of [] = 47 ∷ []
path_of (t ∷ stack) = render (t ∷ stack)
