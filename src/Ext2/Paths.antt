-- ===== src/Ext2/Paths.antt =====
-- kernel/src/fs/ext2.c: paths. A path is the list of its characters, without the 0 at its end, and is
-- not NULL; 47 is the slash, and 46 the dot. The path that `ext2_normalize_path` returns stands in one
-- static buffer; its callers take what they need of it before they call it again.
pub mod Described
pub mod Parts
pub mod Normal
use kronosos.Base.{
  ℕ, zero, suc, ◌+◌, ◌-◌, ◌*◌, ◌/◌, ◌%◌, ◌^◌, Bool, true, false, not, ◌&&◌, ◌||◌, Option, none,
  some, List, [], ◌∷◌, ◌++◌, length, ltb, leb, ◌==◌, if◌then◌else◌,
}
use kronosos.Base.Bytes.{Bytes}
use kronosos.Ext2.{Disk, Fs}
use kronosos.Ext2.DirectoryBlocks.{find_file_in_dir}

-- the first `n` characters
unfoldable pub take : ℕ → List ℕ → List ℕ
take zero path = []
take (suc n) [] = []
take (suc n) (c ∷ path) = c ∷ take n path

unfoldable pub drop : ℕ → List ℕ → List ℕ
drop zero path = path
drop (suc n) [] = []
drop (suc n) (c ∷ path) = drop n path

unfoldable pub same_string : List ℕ → List ℕ → Bool
same_string [] [] = true
same_string [] (c ∷ q) = false
same_string (c ∷ p) [] = false
same_string (c ∷ p) (d ∷ q) = (c == d) && same_string p q

-- `strrchr(path, '/')`, as an index
unfoldable pub last_slash : List ℕ → Option ℕ
last_slash [] = none
last_slash (c ∷ path) = elim (last_slash path) [
  | some k ↦ some (suc k)
  | none ↦ if c == 47 then some 0 else none
]

-- `temp`: the path, or the path behind the current directory, cut to 255 characters
unfoldable pub full_path : {D : Disk} → List ℕ → Fs D → List ℕ
unfolding take
full_path [] s = if s.mounted then take 255 (s.current_dir ++ (47 ∷ [])) else 47 ∷ []
full_path (c ∷ path) s =
    if c == 47
    then take 255 (c ∷ path)
    else if s.mounted
    then take 255 (s.current_dir ++ (47 ∷ c ∷ path))
    else take 255 (47 ∷ c ∷ path)

-- What the loop does with a token.
unfoldable pub add_token : List ℕ → List ℕ → List ℕ
unfolding same_string last_slash take
add_token normalized token =
    let parent : List ℕ = elim (last_slash normalized) [
      | none ↦ normalized
      | some k ↦ if k == 0 then normalized else take k normalized
    ] in
    if same_string token (46 ∷ [])
    then normalized
    else if same_string token (46 ∷ 46 ∷ [])
    then parent
    else normalized ++ (47 ∷ token)

-- The loop over the tokens that `strtok_r` gives; `token` is what has been read of the next one.
unfoldable pub add_tokens : List ℕ → List ℕ → List ℕ → List ℕ
unfolding add_token
add_tokens normalized [] [] = normalized
add_tokens normalized (t ∷ token) [] = add_token normalized (t ∷ token)
add_tokens normalized [] (c ∷ rest) =
    if c == 47 then add_tokens normalized [] rest else add_tokens normalized (c ∷ []) rest
add_tokens normalized (t ∷ token) (c ∷ rest) =
    if c == 47
    then add_tokens (add_token normalized (t ∷ token)) [] rest
    else add_tokens normalized (t ∷ (token ++ (c ∷ []))) rest

-- an empty path is the root.
unfoldable pub or_root : List ℕ → List ℕ
or_root [] = 47 ∷ []
or_root (c ∷ path) = c ∷ path

unfoldable pub normalize_path : {D : Disk} → List ℕ → Fs D → List ℕ
unfolding full_path add_tokens or_root
normalize_path path s = or_root (add_tokens [] [] (full_path path s))

-- the directory of a path whose last slash stands at `k`, and the name behind it
unfoldable pub parent_path : ℕ → List ℕ → List ℕ
unfolding take or_root
parent_path k path = or_root (take k path)

unfoldable pub file_name : ℕ → List ℕ → List ℕ
unfolding take drop
file_name k path = take 255 (drop (suc k) path)

module _ {D : Disk} where
  -- The loop over the characters of a path; `component` is what has been read of the next one.
  unfoldable pub lookup_from : ℕ → List ℕ → List ℕ → ℕ → Fs D → ℕ × Fs D
  unfolding find_file_in_dir take
  lookup_from drive component [] ino s = elim component [
    | [] ↦ (ino, s)
    | c ∷ rest ↦ find_file_in_dir drive ino (take 255 (c ∷ rest)) s
  ]
  lookup_from drive component (p ∷ path) ino s =
      let (next, t) = find_file_in_dir drive ino (take 255 component) s in
      let down = lookup_from drive [] path next t in
      let again = lookup_from drive [] path ino s in
      if not (p == 47)
      then lookup_from drive (component ++ (p ∷ [])) path ino s
      else elim component [ [] ↦ again | c ∷ rest ↦ if next == 0 then (0, t) else down ]

  -- behind the leading slash
  pub lookup_normal : ℕ → List ℕ → Fs D → ℕ × Fs D
  unfolding lookup_from
  lookup_normal drive [] s = lookup_from drive [] [] 2 s
  lookup_normal drive (c ∷ path) s =
      if c == 47 then lookup_from drive [] path 2 s else lookup_from drive [] (c ∷ path) 2 s

  unfoldable pub lookup_path : ℕ → List ℕ → Fs D → ℕ × Fs D
  unfolding normalize_path same_string lookup_normal
  lookup_path drive path s =
      let normal = normalize_path path s in
      if same_string normal (47 ∷ []) then (2, s) else lookup_normal drive normal s
