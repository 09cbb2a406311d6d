-- ===== src/Ext2/Directories/Layout.antt =====
-- kernel/src/fs/ext2.c: the entries of a directory's block as ext2 lays them out, with little-endian
-- fields and a name of as many characters as its length says, and how the code reads them.
use kronosos.Base.{
  ℕ, zero, suc, ◌+◌, ◌*◌, ◌^◌, ◌≤◌, ◌<◌, ◌≡◌, ◌≢◌, ◌∙◌, refl, ap, true, List, [], ◌∷◌, length,
  get_or, arith,
}
use kronosos.Base.Bytes.{Bytes, read}
use kronosos.Ext2.Directories.{next_entry, has_name, is_named}

-- the fields of the entry at `p`
abbrev pub inode_number : Bytes → ℕ → ℕ
inode_number bytes p =
    bytes p + 256 * bytes (p + 1) + 65536 * bytes (p + 2) + 16777216 * bytes (p + 3)

abbrev pub entry_length : Bytes → ℕ → ℕ
entry_length bytes p = bytes (p + 4) + 256 * bytes (p + 5)

-- The name of the entry at `p`, all of it.
unfoldable pub HasName : Bytes → List ℕ → ℕ → Type 0
HasName bytes name p =
    (bytes (p + 6) ≡ length name)
    × ((i : ℕ) → i < length name → bytes (p + 8 + i) ≡ get_or name i 0)

-- The entry at `q` is met on the way from that at `p` through the block: each entry begins where the
-- one before it ends, and an entry without a length is the last one.
pub data Reached (bytes : Bytes) (size : ℕ) : ℕ → ℕ → Type 0 where
  here : (p : ℕ) → Reached bytes size p p
  after :
      (p q : ℕ)
      → p < size
      → entry_length bytes p ≢ 0
      → Reached bytes size (p + entry_length bytes p) q
      → Reached bytes size p q

-- The entry at `q` is in use, and has the name.
unfoldable pub Matches : Bytes → ℕ → List ℕ → ℕ → Type 0
unfolding HasName
Matches bytes size name q =
    (q < size) × (entry_length bytes q ≢ 0) × (inode_number bytes q ≢ 0) × HasName bytes name q

-- how the code reads the fields
pub read-inode_number : (bytes : Bytes) (p : ℕ) → read bytes p 4 ≡ inode_number bytes p
read-inode_number bytes p =
    let b : bytes (p + 1 + 1) ≡ bytes (p + 2) = ap bytes (omega arith) in
    let c : bytes (p + 1 + 1 + 1) ≡ bytes (p + 3) = ap bytes (omega arith) in omega arith

pub read-entry_length : (bytes : Bytes) (p : ℕ) → read bytes (p + 4) 2 ≡ entry_length bytes p
read-entry_length bytes p =
    let b : bytes (p + 4 + 1) ≡ bytes (p + 5) = ap bytes (omega arith) in omega arith

pub next_entry-behind :
    (bytes : Bytes) (size p : ℕ)
    → ((i : ℕ) → bytes i < 2 ^ 8)
    → size ≤ 2 ^ 31
    → p < size
    → next_entry bytes p ≡ p + entry_length bytes p
next_entry-behind bytes size p small h l =
    let e = read-entry_length bytes p in
    let a = small (p + 4) in let b = small (p + 5) in omega arith

has_name-chars :
    (bytes : Bytes) (p : ℕ) (name : List ℕ)
    → has_name bytes p name ≡ true
    → (i : ℕ) → i < length name
    → bytes (p + i) ≡ get_or name i 0
unfolding has_name
has_name-chars bytes p [] h i l = absurd (omega arith)
has_name-chars bytes p (c ∷ name) h zero l =
    let start : p + 0 ≡ p = omega arith in ap bytes start ∙ ground arith
has_name-chars bytes p (c ∷ name) h (suc i) l =
    let at : p + suc i ≡ p + 1 + i = omega arith in
    ap bytes at ∙ has_name-chars bytes (p + 1) name (ground arith) i (omega arith)

chars-has_name :
    (bytes : Bytes) (p : ℕ) (name : List ℕ)
    → ((i : ℕ) → i < length name → bytes (p + i) ≡ get_or name i 0)
    → has_name bytes p name ≡ true
unfolding has_name
chars-has_name bytes p [] h = refl
chars-has_name bytes p (c ∷ name) h =
    let start : p ≡ p + 0 = omega arith in
    let first : bytes p ≡ c = ap bytes start ∙ h 0 (omega arith) in
    let rest = chars-has_name bytes (p + 1) name (λ i l.
      let at : p + 1 + i ≡ p + suc i = omega arith in ap bytes at ∙ h (suc i) (omega arith)) in
    ground arith

pub is_named-HasName :
    (bytes : Bytes) (p : ℕ) (name : List ℕ) → is_named bytes p name ≡ true → HasName bytes name p
unfolding is_named HasName
is_named-HasName bytes p name h = (ground arith, has_name-chars bytes (p + 8) name (ground arith))

pub HasName-is_named :
    (bytes : Bytes) (p : ℕ) (name : List ℕ) → HasName bytes name p → is_named bytes p name ≡ true
unfolding is_named HasName
HasName-is_named bytes p name (size, chars) =
    let c = chars-has_name bytes (p + 8) name chars in ground arith
