-- ===== src/Ext2/Directories.antt =====
-- kernel/src/fs/ext2.c: the entries of directories. The entries of a block are its bytes, each with
-- the inode number at 0, `rec_len` at 4, `name_len` at 6, the type at 7 and the name from 8 on; a
-- name is the list of its bytes, without the 0 at its end. A loop over entries has the block's size
-- as fuel, since an entry has at least one byte.
pub mod Layout
pub mod Entries
use kronosos.Base.{
  ℕ, zero, suc, ◌+◌, ◌-◌, ◌*◌, ◌/◌, ◌%◌, ◌^◌, Bool, true, false, not, ◌&&◌, ◌||◌, Option, none,
  some, List, [], ◌∷◌, length, ltb, leb, ◌==◌, if◌then◌else◌,
}
use kronosos.Base.Bytes.{Bytes, read, write, clear_bytes}
use kronosos.Ext2.{Disk, Fs, read_io, write_io}
use kronosos.Ext2.Inodes.{i_size, i_blocks, is_dir, read_inode, write_inode}
use kronosos.Ext2.Bitmaps.{allocate_block}
use kronosos.Ext2.BlockMap.{get_block, set_block}

-- `entry->name` begins with the name
unfoldable pub has_name : Bytes → ℕ → List ℕ → Bool
has_name bytes p [] = true
has_name bytes p (c ∷ rest) = (bytes p == c) && has_name bytes (p + 1) rest

-- the entry at `p` has the name
unfoldable pub is_named : Bytes → ℕ → List ℕ → Bool
unfolding has_name
is_named bytes p name = (bytes (p + 6) == length name) && has_name bytes (p + 8) name

-- the next entry
abbrev pub next_entry : Bytes → ℕ → ℕ
next_entry bytes p = (p + read bytes (p + 4) 2) % 2 ^ 32

-- `n` rounds of the search for a name in a block, from the entry at `p` on
unfoldable pub find_entry : ℕ → Bytes → ℕ → List ℕ → ℕ → Option ℕ
unfolding is_named
find_entry zero bytes size name p = none
find_entry (suc n) bytes size name p =
    let rest = find_entry n bytes size name (next_entry bytes p) in
    if leb size p
    then none
    else if read bytes (p + 4) 2 == 0
    then none
    else if not (read bytes p 4 == 0) && is_named bytes p name
    then some (read bytes p 4)
    else rest

-- `strncpy` of a name behind the entry at `p`
unfoldable pub put_name : Bytes → ℕ → List ℕ → Bytes
put_name bytes p [] = bytes
put_name bytes p (c ∷ rest) = put_name (λ i. if i == p then c else bytes i) (p + 1) rest

unfoldable pub put_dir_entry : Bytes → ℕ → ℕ → ℕ → ℕ → List ℕ → Bytes
unfolding write put_name
put_dir_entry bytes p ino rec_len type name =
    put_name
      (write (write (write (write bytes p 4 ino) (p + 4) 2 rec_len) (p + 6) 1 (length name)) (p + 7)
        1 type)
      (p + 8) name

-- the size of an entry, in steps of 8 bytes
abbrev pub entry_size : ℕ → ℕ
entry_size name_len = (8 + name_len + 7) / 8 * 8

-- `n` rounds of the search for room in a block: the block with the new entry
unfoldable pub insert_entry : ℕ → Bytes → ℕ → ℕ → ℕ → List ℕ → ℕ → Option Bytes
unfolding put_dir_entry write
insert_entry zero bytes size ino type name p = none
insert_entry (suc n) bytes size ino type name p =
    let rec_len = read bytes (p + 4) 2 in
    let actual = entry_size (bytes (p + 6)) in
    let needed = entry_size (length name) in
    let rest = insert_entry n bytes size ino type name (next_entry bytes p) in
    if leb size p
    then none
    else if (rec_len == 0) || ((read bytes p 4 == 0) && leb needed rec_len)
    then some (put_dir_entry bytes p ino needed type name)
    else if leb (actual + needed) rec_len
    then some
        (put_dir_entry (write bytes (p + 4) 2 actual) (p + actual) ino (rec_len - actual) type name)
    else rest

-- the entry at `p` is removed; `previous` is the entry before it, where there is one.
unfoldable pub drop_entry : Bytes → ℕ → Option ℕ → Bytes
unfolding write
drop_entry bytes p none = write bytes p 4 0
drop_entry bytes p (some q) = write bytes (q + 4) 2 (read bytes (q + 4) 2 + read bytes (p + 4) 2)

-- `n` rounds of the search for the entry to remove: the block without it
unfoldable pub remove_entry : ℕ → Bytes → ℕ → ℕ → List ℕ → ℕ → Option ℕ → Option Bytes
unfolding is_named drop_entry
remove_entry zero bytes size ino name p previous = none
remove_entry (suc n) bytes size ino name p previous =
    let rest = remove_entry n bytes size ino name (next_entry bytes p) (some p) in
    if leb size p
    then none
    else if read bytes (p + 4) 2 == 0
    then none
    else if (read bytes p 4 == ino) && is_named bytes p name
    then some (drop_entry bytes p previous)
    else rest

-- `.` or `..`
unfoldable pub is_dots : Bytes → ℕ → Bool
is_dots bytes p =
    ((bytes (p + 6) == 1) && (bytes (p + 8) == 46))
    || ((bytes (p + 6) == 2) && (bytes (p + 8) == 46) && (bytes (p + 9) == 46))

-- `n` rounds of the search for an entry that is neither: there is none.
unfoldable pub only_dots : ℕ → Bytes → ℕ → ℕ → Bool
unfolding is_dots
only_dots zero bytes size p = true
only_dots (suc n) bytes size p =
    let rest = only_dots n bytes size (next_entry bytes p) in
    if leb size p
    then true
    else if read bytes (p + 4) 2 == 0
    then true
    else if not (read bytes p 4 == 0) && not (is_dots bytes p)
    then false
    else rest
