-- ===== src/Ext2/Tests.antt =====
-- Tests of the model of the file system, and the theorems at concrete drives.
use kronosos.Base.{
  ltb, ℕ, ◌-◌, ◌*◌, ◌/◌, ◌%◌, ◌^◌, ◌<◌, ◌≡◌, ◌≢◌, refl, true, some, List, [], ◌∷◌, if◌then◌else◌,
  ◌==◌, arith, Bool, false, ◌+◌,
}
use kronosos.Base.Bytes.{Bytes, write}
use kronosos.Ext2.{
  Fs, read_block, write_block, find_cached, write_sectors, read_sectors, read_missing, fill_cache,
  put_entry, free_entry, read_io, write_io,
}
use kronosos.Ext2.Cache.{Holds}
use kronosos.Ext2.Blocks.{IsCoherent, CacheHolds, HasBlock, InRange, IsRead, read_block-IsRead}
use kronosos.Ext2.BlockWrites.{IsWritten, write_block-IsWritten, read_block-write_block}
use kronosos.Ext2.Inodes.{i_block, i_size, inode_block, has_inode, read_inode, write_inode}
use kronosos.Ext2.Inodes.Stored.{HasInode}
use kronosos.Ext2.Inodes.Places.{HasRoom, read_inode-write_inode}
use kronosos.Ext2.Bitmaps.{find_free_bit, find_free_from, find_zero, mark_bit}
use kronosos.Ext2.Bitmaps.Search.{
  bit_at, FirstZero, find_free_bit-FirstZero, find_free_bit-mark_bit,
}
use kronosos.Ext2.Directories.{find_entry, put_dir_entry, is_named, has_name, put_name}
use kronosos.Ext2.Directories.Entries.{FoundEntry, find_entry-FoundEntry}
use kronosos.Ext2.Paths.{
  normalize_path, full_path, take, add_tokens, add_token, same_string, last_slash, or_root,
}
use kronosos.Ext2.Paths.Described.{absolute, names, resolve, path_of}
use kronosos.Ext2.Paths.Normal.{normalize_path-render}
use kronosos.Ext2.Files.{read_file, is_file, is_readable, read_rounds}
use kronosos.Ext2.Files.Transfers.{IsTransfer, read_file-IsTransfer}
use kronosos.Ext2.BlockMap.{get_block}
use kronosos.Ext2.Files.Rounds.{HasContents}
use kronosos.Ext2.Files.Contents.{IsRange, read_file-IsRange}
use mathlib.Core.Path.{subst}
use kronosos.Ext2.Sample.{ram, ram-IsLawful, fs, fs-IsCoherent, fs-InRange}

abbrev digits : Bytes
digits = λ i. i % 10

read_block-IsRead_example : IsRead fs 3 (read_block 0 3 digits fs)
read_block-IsRead_example = read_block-IsRead 3 digits fs fs-IsCoherent fs-InRange

write_digits : (write_block 0 3 digits fs).0 ≡ true
unfolding write_block write_sectors
write_digits = refl

write_block-IsWritten_example : IsWritten fs 3 digits (write_block 0 3 digits fs).1
write_block-IsWritten_example =
    write_block-IsWritten 3 digits fs ram-IsLawful fs-IsCoherent refl fs-InRange write_digits

read_block-write_block_example :
    ((read_block 0 3 (λ i. 0) (write_block 0 3 digits fs).1).0 ≡ true)
    × ((j : ℕ) → j < 1024 → (read_block 0 3 (λ i. 0) (write_block 0 3 digits fs).1).1 j ≡ digits j)
read_block-write_block_example =
    read_block-write_block 3 digits (λ i. 0) fs ram-IsLawful fs-IsCoherent refl fs-InRange
      write_digits

fs-HasRoom : HasRoom fs
fs-HasRoom = record { inode_room = omega arith; block_room = omega arith; small = omega arith }

inode_3-InRange : InRange fs (inode_block 3 fs)
unfolding inode_block write InRange
inode_3-InRange = omega arith

write_inode_3 : (write_inode 0 3 digits fs).0 ≡ true
unfolding write_inode has_inode read_io write_io read_block find_cached read_missing read_sectors
    write_block write_sectors fill_cache free_entry put_entry inode_block write
write_inode_3 = refl

read_inode-write_inode_example :
    ((old : Bytes)
      → ((read_inode 0 3 old (write_inode 0 3 digits fs).1).0 ≡ true)
        × ((j : ℕ) → j < 128 → (read_inode 0 3 old (write_inode 0 3 digits fs).1).1 j ≡ digits j))
    × ((m : ℕ) (other : Bytes)
        → 0 < m
        → m < 2 ^ 32
        → m ≢ 3
        → (m - 1) / 16 ≡ 2 / 16
        → InRange fs (inode_block m fs)
        → HasInode fs m other
        → HasInode (write_inode 0 3 digits fs).1 m other)
read_inode-write_inode_example =
    read_inode-write_inode 3 digits fs ram-IsLawful fs-IsCoherent refl fs-HasRoom inode_3-InRange
      (omega arith) (omega arith) write_inode_3

-- 0x77 has bits 3 and 7 clear.
find_free_bit_test : find_free_bit (λ i. if i == 0 then 0xff else 0x77) 2 ≡ some 11
unfolding find_free_bit find_free_from find_zero
find_free_bit_test = refl

find_free_bit-FirstZero_example : FirstZero (bit_at digits) 0 (1024 * 8) (find_free_bit digits 1024)
find_free_bit-FirstZero_example = find_free_bit-FirstZero digits 1024

digits-byte : (i : ℕ) → digits i < 2 ^ 8
digits-byte i = omega arith

abbrev bits_11_and_15 : Bytes
bits_11_and_15 = λ i. if i == 0 then 0xff else 0x77

small_byte : (b : Bool) → (if b then 0xff else 0x77) < 2 ^ 8
small_byte true = omega arith
small_byte false = omega arith

find_free_bit_11 : find_free_bit bits_11_and_15 2 ≡ some 11
unfolding find_free_bit find_free_from find_zero
find_free_bit_11 = refl

find_free_bit_15 : find_free_bit (mark_bit bits_11_and_15 11) 2 ≡ some 15
unfolding find_free_bit find_free_from find_zero mark_bit
find_free_bit_15 = refl

find_free_bit-mark_bit_example : 11 < 15
find_free_bit-mark_bit_example =
    find_free_bit-mark_bit bits_11_and_15 2 11 15 (λ i. small_byte (i == 0)) find_free_bit_11
      find_free_bit_15

-- a block with an entry of 24 bytes and a second one
abbrev two_entries : Bytes
two_entries = put_dir_entry (put_dir_entry (λ i. 0) 0 2 24 2 (46 ∷ [])) 24 12 1000 1 (97 ∷ 98 ∷ [])

find_entry_test : find_entry 3 two_entries 1024 (97 ∷ 98 ∷ []) 0 ≡ some 12
unfolding find_entry put_dir_entry write put_name is_named has_name
find_entry_test = refl

-- The digits have an entry at 0, with a name of six bytes.
find_entry-FoundEntry_example :
    FoundEntry digits 1024
      (8 ∷ 9 ∷ 0 ∷ 1 ∷ 2 ∷ 3 ∷ [])
      0
      (find_entry 1024 digits 1024 (8 ∷ 9 ∷ 0 ∷ 1 ∷ 2 ∷ 3 ∷ []) 0)
find_entry-FoundEntry_example =
    find_entry-FoundEntry digits 1024 (8 ∷ 9 ∷ 0 ∷ 1 ∷ 2 ∷ 3 ∷ []) 1024 0 digits-byte (omega arith)
      (omega arith)

-- `a/./b/../c` is `/a/c`, but `/a/..` is `/a`.
abbrev up_and_down : List ℕ
up_and_down = 97 ∷ 47 ∷ 46 ∷ 47 ∷ 98 ∷ 47 ∷ 46 ∷ 46 ∷ 47 ∷ 99 ∷ []

normalize_path_test : normalize_path up_and_down fs ≡ 47 ∷ 97 ∷ 47 ∷ 99 ∷ []
unfolding normalize_path full_path take add_tokens add_token same_string last_slash or_root
normalize_path_test = refl

normalize_path_test_first : normalize_path (47 ∷ 97 ∷ 47 ∷ 46 ∷ 46 ∷ []) fs ≡ 47 ∷ 97 ∷ []
unfolding normalize_path full_path take add_tokens add_token same_string last_slash or_root
normalize_path_test_first = refl

normalize_path-render_example :
    normalize_path up_and_down fs
    ≡ path_of (resolve [] (names [] (take 255 (absolute up_and_down fs))))
normalize_path-render_example = normalize_path-render up_and_down fs

-- An open file of 5 bytes in block 7, of which 3 bytes are read from its position 1 on.
abbrev five_bytes : Bytes
five_bytes = write (write (λ i. 0) 4 4 5) 40 4 7

abbrev reading : Fs ram
reading = record fs {
  open_files =
      λ i. record { inode_num = 12; inode = five_bytes; flags = 1; position = 1; is_open = true };
  disk = λ d k j. j;
}

read_file-IsTransfer_example :
    IsTransfer 3 (i_size five_bytes - 1) digits (read_file 0 digits 3 reading)
read_file-IsTransfer_example = read_file-IsTransfer 0 digits 3 reading (omega arith)

read_file_test : (read_file 0 (λ i. 0) 3 reading).0 ≡ some 3
unfolding read_file is_file is_readable read_rounds get_block read_io read_block find_cached
    read_missing read_sectors write
read_file_test = refl

abbrev reading_contents : ℕ → Bytes
reading_contents = λ k q. q % 512

reading-IsCoherent : IsCoherent reading
unfolding CacheHolds
reading-IsCoherent = record {
  whole = omega arith;
  one_page = omega arith;
  positive = omega arith;
  cached = λ i l v. absurd cc;
}

block_7 : HasBlock reading 7 (reading_contents 0)
unfolding HasBlock Holds
block_7 i l = ((λ j. if ltb j 512 then j else 0), refl, λ j h. ground arith)

first_block :
    (0 < 12)
    × (0 < (i_size five_bytes + 1024 + 2 ^ 32 - 1) % 2 ^ 32 / 1024)
    × (i_block five_bytes 0 ≢ 0)
    × InRange reading (i_block five_bytes 0)
    × HasBlock reading (i_block five_bytes 0) (reading_contents 0)
unfolding write InRange
first_block = (omega arith, omega arith, omega arith, omega arith, block_7)

reading-HasContents : HasContents five_bytes reading_contents reading (i_size five_bytes)
unfolding HasContents write
reading-HasContents k l =
    let first : 0 ≡ k = omega arith in
    subst
      (λ (m : ℕ).
        (m < 12)
        × (m < (i_size five_bytes + 1024 + 2 ^ 32 - 1) % 2 ^ 32 / 1024)
        × (i_block five_bytes m ≢ 0)
        × InRange reading (i_block five_bytes m)
        × HasBlock reading (i_block five_bytes m) (reading_contents m))
      first first_block

is_file_0 : is_file 0 reading ≡ true
unfolding is_file
is_file_0 = refl

is_readable_1 : is_readable 1 ≡ true
unfolding is_readable
is_readable_1 = refl

read_file-IsRange_example :
    IsRange five_bytes reading_contents 1024 (i_size five_bytes) 1 3 (read_file 0 digits 3 reading)
read_file-IsRange_example =
    read_file-IsRange 0 digits 3 reading_contents reading reading-IsCoherent is_file_0 is_readable_1
      (omega arith) (omega arith) reading-HasContents
