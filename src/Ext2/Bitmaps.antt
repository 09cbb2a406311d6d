-- ===== src/Ext2/Bitmaps.antt =====
-- kernel/src/fs/ext2.c: the bitmaps of used blocks and inodes.
pub mod Search
use kronosos.Base.{
  ℕ, zero, suc, ◌+◌, ◌-◌, ◌*◌, ◌/◌, ◌%◌, ◌^◌, Bool, true, false, not, ◌&&◌, ◌||◌, Option, none,
  some, ltb, leb, ◌==◌, if◌then◌else◌, bit_and, bit_or,
}
use kronosos.Base.Bytes.{Bytes, read, write, clear_bytes}
use kronosos.Ext2.{Disk, Fs, read_io, write_io, write_block}
use kronosos.Ext2.Inodes.{bg_block_bitmap, bg_inode_bitmap, write_inode}

-- `n` rounds of the search in a byte, from bit `j` on
unfoldable pub find_zero : ℕ → ℕ → ℕ → Option ℕ
find_zero byte zero j = none
find_zero byte (suc n) j =
    let rest = find_zero byte n (j + 1) in if bit_and byte (2 ^ j) == 0 then some j else rest

-- `n` rounds of the search in the bytes, from byte `i` on
unfoldable pub find_free_from : Bytes → ℕ → ℕ → Option ℕ
unfolding find_zero
find_free_from bitmap zero i = none
find_free_from bitmap (suc n) i =
    let rest = find_free_from bitmap n (i + 1) in
    if bitmap i == 0xff
    then rest
    else elim (find_zero (bitmap i) 8 0) [ none ↦ rest | some j ↦ some (i * 8 + j) ]

-- `none` is -1
unfoldable pub find_free_bit : Bytes → ℕ → Option ℕ
unfolding find_free_from
find_free_bit bitmap size = find_free_from bitmap size 0

-- `bitmap[bit / 8] |= (1 << (bit % 8))`
unfoldable pub mark_bit : Bytes → ℕ → Bytes
mark_bit bitmap bit =
    λ i. if i == bit / 8 then bit_or (bitmap i) (2 ^ (bit % 8)) % 2 ^ 8 else bitmap i

-- `x--` of an unsigned field of `n` bytes
pub decrement : Bytes → ℕ → ℕ → Bytes
unfolding write
decrement m a n = write m a n (read m a n + 256 ^ n - 1)

module _ {D : Disk} where
  -- the end of `ext2_allocate_block`, when the bitmap has been written
  pub take_block : ℕ → ℕ → ℕ → Fs D → ℕ × Fs D
  unfolding decrement clear_bytes write_io
  take_block drive bg bit s =
      let block_no = (bg * s.blocks_per_group + bit + read s.superblock 20 4) % 2 ^ 32 in
      let t = record s {
        superblock = decrement s.superblock 12 4;
        group_descs = decrement s.group_descs (32 * bg + 12) 2;
        io_buffer = clear_bytes s.io_buffer s.block_size;
      } in
      (block_no, (write_io drive block_no t).1)

  -- a free bit of the bitmap in `io_buffer` is set on the disk
  pub claim_block : ℕ → ℕ → ℕ → Fs D → ℕ × Fs D
  unfolding mark_bit write_io take_block
  claim_block drive bg bit s =
      let (ok, t) =
        write_io drive (bg_block_bitmap s.group_descs bg)
          (record s { io_buffer = mark_bit s.io_buffer bit }) in
      if ok then take_block drive bg bit t else (0, t)

  -- `n` rounds over the block groups, from group `bg` on
  pub search_blocks : ℕ → ℕ → ℕ → Fs D → ℕ × Fs D
  unfolding read_io find_free_bit claim_block
  search_blocks drive zero bg s = (0, s)
  search_blocks drive (suc n) bg s =
      let (ok, t) = read_io drive (bg_block_bitmap s.group_descs bg) s in
      let skipped = search_blocks drive n (bg + 1) s in
      let missed = search_blocks drive n (bg + 1) t in
      if read s.group_descs (32 * bg + 12) 2 == 0
      then skipped
      else if not ok
      then missed
      else elim (find_free_bit t.io_buffer t.block_size) [
        | none ↦ missed
        | some bit ↦ claim_block drive bg bit t
      ]

  unfoldable pub allocate_block : ℕ → Fs D → ℕ × Fs D
  unfolding search_blocks
  allocate_block drive s =
      if not s.mounted
      then (0, s)
      else if read s.superblock 12 4 == 0
      then (0, s)
      else search_blocks drive s.groups_count 0 s

  -- the end of `ext2_allocate_inode`: the inode is zeroed.
  pub take_inode : ℕ → ℕ → ℕ → Fs D → ℕ × Fs D
  unfolding decrement write_inode
  take_inode drive bg bit s =
      let inode_no = (bg * s.inodes_per_group + bit + 1) % 2 ^ 32 in
      let t = record s {
        superblock = decrement s.superblock 16 4;
        group_descs = decrement s.group_descs (32 * bg + 14) 2;
      } in
      (inode_no, (write_inode drive inode_no (λ i. 0) t).1)

  pub claim_inode : ℕ → ℕ → ℕ → Fs D → ℕ × Fs D
  unfolding mark_bit write_io take_inode
  claim_inode drive bg bit s =
      let (ok, t) =
        write_io drive (bg_inode_bitmap s.group_descs bg)
          (record s { io_buffer = mark_bit s.io_buffer bit }) in
      if ok then take_inode drive bg bit t else (0, t)

  pub search_inodes : ℕ → ℕ → ℕ → Fs D → ℕ × Fs D
  unfolding read_io find_free_bit claim_inode
  search_inodes drive zero bg s = (0, s)
  search_inodes drive (suc n) bg s =
      let (ok, t) = read_io drive (bg_inode_bitmap s.group_descs bg) s in
      let skipped = search_inodes drive n (bg + 1) s in
      let missed = search_inodes drive n (bg + 1) t in
      if read s.group_descs (32 * bg + 14) 2 == 0
      then skipped
      else if not ok
      then missed
      else elim (find_free_bit t.io_buffer t.block_size) [
        | none ↦ missed
        | some bit ↦ claim_inode drive bg bit t
      ]

  unfoldable pub allocate_inode : ℕ → Fs D → ℕ × Fs D
  unfolding search_inodes
  allocate_inode drive s =
      if not s.mounted
      then (0, s)
      else if read s.superblock 16 4 == 0
      then (0, s)
      else search_inodes drive s.groups_count 0 s
