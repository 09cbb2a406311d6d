-- ===== src/Ext2/BlockMap.antt =====
-- kernel/src/fs/ext2.c: the blocks of a file, by the pointers of its inode.
use kronosos.Base.{
  ℕ, ◌+◌, ◌-◌, ◌*◌, ◌/◌, ◌%◌, ◌^◌, Bool, true, false, ltb, leb, ◌==◌, if◌then◌else◌,
}
use kronosos.Base.Bytes.{Bytes, read, write, clear_bytes}
use kronosos.Ext2.{Disk, Fs, read_io, write_io}
use kronosos.Ext2.Inodes.{i_size, i_block}
use kronosos.Ext2.Bitmaps.{allocate_block}

-- The inode with a pointer set.
unfoldable pub set_pointer : Bytes → ℕ → ℕ → Bytes
set_pointer inode k block = write inode (40 + 4 * k) 4 block

module _ {D : Disk} where
  -- pointer `i` of a block of pointers; 0 when there is no block, or it cannot be read.
  unfoldable pub follow_pointer : ℕ → ℕ → Fs D → ℕ × Fs D
  unfolding read_io
  follow_pointer block i s =
      let (ok, t) = read_io s.drive_index block s in
      if block == 0 then (0, s) else if ok then (read t.io_buffer (4 * i) 4, t) else (0, t)

  pub get_double : ℕ → ℕ → ℕ → Fs D → ℕ × Fs D
  unfolding follow_pointer
  get_double block i ptrs s =
      let (ind, t) = follow_pointer block (i / ptrs) s in follow_pointer ind (i % ptrs) t

  pub get_triple : ℕ → ℕ → ℕ → Fs D → ℕ × Fs D
  unfolding follow_pointer get_double
  get_triple block i ptrs s =
      let square = ptrs * ptrs % 2 ^ 32 in
      let (dbl, t) = follow_pointer block (i / square) s in get_double dbl (i % square) ptrs t

  -- behind the direct blocks
  pub get_indirect : Bytes → ℕ → Fs D → ℕ × Fs D
  unfolding follow_pointer get_double get_triple
  get_indirect inode i s =
      let ptrs = s.block_size / 4 in
      let square = ptrs * ptrs % 2 ^ 32 in
      if ltb i ptrs
      then follow_pointer (i_block inode 12) i s
      else if ltb (i - ptrs) square
      then get_double (i_block inode 13) (i - ptrs) ptrs s
      else if ltb (i - ptrs - square) (square * ptrs % 2 ^ 32)
      then get_triple (i_block inode 14) (i - ptrs - square) ptrs s
      else (0, s)

  -- `get_block_from_inode`: the block; 0 goes with the result false.
  unfoldable pub get_block : Bytes → ℕ → Fs D → ℕ × Fs D
  unfolding get_indirect
  get_block inode block_idx s =
      let max_blocks = (i_size inode + s.block_size + 2 ^ 32 - 1) % 2 ^ 32 / s.block_size in
      if leb max_blocks block_idx
      then (0, s)
      else if ltb block_idx 12
      then (i_block inode block_idx, s)
      else get_indirect inode (block_idx - 12) s

  -- the pointer in the indirect block, once there is one
  pub set_indirect : Bytes → ℕ → ℕ → Fs D → Bool × Bytes × Fs D
  unfolding read_io write_io
  set_indirect inode i block_no s =
      let (ok, t) = read_io s.drive_index (i_block inode 12) s in
      let (written, u) =
        write_io s.drive_index (i_block inode 12)
          (record t { io_buffer = write t.io_buffer (4 * i) 4 block_no }) in
      if ok then (written, inode, u) else (false, inode, t)

  -- The inode gets an indirect block.
  pub add_indirect : Bytes → ℕ → ℕ → Fs D → Bool × Bytes × Fs D
  unfolding allocate_block clear_bytes write_io set_pointer set_indirect
  add_indirect inode i block_no s =
      let (new, t) = allocate_block s.drive_index s in
      let inode' = set_pointer inode 12 new in
      let (_, u) =
        write_io s.drive_index new
          (record t { io_buffer = clear_bytes t.io_buffer t.block_size }) in
      if new == 0 then (false, inode', t) else set_indirect inode' i block_no u

  -- `set_block_in_inode`: the result, the inode and the state
  unfoldable pub set_block : Bytes → ℕ → ℕ → Fs D → Bool × Bytes × Fs D
  unfolding set_pointer set_indirect add_indirect
  set_block inode block_idx block_no s =
      if ltb block_idx 12
      then (true, set_pointer inode block_idx block_no, s)
      else if ltb (block_idx - 12) (s.block_size / 4)
      then (if i_block inode 12 == 0
          then add_indirect inode (block_idx - 12) block_no s
          else set_indirect inode (block_idx - 12) block_no s)
      else (false, inode, s)
