-- ===== src/Ext2/DirectoryBlocks.antt =====
-- kernel/src/fs/ext2.c: directories as the blocks of their inodes. A loop over the blocks has one
-- round more than the size has blocks.
use kronosos.Base.{
  ℕ, zero, suc, ◌+◌, ◌/◌, ◌%◌, ◌^◌, Bool, true, false, not, ◌||◌, Option, none, some, List, length,
  ltb, leb, ◌==◌, if◌then◌else◌,
}
use kronosos.Base.Bytes.{Bytes, write, clear_bytes}
use kronosos.Ext2.{Disk, Fs, read_io, write_io}
use kronosos.Ext2.Inodes.{i_size, i_blocks, is_dir, read_inode, write_inode}
use kronosos.Ext2.Bitmaps.{allocate_block}
use kronosos.Ext2.BlockMap.{get_block, set_block}
use kronosos.Ext2.Directories.{find_entry, put_dir_entry, insert_entry, remove_entry, only_dots}

-- the directory's inode with one block more
pub grow : Bytes → ℕ → Bytes
unfolding write
grow inode size =
    write (write (write inode 4 4 (i_size inode + size)) 28 4 (i_blocks inode + size / 512)) 16 4 0

module _ {D : Disk} where
  -- block `index` of a directory in `io_buffer`: its number, whether it was read, and the state
  pub load_block : ℕ → Bytes → ℕ → Fs D → ℕ × Bool × Fs D
  unfolding get_block read_io
  load_block drive inode index s =
      let (block, t) = get_block inode index s in
      let (ok, u) = read_io drive block t in if block == 0 then (0, false, t) else (block, ok, u)

  -- the rounds of a loop over the blocks of a directory
  abbrev pub rounds : Bytes → Fs D → ℕ
  rounds inode s = i_size inode / s.block_size + 1

  pub find_in_blocks : ℕ → ℕ → Bytes → List ℕ → ℕ → ℕ → Fs D → ℕ × Fs D
  unfolding load_block find_entry
  find_in_blocks zero drive inode name offset index s = (0, s)
  find_in_blocks (suc n) drive inode name offset index s =
      let (block, ok, t) = load_block drive inode index s in
      let rest =
        find_in_blocks n drive inode name ((offset + t.block_size) % 2 ^ 32) (index + 1) t in
      if leb (i_size inode) offset
      then (0, s)
      else if not ok
      then (0, t)
      else elim (find_entry t.block_size t.io_buffer t.block_size name 0) [
        | none ↦ rest
        | some ino ↦ (ino, t)
      ]

  unfoldable pub find_file_in_dir : ℕ → ℕ → List ℕ → Fs D → ℕ × Fs D
  unfolding read_inode find_in_blocks
  find_file_in_dir drive dir_ino name s =
      let (ok, inode, t) = read_inode drive dir_ino (λ i. 0) s in
      if dir_ino == 0
      then (0, s)
      else if not ok
      then (0, t)
      else if not (is_dir inode)
      then (0, t)
      else find_in_blocks (rounds inode t) drive inode name 0 0 t

  -- The result of the write, where there was room, with the index of the block that the loop ended at.
  pub insert_in_blocks : ℕ → ℕ → Bytes → ℕ → ℕ → List ℕ → ℕ → ℕ → Fs D → Option Bool × ℕ × Fs D
  unfolding load_block insert_entry write_io
  insert_in_blocks zero drive inode ino type name offset index s = (none, index, s)
  insert_in_blocks (suc n) drive inode ino type name offset index s =
      let (block, ok, t) = load_block drive inode index s in
      let rest =
        insert_in_blocks n drive inode ino type name ((offset + t.block_size) % 2 ^ 32) (index + 1)
          t in
      if leb (i_size inode) offset
      then (none, index, s)
      else if not ok
      then (none, index, t)
      else elim (insert_entry t.block_size t.io_buffer t.block_size ino type name 0) [
        | none ↦ rest
        | some bytes ↦
            let (written, u) = write_io drive block (record t { io_buffer = bytes }) in
            (some written, index, u)
      ]

  -- an entry in a new block
  pub add_block : ℕ → ℕ → Bytes → ℕ → ℕ → List ℕ → ℕ → Fs D → Bool × Fs D
  unfolding allocate_block put_dir_entry clear_bytes write_io set_block grow write_inode
  add_block drive dir_ino inode ino type name index s =
      let (block, t) = allocate_block drive s in
      let bytes =
        put_dir_entry (clear_bytes t.io_buffer t.block_size) 0 ino t.block_size type name in
      let (written, u) = write_io drive block (record t { io_buffer = bytes }) in
      let (placed, inode', v) = set_block inode index block u in
      if block == 0
      then (false, t)
      else if not written
      then (false, u)
      else if not placed
      then (false, v)
      else write_inode drive dir_ino (grow inode' v.block_size) v

  unfoldable pub add_dir_entry : ℕ → ℕ → List ℕ → ℕ → ℕ → Fs D → Bool × Fs D
  unfolding read_inode insert_in_blocks add_block
  add_dir_entry drive dir_ino name ino type s =
      let (ok, inode, t) = read_inode drive dir_ino (λ i. 0) s in
      let (added, index, u) = insert_in_blocks (rounds inode t) drive inode ino type name 0 0 t in
      if (dir_ino == 0) || (ino == 0)
      then (false, s)
      else if ltb 255 (length name)
      then (false, s)
      else if not ok
      then (false, t)
      else if not (is_dir inode)
      then (false, t)
      else elim added [
        | none ↦ add_block drive dir_ino inode ino type name index u
        | some written ↦ (written, u)
      ]

  -- The loop of `ext2_unlink` and of `ext2_rmdir` that removes an entry and writes its block.
  unfoldable pub remove_in_blocks : ℕ → ℕ → Bytes → ℕ → List ℕ → ℕ → ℕ → Fs D → Bool × Fs D
  unfolding load_block remove_entry write_io
  remove_in_blocks zero drive inode ino name offset index s = (false, s)
  remove_in_blocks (suc n) drive inode ino name offset index s =
      let (block, ok, t) = load_block drive inode index s in
      let rest =
        remove_in_blocks n drive inode ino name ((offset + t.block_size) % 2 ^ 32) (index + 1) t in
      if leb (i_size inode) offset
      then (false, s)
      else if not ok
      then (false, t)
      else elim (remove_entry t.block_size t.io_buffer t.block_size ino name 0 none) [
        | none ↦ rest
        | some bytes ↦ write_io drive block (record t { io_buffer = bytes })
      ]

  -- The loop of `ext2_rmdir` over the blocks of the directory.
  unfoldable pub is_empty : ℕ → ℕ → Bytes → ℕ → ℕ → Fs D → Bool × Fs D
  unfolding load_block only_dots
  is_empty zero drive inode offset index s = (true, s)
  is_empty (suc n) drive inode offset index s =
      let (block, ok, t) = load_block drive inode index s in
      let rest = is_empty n drive inode ((offset + t.block_size) % 2 ^ 32) (index + 1) t in
      if leb (i_size inode) offset
      then (true, s)
      else if not ok
      then (true, t)
      else if only_dots t.block_size t.io_buffer t.block_size 0
      then rest
      else (false, t)
