-- ===== src/Ext2/Files.antt =====
-- kernel/src/fs/ext2.c: open files. A file descriptor is the number as it is without its sign, so that
-- a negative one is out of the table; buffers are not NULL. A loop over the blocks of a transfer has
-- the number of bytes as fuel, since each round moves at least one.
pub mod Transfers
pub mod Chunks
pub mod Rounds
pub mod Contents
use kronosos.Base.{
  ℕ, zero, suc, ◌+◌, ◌-◌, ◌/◌, ◌%◌, ◌^◌, Bool, true, false, not, ◌&&◌, ◌||◌, Option, none, some,
  ltb, leb, ◌==◌, if◌then◌else◌, bit_and,
}
use kronosos.Base.Bytes.{Bytes, write, copy, clear_bytes}
use kronosos.Ext2.{Disk, Fs, OpenFile, read_io, write_io}
use kronosos.Ext2.Inodes.{i_size, i_blocks, is_dir, read_inode, write_inode}
use kronosos.Ext2.Bitmaps.{allocate_block}
use kronosos.Ext2.BlockMap.{get_block, set_block}

abbrev pub max_files : ℕ
max_files = 64

-- `n` rounds of the search for a file that is not open, from entry `i` on
unfoldable pub find_handle : (ℕ → OpenFile) → ℕ → ℕ → Option ℕ
find_handle files zero i = none
find_handle files (suc n) i =
    let rest = find_handle files n (i + 1) in if not (files i).is_open then some i else rest

-- The flags let the file be written.
unfoldable pub is_writable : ℕ → Bool
is_writable flags = not (bit_and flags 3 == 0)

-- The code's test, with 2 for `EXT2_O_WRONLY` and 3 for `EXT2_O_RDWR`.
unfoldable pub is_readable : ℕ → Bool
is_readable flags = not (not (bit_and flags 2 == 0) && (bit_and flags 3 == 0))

-- what one round of a transfer moves
abbrev pub chunk : ℕ → ℕ → ℕ → ℕ
chunk size offset remaining = if ltb remaining (size - offset) then remaining else size - offset

module _ {D : Disk} where
  pub set_file : ℕ → OpenFile → Fs D → Fs D
  set_file fd file s = record s { open_files = λ i. if i == fd then file else s.open_files i }

  unfoldable pub is_file : ℕ → Fs D → Bool
  is_file fd s = if not s.mounted then false else ltb fd max_files && (s.open_files fd).is_open

  -- the end of `ext2_open`, with the inode that was found: the descriptor, and `none` for -1
  unfoldable pub open_inode : ℕ → ℕ → ℕ → Fs D → Option ℕ × Fs D
  unfolding read_inode is_writable set_file
  open_inode fd inode_no flags s =
      let (ok, inode, t) = read_inode s.drive_index inode_no (λ i. 0) s in
      if not ok then (none, t) else if is_dir inode && is_writable flags then (none, t) else (
        some fd,
        set_file fd
            (record {
              inode_num = inode_no;
              inode = inode;
              flags = flags;
              position = 0;
              is_open = true;
            })
            t,
      )

  unfoldable pub close_file : ℕ → Fs D → Bool × Fs D
  unfolding is_file set_file
  close_file fd s =
      if is_file fd s
      then (true, set_file fd (record (s.open_files fd) { is_open = false }) s)
      else (false, s)

  -- `n` rounds of the loop of `ext2_read`: the number of bytes that were read, the buffer and the state
  unfoldable pub read_rounds : ℕ → Bytes → ℕ → ℕ → Bytes → ℕ → ℕ → Fs D → ℕ × Bytes × Fs D
  unfolding get_block read_io copy
  read_rounds zero inode block_idx offset buf done remaining s = (done, buf, s)
  read_rounds (suc n) inode block_idx offset buf done remaining s =
      let (block, t) = get_block inode block_idx s in
      let (ok, u) = read_io t.drive_index block t in
      let k = chunk u.block_size offset remaining in
      let rest =
        read_rounds n inode ((block_idx + 1) % 2 ^ 32) 0 (copy buf done u.io_buffer offset k)
          (done + k) (remaining - k) u in
      if remaining == 0
      then (done, buf, s)
      else if block == 0
      then (done, buf, t)
      else if ok
      then rest
      else (done, buf, u)

  -- the end of `ext2_read`
  pub finish_read : ℕ → ℕ → Fs D → Fs D
  unfolding set_file write_inode write
  finish_read fd done s =
      let file = s.open_files fd in
      let file' = record file {
        position = (file.position + done) % 2 ^ 64;
        inode = write file.inode 8 4 0;
      } in
      (write_inode s.drive_index file'.inode_num file'.inode (set_file fd file' s)).1

  -- `ext2_read` into a buffer: the number of bytes, where `none` is -1, the buffer and the state
  unfoldable pub read_file : ℕ → Bytes → ℕ → Fs D → Option ℕ × Bytes × Fs D
  unfolding is_file is_readable read_rounds finish_read
  read_file fd buffer size s =
      let file = s.open_files fd in
      let limited =
        if ltb (i_size file.inode) ((file.position + size) % 2 ^ 64)
        then i_size file.inode - file.position
        else size in
      let (done, buf, t) =
        read_rounds limited file.inode (file.position / s.block_size % 2 ^ 32)
          (file.position % s.block_size) buffer 0 limited s in
      if not (is_file fd s)
      then (none, buffer, s)
      else if not (is_readable file.flags)
      then (none, buffer, s)
      else if leb (i_size file.inode) file.position
      then (some 0, buffer, s)
      else (some done, buf, finish_read fd done t)

  -- a block of its own for the place in the file: the block, where one was put into the inode, the inode
  -- and the state
  pub extend : Bytes → ℕ → Fs D → Option ℕ × Bytes × Fs D
  unfolding allocate_block clear_bytes write_io set_block write
  extend inode block_idx s =
      let (block, t) = allocate_block s.drive_index s in
      let (_, u) =
        write_io t.drive_index block
          (record t { io_buffer = clear_bytes t.io_buffer t.block_size }) in
      let (placed, inode', v) = set_block inode block_idx block u in
      if block == 0
      then (none, inode, t)
      else if placed
      then (some block, write inode' 28 4 (i_blocks inode' + v.block_size / 512), v)
      else (none, inode', v)

  -- the block of the place in the file, which is made where there is none
  pub writable_block : Bytes → ℕ → Fs D → Option ℕ × Bytes × Fs D
  unfolding get_block extend
  writable_block inode block_idx s =
      let (block, t) = get_block inode block_idx s in
      if block == 0 then extend inode block_idx t else (some block, inode, t)

  -- `n` rounds of the loop of `ext2_write`: the number of bytes written, the inode and the state
  unfoldable pub write_rounds : ℕ → Bytes → ℕ → ℕ → Bytes → ℕ → ℕ → Fs D → ℕ × Bytes × Fs D
  unfolding writable_block read_io write_io copy
  write_rounds zero inode block_idx offset buf done remaining s = (done, inode, s)
  write_rounds (suc n) inode block_idx offset buf done remaining s =
      let (found, inode', t) = writable_block inode block_idx s in
      let block : ℕ = elim found [ none ↦ 0 | some b ↦ b ] in
      let partial = ltb 0 offset || ltb remaining t.block_size in
      let (loaded, u) = if partial then read_io t.drive_index block t else (true, t) in
      let k = chunk u.block_size offset remaining in
      let (written, v) =
        write_io u.drive_index block
          (record u { io_buffer = copy u.io_buffer offset buf done k }) in
      let rest =
        write_rounds n inode' ((block_idx + 1) % 2 ^ 32) 0 buf (done + k) (remaining - k) v in
      if remaining == 0 then (done, inode, s) else elim found [
        | none ↦ (done, inode', t)
        | some b ↦
            if not loaded then (done, inode', u) else if written then rest else (done, inode', v)
      ]

  -- the end of `ext2_write`, with the inode as the loop left it
  pub finish_write : ℕ → ℕ → Bytes → Fs D → Fs D
  unfolding set_file write_inode write
  finish_write fd done inode s =
      let file = s.open_files fd in
      let position = (file.position + done) % 2 ^ 64 in
      let sized = if ltb (i_size inode) position then write inode 4 4 position else inode in
      let file' = record file { position = position; inode = write sized 16 4 0 } in
      (write_inode s.drive_index file'.inode_num file'.inode (set_file fd file' s)).1

  unfoldable pub write_file : ℕ → Bytes → ℕ → Fs D → Option ℕ × Fs D
  unfolding is_file is_writable write_rounds finish_write
  write_file fd buffer size s =
      let file = s.open_files fd in
      let (done, inode, t) =
        write_rounds size file.inode (file.position / s.block_size % 2 ^ 32)
          (file.position % s.block_size) buffer 0 size s in
      if not (is_file fd s)
      then (none, s)
      else if not (is_writable file.flags)
      then (none, s)
      else (some done, finish_write fd done inode t)
