-- ===== src/Ext2/Inodes.antt =====
-- kernel/src/fs/ext2.c: the fields of the packed structures, and inodes on the disk.
pub mod Stored
pub mod Places
use kronosos.Base.{
  ℕ, ◌+◌, ◌-◌, ◌*◌, ◌/◌, ◌%◌, ◌^◌, Bool, true, false, not, leb, ltb, ◌==◌, if◌then◌else◌, bit_and,
}
use kronosos.Base.Bytes.{Bytes, read, write, copy}
use kronosos.Ext2.{Disk, Fs, read_io, write_io}

-- fields of an `ext2_inode_t`, of 128 bytes
abbrev pub i_mode : Bytes → ℕ
i_mode inode = read inode 0 2

abbrev pub i_size : Bytes → ℕ
i_size inode = read inode 4 4

abbrev pub i_links_count : Bytes → ℕ
i_links_count inode = read inode 26 2

abbrev pub i_blocks : Bytes → ℕ
i_blocks inode = read inode 28 4

abbrev pub i_block : Bytes → ℕ → ℕ
i_block inode k = read inode (40 + 4 * k) 4

abbrev pub is_dir : Bytes → Bool
is_dir inode = bit_and (i_mode inode) 0xf000 == 0x4000

-- fields of the `ext2_group_desc_t` of a group, of 32 bytes
abbrev pub bg_block_bitmap : Bytes → ℕ → ℕ
bg_block_bitmap descs bg = read descs (32 * bg) 4

abbrev pub bg_inode_bitmap : Bytes → ℕ → ℕ
bg_inode_bitmap descs bg = read descs (32 * bg + 4) 4

abbrev pub bg_inode_table : Bytes → ℕ → ℕ
bg_inode_table descs bg = read descs (32 * bg + 8) 4

-- where an inode stands: its block, and its offset there, in 32 bits
unfoldable pub inode_block : {D : Disk} → ℕ → Fs D → ℕ
inode_block inode_no s =
    let block_group = (inode_no - 1) / s.inodes_per_group in
    let index = (inode_no - 1) % s.inodes_per_group in
    (bg_inode_table s.group_descs block_group + index / (s.block_size / s.inode_size)) % 2 ^ 32

unfoldable pub inode_offset : {D : Disk} → ℕ → Fs D → ℕ
inode_offset inode_no s =
    let index = (inode_no - 1) % s.inodes_per_group in
    index % (s.block_size / s.inode_size) * s.inode_size % 2 ^ 32

-- the guards of both functions, the pointer not being NULL
unfoldable pub has_inode : {D : Disk} → ℕ → Fs D → Bool
has_inode inode_no s =
    if inode_no == 0 then false else ltb ((inode_no - 1) / s.inodes_per_group) s.groups_count

module _ {D : Disk} where
  -- the result, the inode, and the state; without success the inode is `old`.
  unfoldable pub read_inode : ℕ → ℕ → Bytes → Fs D → Bool × Bytes × Fs D
  unfolding has_inode inode_block inode_offset read_io copy
  read_inode drive inode_no old s =
      let (ok, t) = read_io drive (inode_block inode_no s) s in
      if not (has_inode inode_no s)
      then (false, old, s)
      else if not ok
      then (false, old, t)
      else (true, copy old 0 t.io_buffer (inode_offset inode_no s) 128, t)

  unfoldable pub write_inode : ℕ → ℕ → Bytes → Fs D → Bool × Fs D
  unfolding has_inode inode_block inode_offset read_io write_io copy
  write_inode drive inode_no inode s =
      let (ok, t) = read_io drive (inode_block inode_no s) s in
      let u = record t { io_buffer = copy t.io_buffer (inode_offset inode_no s) inode 0 128 } in
      if not (has_inode inode_no s)
      then (false, s)
      else if not ok
      then (false, t)
      else write_io drive (inode_block inode_no s) u
