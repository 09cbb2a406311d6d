-- ===== src/Ext2/Create.antt =====
-- kernel/src/fs/ext2.c: `create_file`, `ext2_create_device`, `ext2_mkdir` and `ext2_open`. Paths are
-- not NULL.
use kronosos.Base.{
  ℕ, ◌+◌, ◌-◌, ◌*◌, ◌/◌, Bool, false, not, Option, none, some, List, [], ◌∷◌, ◌==◌, if◌then◌else◌,
  bit_and, bit_or,
}
use kronosos.Base.Bytes.{Bytes, read, write, clear_bytes}
use kronosos.Ext2.{Disk, Fs, write_io}
use kronosos.Ext2.Inodes.{i_links_count, read_inode, write_inode}
use kronosos.Ext2.Bitmaps.{allocate_block, allocate_inode}
use kronosos.Ext2.BlockMap.{set_pointer}
use kronosos.Ext2.Directories.{put_dir_entry}
use kronosos.Ext2.DirectoryBlocks.{find_file_in_dir, add_dir_entry}
use kronosos.Ext2.Paths.{last_slash, normalize_path, parent_path, file_name, lookup_path}
use kronosos.Ext2.Files.{max_files, find_handle, open_inode}

-- the bits of `i_mode` for the type of a directory entry
unfoldable pub mode_of_type : ℕ → Option ℕ
mode_of_type type =
    if type == 1
    then some 0x8000
    else if type == 2
    then some 0x4000
    else if type == 3
    then some 0x2000
    else if type == 4
    then some 0x6000
    else none

-- the inode of a new file
unfoldable pub new_inode : ℕ → ℕ → Bytes
unfolding write
new_inode file_type mode = write (write (λ i. 0) 0 2 (bit_or file_type (bit_and mode 0x1ff))) 26 2 1

-- the type of the directory entry for a device
unfoldable pub device_type : ℕ → Option ℕ
device_type mode =
    if bit_and mode 0x2000 == 0x2000
    then some 3
    else if bit_and mode 0x6000 == 0x6000
    then some 4
    else none

-- the first block of a directory
pub first_entries : Bytes → ℕ → ℕ → ℕ → Bytes
unfolding clear_bytes put_dir_entry
first_entries buffer size ino parent =
    put_dir_entry (put_dir_entry (clear_bytes buffer size) 0 ino 12 2 (46 ∷ [])) 12 parent
      (size - 12) 2 (46 ∷ 46 ∷ [])

-- the inode of a directory that has its first block
pub directory_inode : Bytes → ℕ → ℕ → Bytes
unfolding set_pointer write
directory_inode inode block size =
    write (write (write (set_pointer inode 0 block) 4 4 size) 28 4 (size / 512)) 26 2 2

module _ {D : Disk} where
  -- The inode and the entry of a file in a directory that does not have the name.
  pub make_file : ℕ → ℕ → List ℕ → ℕ → ℕ → Fs D → Bool × Fs D
  unfolding allocate_inode mode_of_type new_inode write_inode add_dir_entry
  make_file drive dir_ino name mode type s =
      let (ino, t) = allocate_inode drive s in
      if ino == 0 then (false, t) else elim (mode_of_type type) [
        | none ↦ (false, t)
        | some file_type ↦
            let (ok, u) = write_inode drive ino (new_inode file_type mode) t in
            if ok then add_dir_entry drive dir_ino name ino type u else (false, u)
      ]

  unfoldable pub create_file : ℕ → List ℕ → ℕ → ℕ → Fs D → Bool × Fs D
  unfolding normalize_path last_slash parent_path file_name lookup_path find_file_in_dir make_file
  create_file drive path mode type s =
      let normal = normalize_path path s in
      elim (last_slash normal) [
        | none ↦ (false, s)
        | some k ↦
            let (dir_ino, t) = lookup_path drive (parent_path k normal) s in
            let (found, u) = find_file_in_dir drive dir_ino (file_name k normal) t in
            if dir_ino == 0
            then (false, t)
            else if found == 0
            then make_file drive dir_ino (file_name k normal) mode type u
            else (false, u)
      ]

  pub create_device : ℕ → List ℕ → ℕ → ℕ → Fs D → Bool × Fs D
  unfolding device_type create_file lookup_path read_inode set_pointer write_inode
  create_device drive path mode dev s =
      if not s.mounted then (false, s) else elim (device_type mode) [
        | none ↦ (false, s)
        | some type ↦
            let (created, t) = create_file drive path mode type s in
            let (ino, u) = lookup_path drive path t in
            let (ok, inode, v) = read_inode drive ino (λ i. 0) u in
            if not created
            then (false, t)
            else if ino == 0
            then (false, u)
            else if ok
            then write_inode drive ino (set_pointer inode 0 dev) v
            else (false, v)
      ]

  -- The end of `ext2_mkdir`: the parent has a link more.
  pub link_parent : ℕ → ℕ → Fs D → Bool × Fs D
  unfolding read_inode write write_inode
  link_parent ino parent_ino s =
      let (ok, parent, t) = read_inode s.drive_index parent_ino (λ i. 0) s in
      let count = 32 * ((ino - 1) / t.inodes_per_group) + 16 in
      let u = record t {
        group_descs = write t.group_descs count 2 (read t.group_descs count 2 + 1);
      } in
      if ok
      then write_inode t.drive_index parent_ino (write parent 26 2 (i_links_count parent + 1)) u
      else (false, t)

  -- the block of the entries `.` and `..`, and the directory's inode
  pub fill_directory : ℕ → ℕ → Bytes → Fs D → Bool × Fs D
  unfolding allocate_block first_entries write_io directory_inode write_inode link_parent
  fill_directory ino parent_ino inode s =
      let (block, t) = allocate_block s.drive_index s in
      let (written, u) =
        write_io t.drive_index block
          (record t { io_buffer = first_entries t.io_buffer t.block_size ino parent_ino }) in
      let (ok, v) = write_inode u.drive_index ino (directory_inode inode block u.block_size) u in
      if block == 0
      then (false, t)
      else if not written
      then (false, u)
      else if ok
      then link_parent ino parent_ino v
      else (false, v)

  -- a directory that has been created
  pub init_directory : List ℕ → ℕ → Fs D → Bool × Fs D
  unfolding normalize_path last_slash parent_path lookup_path read_inode fill_directory
  init_directory path ino s =
      let normal = normalize_path path s in
      elim (last_slash normal) [
        | none ↦ (false, s)
        | some k ↦
            let (parent_ino, t) = lookup_path s.drive_index (parent_path k normal) s in
            let (ok, inode, u) = read_inode t.drive_index ino (λ i. 0) t in
            if parent_ino == 0
            then (false, t)
            else if ok
            then fill_directory ino parent_ino inode u
            else (false, u)
      ]

  unfoldable pub mkdir : List ℕ → ℕ → Fs D → Bool × Fs D
  unfolding create_file lookup_path init_directory
  mkdir path mode s =
      let (created, t) = create_file s.drive_index path mode 2 s in
      let (ino, u) = lookup_path t.drive_index path t in
      if not s.mounted
      then (false, s)
      else if not created
      then (false, t)
      else if ino == 0
      then (false, u)
      else init_directory path ino u

  -- a path that was not found, with `EXT2_O_CREAT`
  pub open_new : ℕ → List ℕ → ℕ → Fs D → Option ℕ × Fs D
  unfolding create_file lookup_path open_inode
  open_new fd path flags s =
      let (created, t) = create_file s.drive_index path 420 1 s in
      let (ino, u) = lookup_path t.drive_index path t in
      if not created then (none, t) else if ino == 0 then (none, u) else open_inode fd ino flags u

  -- `ext2_open`: the descriptor, and `none` for -1
  unfoldable pub open_file : List ℕ → ℕ → Fs D → Option ℕ × Fs D
  unfolding find_handle lookup_path open_inode open_new
  open_file path flags s =
      if not s.mounted then (none, s) else elim (find_handle s.open_files max_files 0) [
        | none ↦ (none, s)
        | some fd ↦
            let (ino, t) = lookup_path s.drive_index path s in
            if not (ino == 0)
            then open_inode fd ino flags t
            else if bit_and flags 0x100 == 0
            then (none, t)
            else open_new fd path flags t
      ]
