-- ===== src/Ext2/Remove.antt =====
-- kernel/src/fs/ext2.c: `ext2_unlink` and `ext2_rmdir`. Paths are not NULL.
use kronosos.Base.{
  ℕ, ◌+◌, ◌-◌, ◌*◌, ◌/◌, ◌^◌, Bool, false, not, none, some, List, [], ◌∷◌, ◌==◌, if◌then◌else◌,
}
use kronosos.Base.Bytes.{Bytes, read, write}
use kronosos.Ext2.{Disk, Fs}
use kronosos.Ext2.Inodes.{i_links_count, is_dir, read_inode, write_inode}
use kronosos.Ext2.DirectoryBlocks.{find_file_in_dir, rounds, remove_in_blocks, is_empty}
use kronosos.Ext2.Paths.{
  last_slash, same_string, normalize_path, parent_path, file_name, lookup_path,
}

-- `i_links_count--`, and `i_dtime` of a file without links
pub drop_link : Bytes → Bytes
unfolding write
drop_link inode =
    let inode' = write inode 26 2 (i_links_count inode + 2 ^ 16 - 1) in
    if i_links_count inode' == 0 then write inode' 20 4 0 else inode'

module _ {D : Disk} where
  -- the entry of a file is removed from its directory, and the file has a link less.
  pub unlink_from : ℕ → ℕ → List ℕ → Bytes → Fs D → Bool × Fs D
  unfolding read_inode remove_in_blocks drop_link write_inode
  unlink_from dir_ino file_ino name inode s =
      let (ok, dir_inode, t) = read_inode s.drive_index dir_ino (λ i. 0) s in
      let (removed, u) =
        remove_in_blocks (rounds dir_inode t) t.drive_index dir_inode file_ino name 0 0 t in
      if not ok
      then (false, t)
      else if removed
      then write_inode u.drive_index file_ino (drop_link inode) u
      else (false, u)

  -- `ext2_unlink` behind the search for the last slash
  pub unlink_name : List ℕ → List ℕ → Fs D → Bool × Fs D
  unfolding lookup_path find_file_in_dir read_inode unlink_from
  unlink_name dir_path name s =
      let (dir_ino, t) = lookup_path s.drive_index dir_path s in
      let (file_ino, u) = find_file_in_dir t.drive_index dir_ino name t in
      let (ok, inode, v) = read_inode u.drive_index file_ino (λ i. 0) u in
      if dir_ino == 0
      then (false, t)
      else if file_ino == 0
      then (false, u)
      else if not ok
      then (false, v)
      else if is_dir inode
      then (false, v)
      else unlink_from dir_ino file_ino name inode v

  unfoldable pub unlink : List ℕ → Fs D → Bool × Fs D
  unfolding normalize_path last_slash parent_path file_name unlink_name
  unlink path s =
      let normal = normalize_path path s in
      if not s.mounted then (false, s) else elim (last_slash normal) [
        | none ↦ (false, s)
        | some k ↦ unlink_name (parent_path k normal) (file_name k normal) s
      ]

  -- the end of `ext2_rmdir`: both inodes and the count of directories
  pub finish_rmdir : ℕ → ℕ → Bytes → Bytes → Fs D → Bool × Fs D
  unfolding write write_inode
  finish_rmdir parent_ino dir_ino parent_inode dir_inode s =
      let count = 32 * ((dir_ino - 1) / s.inodes_per_group) + 16 in
      let t = record s {
        group_descs = write s.group_descs count 2 (read s.group_descs count 2 + 2 ^ 16 - 1);
      } in
      let (ok, u) =
        write_inode t.drive_index parent_ino
          (write parent_inode 26 2 (i_links_count parent_inode + 2 ^ 16 - 1)) t in
      if ok
      then write_inode u.drive_index dir_ino (write (write dir_inode 26 2 0) 20 4 0) u
      else (false, u)

  -- the entry of an empty directory is removed from its parent.
  pub rmdir_from : ℕ → ℕ → List ℕ → Bytes → Fs D → Bool × Fs D
  unfolding read_inode remove_in_blocks finish_rmdir
  rmdir_from parent_ino dir_ino name dir_inode s =
      let (ok, parent_inode, t) = read_inode s.drive_index parent_ino (λ i. 0) s in
      let (removed, u) =
        remove_in_blocks (rounds parent_inode t) t.drive_index parent_inode dir_ino name 0 0 t in
      if not ok
      then (false, t)
      else if removed
      then finish_rmdir parent_ino dir_ino parent_inode dir_inode u
      else (false, u)

  pub rmdir_name : List ℕ → List ℕ → Fs D → Bool × Fs D
  unfolding lookup_path find_file_in_dir read_inode is_empty rmdir_from
  rmdir_name parent_path name s =
      let (parent_ino, t) = lookup_path s.drive_index parent_path s in
      let (dir_ino, u) = find_file_in_dir t.drive_index parent_ino name t in
      let (ok, inode, v) = read_inode u.drive_index dir_ino (λ i. 0) u in
      let (empty, w) = is_empty (rounds inode v) v.drive_index inode 0 0 v in
      if parent_ino == 0
      then (false, t)
      else if dir_ino == 0
      then (false, u)
      else if not ok
      then (false, v)
      else if not (is_dir inode)
      then (false, v)
      else if empty
      then rmdir_from parent_ino dir_ino name inode w
      else (false, w)

  unfoldable pub rmdir : List ℕ → Fs D → Bool × Fs D
  unfolding normalize_path last_slash parent_path file_name same_string rmdir_name
  rmdir path s =
      let normal = normalize_path path s in
      if not s.mounted then (false, s) else elim (last_slash normal) [
        | none ↦ (false, s)
        | some k ↦
            if same_string normal (47 ∷ [])
            then (false, s)
            else rmdir_name (parent_path k normal) (file_name k normal) s
      ]
