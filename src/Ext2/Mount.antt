-- ===== src/Ext2/Mount.antt =====
-- kernel/src/fs/ext2.c: `ext2_init`, `ext2_mount` and `ext2_unmount`. A division by 0, which faults,
-- gives 0 here.
use kronosos.Base.{
  ℕ, zero, suc, ◌+◌, ◌-◌, ◌*◌, ◌/◌, ◌%◌, ◌^◌, Bool, true, false, not, ◌&&◌, ◌||◌, none, some, [],
  ◌∷◌, ltb, ◌==◌, if◌then◌else◌,
}
use kronosos.Base.Bytes.{read, copy}
use kronosos.Pmm
use kronosos.Pmm.{Pmm}
use kronosos.Ext2.{Disk, Fs, cache_size, read_block, write_block}

module _ {D : Disk} where
  -- `memset` of the file system's state
  pub clear_state : Fs D → Fs D
  clear_state s = record s {
    drive_index = 0;
    block_size = 0;
    blocks_per_group = 0;
    inodes_per_group = 0;
    inode_size = 0;
    groups_count = 0;
    blocks_count = 0;
    inodes_count = 0;
    superblock_page = 0;
    group_descs_page = 0;
    open_files =
        λ i. record { inode_num = 0; inode = λ j. 0; flags = 0; position = 0; is_open = false };
    current_dir = [];
    cache = λ i. record { block_no = 0; page = 0; bytes = λ j. 0; dirty = false; valid = false };
  }

  unfoldable pub init : Fs D → Bool × Fs D
  unfolding clear_state
  init s =
      let (page, pmm') = Pmm.alloc_pages s.pmm 2 in
      let t = record (clear_state s) { io_page = page; pmm = pmm' } in
      if page == 0
      then (false, t)
      else (true, record t { current_dir = 47 ∷ []; initialized = true })

  -- the fields that `ext2_mount` takes from the superblock in `io_buffer`
  pub set_parameters : Fs D → Fs D
  set_parameters s =
      let per_group = read s.io_buffer 32 4 in
      record s {
        block_size = 1024 * 2 ^ read s.io_buffer 24 4 % 2 ^ 32;
        blocks_per_group = per_group;
        inodes_per_group = read s.io_buffer 40 4;
        inode_size = if ltb 0 (read s.io_buffer 88 2) then read s.io_buffer 88 2 else 128;
        groups_count = (read s.io_buffer 4 4 + per_group + 2 ^ 32 - 1) % 2 ^ 32 / per_group;
      }

  -- the number of blocks of the group descriptors
  abbrev pub desc_blocks : Fs D → ℕ
  desc_blocks s = (32 * s.groups_count % 2 ^ 32 + s.block_size + 2 ^ 32 - 1) % 2 ^ 32 / s.block_size

  -- `n` rounds of the loop that reads the group descriptors, from block `i` of them on
  pub read_descs : ℕ → ℕ → ℕ → ℕ → Fs D → Bool × Fs D
  unfolding read_block copy
  read_descs zero drive first i s = (true, s)
  read_descs (suc n) drive first i s =
      let at = i * s.block_size % 2 ^ 32 in
      let (ok, bytes, t) =
        read_block drive ((first + i) % 2 ^ 32) (λ j. s.group_descs (at + j)) s in
      let u = record t {
        group_descs = λ j. if ltb j at then t.group_descs j else bytes (j - at);
      } in
      let rest = read_descs n drive first (i + 1) u in if ok then rest else (false, u)

  -- `n` rounds of the loop that gives the cache entries their pages, from entry `i` on
  pub add_pages : ℕ → ℕ → Fs D → Fs D
  add_pages zero i s = s
  add_pages (suc n) i s =
      let e = s.cache i in
      let (page, pmm') = Pmm.alloc_page s.pmm in
      let t = record s {
        pmm = pmm';
        cache = λ j. if j == i then record e { page = page } else s.cache j;
      } in
      add_pages n (i + 1) (if e.page == 0 then t else s)

  -- the last step of `ext2_mount`
  pub enter : Fs D → Fs D
  unfolding add_pages
  enter s =
      let t = add_pages cache_size 0 s in
      record t {
        mounted = true;
        current_dir = 47 ∷ [];
        blocks_count = read t.superblock 4 4;
        inodes_count = read t.superblock 0 4;
      }

  -- the group descriptors, once the superblock has been copied
  pub load_descs : ℕ → Fs D → Bool × Fs D
  unfolding read_descs enter
  load_descs drive s =
      let (page, pmm') =
        Pmm.alloc_pages s.pmm ((desc_blocks s * s.block_size + 4095) % 2 ^ 32 / 4096) in
      let t = record s { group_descs_page = page; pmm = pmm' } in
      let (ok, u) = read_descs (desc_blocks s) drive ((read s.io_buffer 20 4 + 1) % 2 ^ 32) 0 t in
      if page == 0
      then (false, record t { pmm = Pmm.free_page t.pmm s.superblock_page })
      else if ok
      then (true, enter u)
      else (false, record u { pmm = Pmm.free_page (Pmm.free_page u.pmm page) s.superblock_page })

  -- The superblock is copied to a page of its own.
  pub load_superblock : ℕ → Fs D → Bool × Fs D
  unfolding set_parameters copy load_descs
  load_superblock drive s =
      let t = set_parameters s in
      let (page, pmm') = Pmm.alloc_page t.pmm in
      let u = record t {
        superblock_page = page;
        pmm = pmm';
        superblock = copy t.superblock 0 t.io_buffer 0 1024;
      } in
      if page == 0
      then (false, record t { superblock_page = page; pmm = pmm' })
      else load_descs drive u

  unfoldable pub mount : ℕ → Fs D → Bool × Fs D
  unfolding copy load_superblock
  mount drive s =
      if not s.initialized || s.mounted
      then (false, s)
      else if not (D.drive_present s.disk drive)
      then (false, s)
      else elim (D.read_sector s.disk drive 2) [
        | none ↦ (false, record s { drive_index = drive })
        | some b ↦
            let t = record s { drive_index = drive; io_buffer = copy s.io_buffer 0 b 0 512 } in
            if read t.io_buffer 56 2 == 0xEF53 then load_superblock drive t else (false, t)
      ]

  -- The round of `ext2_unmount` for entry `i`: a dirty block is written, and the page is freed.
  pub flush_entry : ℕ → Fs D → Fs D
  unfolding write_block
  flush_entry i s =
      let e = s.cache i in
      let t =
        if e.valid && e.dirty then (write_block s.drive_index e.block_no e.bytes s).1 else s in
      let freed = record (t.cache i) { page = 0; valid = false; dirty = false } in
      record t {
        cache = λ j. if j == i then freed else t.cache j;
        pmm = if e.page == 0 then t.pmm else Pmm.free_page t.pmm e.page;
      }

  pub flush_entries : ℕ → ℕ → Fs D → Fs D
  unfolding flush_entry
  flush_entries zero i s = s
  flush_entries (suc n) i s = flush_entries n (i + 1) (flush_entry i s)

  -- The pages of the superblock and of the group descriptors are freed.
  pub release_tables : Fs D → Fs D
  release_tables s =
      let p = if s.superblock_page == 0 then s.pmm else Pmm.free_page s.pmm s.superblock_page in
      let q = if s.group_descs_page == 0 then p else Pmm.free_page p s.group_descs_page in
      record s { superblock_page = 0; group_descs_page = 0; pmm = q }

  unfoldable pub unmount : Fs D → Bool × Fs D
  unfolding flush_entries release_tables
  unmount s =
      if s.mounted
      then (let t = flush_entries cache_size 0 s in
          let u = record t { open_files = λ i. record (t.open_files i) { is_open = false } } in
          (true, record (release_tables u) { mounted = false }))
      else (false, s)
