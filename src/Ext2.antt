-- ===== src/Ext2.antt =====
-- kernel/src/fs/ext2.c: the state of the file system, and its blocks with their cache. The ATA driver
-- is an interface. Buffers are byte objects: `io_buffer` and each cache entry have one of their own,
-- so that a block is at most 4096 bytes, the size of the pages behind the cache. The packed
-- structures of the disk are their bytes, from which fields are read at their offsets.
pub mod Cache
pub mod CacheEntries
pub mod Blocks
pub mod BlockReads
pub mod BlockWrites
pub mod Inodes
pub mod Bitmaps
pub mod BlockMap
pub mod Directories
pub mod DirectoryBlocks
pub mod Paths
pub mod Create
pub mod Mount
pub mod Sample
pub mod Remove
pub mod Files
mod Tests
use kronosos.Base.{
  ℕ, zero, suc, ◌+◌, ◌-◌, ◌*◌, ◌/◌, ◌%◌, ◌^◌, Bool, true, false, not, ◌&&◌, ◌||◌, Option, none,
  some, List, ltb, leb, ◌==◌, if◌then◌else◌,
}
use kronosos.Base.Bytes.{Bytes, read, copy}
use kronosos.Pmm
use kronosos.Pmm.{Pmm}

-- What the file system uses of kernel/src/drivers/ata/ata.c, over an unknown state of the drives:
-- `ata_drive_present`, and `ata_read_sectors` and `ata_write_sectors` for one sector of 512 bytes.
pub record Disk : Type 1 where
  pub State : Type 0
  pub drive_present : State → ℕ → Bool
  pub read_sector : State → ℕ → ℕ → Option Bytes
  pub write_sector : State → ℕ → ℕ → Bytes → Bool × State

-- an entry of the block cache; 0 is NULL, and `bytes` is what `data` points to.
pub record CacheEntry : Type 0 where
  pub block_no : ℕ
  pub page : ℕ
  pub bytes : Bytes
  pub dirty : Bool
  pub valid : Bool

-- `ext2_file_t`
pub record OpenFile : Type 0 where
  pub inode_num : ℕ
  pub inode : Bytes
  pub flags : ℕ
  pub position : ℕ
  pub is_open : Bool

-- `ext2_fs_t` and the static variables, with the drives and the physical memory manager. The tables
-- of 64 files and 32 cache entries are functions of the index.
pub record Fs (D : Disk) : Type 0 where
  pub drive_index : ℕ
  pub block_size : ℕ
  pub blocks_per_group : ℕ
  pub inodes_per_group : ℕ
  pub inode_size : ℕ
  pub groups_count : ℕ
  pub blocks_count : ℕ
  pub inodes_count : ℕ
  pub superblock_page : ℕ
  pub superblock : Bytes
  pub group_descs_page : ℕ
  pub group_descs : Bytes
  pub open_files : ℕ → OpenFile
  pub current_dir : List ℕ
  pub cache : ℕ → CacheEntry
  pub initialized : Bool
  pub mounted : Bool
  pub io_page : ℕ
  pub io_buffer : Bytes
  pub disk : D.State
  pub pmm : Pmm

abbrev pub cache_size : ℕ
cache_size = 32

-- `n` rounds of the search for a block in the cache, from entry `i` on
unfoldable pub find_cached : (ℕ → CacheEntry) → ℕ → ℕ → ℕ → Option ℕ
find_cached cache block zero i = none
find_cached cache block (suc n) i =
    let rest = find_cached cache block n (i + 1) in
    if (cache i).valid && ((cache i).block_no == block) then some i else rest

-- `n` rounds of the search for an entry that is not valid; without one, entry 0
unfoldable pub free_entry : (ℕ → CacheEntry) → ℕ → ℕ → ℕ
free_entry cache zero i = 0
free_entry cache (suc n) i =
    let rest = free_entry cache n (i + 1) in if not (cache i).valid then i else rest

-- sector `i` of the block that starts at a sector, in 32 bits
abbrev pub sector_at : ℕ → ℕ → ℕ
sector_at start i = (start + i) % 2 ^ 32

-- `n` rounds of the loop that reads the sectors of a block, from sector `i` on
unfoldable pub read_sectors : (D : Disk) → ℕ → ℕ → ℕ → ℕ → Bytes → D.State → Bool × Bytes
unfolding copy
read_sectors D drive start zero i buffer disk = (true, buffer)
read_sectors D drive start (suc n) i buffer disk =
    elim (D.read_sector disk drive (sector_at start i)) [
      | none ↦ (false, buffer)
      | some b ↦ read_sectors D drive start n (i + 1) (copy buffer (i * 512) b 0 512) disk
    ]

-- `n` rounds of the loop that writes the sectors of a block, from sector `i` on
unfoldable pub write_sectors : (D : Disk) → ℕ → ℕ → ℕ → ℕ → Bytes → D.State → Bool × D.State
write_sectors D drive start zero i buffer disk = (true, disk)
write_sectors D drive start (suc n) i buffer disk =
    let (ok, t) = D.write_sector disk drive (sector_at start i) (λ j. buffer (i * 512 + j)) in
    let rest = write_sectors D drive start n (i + 1) buffer t in if ok then rest else (false, t)

-- the entries of the cache that hold the block
unfoldable pub update_cached : ℕ → Bytes → ℕ → (ℕ → CacheEntry) → ℕ → CacheEntry
unfolding copy
update_cached block buffer size cache i =
    let e = cache i in
    if e.valid && (e.block_no == block)
    then record e { bytes = copy e.bytes 0 buffer 0 size; dirty = true }
    else e

module _ {D : Disk} where
  -- entry `i` gets the block; it has a page.
  unfoldable pub put_entry : ℕ → ℕ → ℕ → Bytes → Fs D → Fs D
  unfolding copy
  put_entry i page block buffer s =
      let e = record (s.cache i) {
        page = page;
        block_no = block;
        valid = true;
        dirty = false;
        bytes = copy (s.cache i).bytes 0 buffer 0 s.block_size;
      } in
      record s { cache = λ j. if j == i then e else s.cache j }

  -- the end of `ext2_read_block` with a mounted file system
  unfoldable pub fill_cache : ℕ → Bytes → Fs D → Fs D
  unfolding free_entry put_entry
  fill_cache block buffer s =
      let i = free_entry s.cache cache_size 0 in
      let (page, pmm') = Pmm.alloc_page s.pmm in
      let old = (s.cache i).page in
      if not (old == 0)
      then put_entry i old block buffer s
      else if page == 0
      then record s { pmm = pmm' }
      else put_entry i page block buffer (record s { pmm = pmm' })

  -- a block that is not in the cache
  unfoldable pub read_missing : ℕ → ℕ → Bytes → Fs D → Bool × Bytes × Fs D
  unfolding read_sectors fill_cache
  read_missing drive block buffer s =
      let sectors_per_block = s.block_size / 512 in
      let (ok, bytes) =
        read_sectors D drive (block * sectors_per_block % 2 ^ 32) sectors_per_block 0 buffer
          s.disk in
      if not ok
      then (false, bytes, s)
      else if s.mounted
      then (true, bytes, fill_cache block bytes s)
      else (true, bytes, s)

  -- `ext2_read_block` into a buffer that is not NULL: the result, the buffer, and the state
  unfoldable pub read_block : ℕ → ℕ → Bytes → Fs D → Bool × Bytes × Fs D
  unfolding find_cached copy read_missing
  read_block drive block buffer s =
      if s.mounted
      then elim (find_cached s.cache block cache_size 0) [
        | none ↦ read_missing drive block buffer s
        | some i ↦ (true, copy buffer 0 (s.cache i).bytes 0 s.block_size, s)
      ]
      else read_missing drive block buffer s

  unfoldable pub write_block : ℕ → ℕ → Bytes → Fs D → Bool × Fs D
  unfolding update_cached write_sectors
  write_block drive block buffer s =
      let sectors_per_block = s.block_size / 512 in
      let cache' = if s.mounted then update_cached block buffer s.block_size s.cache else s.cache in
      let (ok, disk') =
        write_sectors D drive (block * sectors_per_block % 2 ^ 32) sectors_per_block 0 buffer
          s.disk in
      (ok, record s { cache = cache'; disk = disk' })

  -- a block is read into `io_buffer`, or written from it
  unfoldable pub read_io : ℕ → ℕ → Fs D → Bool × Fs D
  unfolding read_block
  read_io drive block s =
      let (ok, bytes, t) = read_block drive block s.io_buffer s in
      (ok, record t { io_buffer = bytes })

  unfoldable pub write_io : ℕ → ℕ → Fs D → Bool × Fs D
  unfolding write_block
  write_io drive block s = write_block drive block s.io_buffer s
