-- ===== src/Ext2/Sample.antt =====
-- Drives in memory that take 28 bits of a sector's number, and a file system on them with blocks of
-- 1024 bytes and one group of 16 inodes, whose table begins at block 5.
use kronosos.Base.{
  ℕ, ◌+◌, ◌*◌, ◌%◌, ◌^◌, ◌≡◌, ◌∙◌, refl, sym, ap, Bool, true, false, ◌&&◌, some, [], ◌∷◌, ltb, ◌==◌,
  if◌then◌else◌, arith,
}
use kronosos.Base.Bytes.{Bytes, write}
use kronosos.Pmm.Sample.{sample}
use kronosos.Ext2.{Disk, Fs}
use kronosos.Ext2.Cache.{IsLawful}
use kronosos.Ext2.Blocks.{InRange, CacheHolds, IsCoherent}

abbrev pub Drives : Type 0
Drives = ℕ → ℕ → Bytes

abbrev sector : Bytes → Bytes
sector b = λ j. if ltb j 512 then b j else 0

abbrev pub ram : Disk
ram = record {
  State = Drives;
  drive_present = λ s drive. true;
  read_sector = λ s drive k. some (sector (s drive (k % 2 ^ 28)));
  write_sector =
      λ s drive k b. (true, λ d i. if (d == drive) && (i == k % 2 ^ 28) then b else s d i);
}

written :
    (b : Bool) (x y : Bytes)
    → some (sector (if b then x else y)) ≡ (if b then some (sector x) else some (sector y))
written true x y = refl
written false x y = refl

pub ram-IsLawful : IsLawful ram
ram-IsLawful = record {
  read-write = λ s t drive k b low e d i below.
      let same : ((d == drive) && (i % 2 ^ 28 == k % 2 ^ 28)) ≡ ((d == drive) && (i == k)) =
        ground arith in
      ap (λ (x : Bool × Drives). some (sector (x.1 d (i % 2 ^ 28)))) (sym e)
      ∙ written ((d == drive) && (i % 2 ^ 28 == k % 2 ^ 28)) b (s d (i % 2 ^ 28))
      ∙ ap (λ (t : Bool). if t then some (sector b) else some (sector (s d (i % 2 ^ 28)))) same;
}

abbrev descs : Bytes
descs = write (write (write (write (write (λ i. 0) 0 4 3) 4 4 4) 8 4 5) 12 2 40) 14 2 10

abbrev super : Bytes
super = write (write (write (λ i. 0) 12 4 40) 16 4 10) 20 4 1

abbrev pub fs : Fs ram
fs = record {
  drive_index = 0;
  block_size = 1024;
  blocks_per_group = 64;
  inodes_per_group = 16;
  inode_size = 128;
  groups_count = 1;
  blocks_count = 64;
  inodes_count = 16;
  superblock_page = 0x110000;
  superblock = super;
  group_descs_page = 0x111000;
  group_descs = descs;
  open_files =
      λ i. record { inode_num = 0; inode = λ j. 0; flags = 0; position = 0; is_open = false };
  current_dir = 47 ∷ [];
  cache = λ i. record {
    block_no = 0;
    page = 0x113000 + 4096 * i;
    bytes = λ j. 0;
    dirty = false;
    valid = false;
  };
  initialized = true;
  mounted = true;
  io_page = 0x112000;
  io_buffer = λ i. 0;
  disk = λ d k j. 0;
  pmm = sample;
}

pub fs-IsCoherent : IsCoherent fs
unfolding CacheHolds
fs-IsCoherent = record {
  whole = omega arith;
  positive = omega arith;
  one_page = omega arith;
  cached = λ i l v. absurd cc;
}

pub fs-InRange : InRange fs 3
unfolding InRange
fs-InRange = omega arith

pub table-InRange : InRange fs 5
unfolding InRange
table-InRange = omega arith
