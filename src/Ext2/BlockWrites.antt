-- ===== src/Ext2/BlockWrites.antt =====
-- kernel/src/fs/ext2.c: what `ext2_write_block` leaves on the drive and in the cache, and what a
-- read after it gives.
use kronosos.Base.{
  ℕ, ◌+◌, ◌-◌, ◌*◌, ◌/◌, ◌%◌, ◌^◌, ◌≤◌, ◌<◌, ◌≡◌, ◌≢◌, ◌∙◌, ◌⊎◌, sym, ap, Bool, true, false, ◌&&◌,
  some, ltb, ◌==◌, if◌then◌else◌, if_yes, if_no, if_split, Bool-cases, inl, inr, arith,
}
use mathlib.Core.Path.{subst}
use native.Mathlib.Nat.{mul-le-mul_right}
use kronosos.Base.Bytes.{Bytes, copy, copy-start}
use kronosos.Ext2.{Disk, CacheEntry, Fs, read_block, write_sectors, update_cached, write_block}
use kronosos.Ext2.Cache.{sector_of, inside, IsLawful, Holds, write_sectors-read}
use kronosos.Ext2.Blocks.{InRange, HasBlock, CacheHolds, IsCoherent, HasBlock-same}
use kronosos.Ext2.BlockReads.{read_block-HasBlock}

module _ {D : Disk} where
  -- the sectors after a write
  write_sectors-elsewhere :
      (block other : ℕ) (buffer : Bytes) (s : Fs D)
      → IsLawful D
      → IsCoherent s
      → InRange s block
      → InRange s other
      → other ≢ block
      → let w =
          write_sectors D s.drive_index
            (block * (s.block_size / 512) % 2 ^ 32)
            (s.block_size / 512)
            0
            buffer
            s.disk in
        w.0 ≡ true
        → (i : ℕ) → i < s.block_size / 512
        → D.read_sector w.1 s.drive_index (other * (s.block_size / 512) + i)
          ≡ D.read_sector s.disk s.drive_index (other * (s.block_size / 512) + i)
  unfolding InRange
  write_sectors-elsewhere block other buffer s lawful c range range' ne ok i l =
      let p = s.block_size / 512 in
      let start : block * p % 2 ^ 32 ≡ block * p = omega arith in
      let apart : (other * p + i < block * p) ⊎ (block * p + p ≤ other * p + i) =
        elim (Bool-cases (ltb other block)) [
          | inl less ↦
              let m = mul-le-mul_right {m = other + 1} {n = block} p (ground arith) in
              inl (omega arith)
          | inr more ↦
              let m = mul-le-mul_right {m = block + 1} {n = other} p (ground arith) in
              inr (omega arith)
        ] in
      let no : inside s.drive_index (block * p % 2 ^ 32) s.drive_index (other * p + i) 0 p ≡ false =
        ground arith in
      write_sectors-read D lawful s.drive_index (block * p % 2 ^ 32) buffer p 0 s.disk (omega arith)
        ok s.drive_index (other * p + i) (omega arith)
      ∙ if_no _ _ no

  -- What a write has done that succeeded: the block has the bytes, and each other block its own.
  pub record IsWritten (s : Fs D) (block : ℕ) (buffer : Bytes) (t : Fs D) : Type 0 where
    pub written : HasBlock t block buffer
    pub elsewhere :
        (other : ℕ)
        → other ≢ block
        → InRange s other
        → (b : Bytes) → HasBlock s other b
        → HasBlock t other b
    pub coherent : IsCoherent t

  write_sectors-block :
      (block : ℕ) (buffer : Bytes) (s : Fs D)
      → IsLawful D
      → IsCoherent s
      → InRange s block
      → let w =
          write_sectors D s.drive_index
            (block * (s.block_size / 512) % 2 ^ 32)
            (s.block_size / 512)
            0
            buffer
            s.disk in
        w.0 ≡ true
        → Holds D w.1 s.drive_index (block * (s.block_size / 512)) (s.block_size / 512) buffer
  unfolding InRange Holds
  write_sectors-block block buffer s lawful c range ok i l =
      let p = s.block_size / 512 in
      let start : block * p % 2 ^ 32 ≡ block * p = omega arith in
      let yes : inside s.drive_index (block * p % 2 ^ 32) s.drive_index (block * p + i) 0 p ≡ true =
        ground arith in
      let index : block * p + i - block * p % 2 ^ 32 ≡ i = omega arith in
      (
        sector_of buffer i,
        write_sectors-read D lawful s.drive_index (block * p % 2 ^ 32) buffer p 0 s.disk
              (omega arith) ok s.drive_index (block * p + i) (omega arith)
            ∙ if_yes _ _ yes
            ∙ ap (λ (m : ℕ). some (sector_of buffer m)) index,
        λ j h. let t : ltb j 512 ≡ true = ground arith in if_yes _ _ t,
      )

  -- the state behind the loop over the sectors, the cache being updated
  abbrev after_write : ℕ → Bytes → Fs D → Fs D
  after_write block buffer s = record s {
    cache = update_cached block buffer s.block_size s.cache;
    disk =
        (write_sectors D s.drive_index (block * (s.block_size / 512) % 2 ^ 32) (s.block_size / 512)
          0 buffer s.disk).1;
  }

  after_write-IsWritten :
      (block : ℕ) (buffer : Bytes) (s : Fs D)
      → IsLawful D
      → IsCoherent s
      → InRange s block
      → (write_sectors D s.drive_index
          (block * (s.block_size / 512) % 2 ^ 32)
          (s.block_size / 512)
          0
          buffer
          s.disk).0
        ≡ true
      → IsWritten s block buffer (after_write block buffer s)
  unfolding HasBlock Holds InRange CacheHolds update_cached
  after_write-IsWritten block buffer s lawful c range ok =
      let has : HasBlock (after_write block buffer s) block buffer =
        write_sectors-block block buffer s lawful c range ok in
      let other : (o : ℕ)
          → o ≢ block
          → InRange s o
          → (b : Bytes) → HasBlock s o b
          → HasBlock (after_write block buffer s) o b =
        λ o ne r b h i l.
          let (q, e, f) = h i l in
          (q, write_sectors-elsewhere block o buffer s lawful c range r ne ok i l ∙ e, f) in
      record {
        written = has;
        elsewhere = other;
        coherent = record {
          whole = c.whole;
          one_page = c.one_page;
          positive = c.positive;
          cached = λ i l.
              let e = s.cache i in
              if_split
                (λ (x : CacheEntry).
                  x.valid ≡ true
                  → InRange s x.block_no × HasBlock (after_write block buffer s) x.block_no x.bytes)
                (e.valid && (e.block_no == block)) _ e
                (λ hit v.
                  let at : block ≡ e.block_no = ground arith in
                  (
                    subst (InRange s) at range,
                    subst
                        (λ (m : ℕ).
                          HasBlock (after_write block buffer s) m
                            (copy e.bytes 0 buffer 0 s.block_size))
                        at
                        (HasBlock-same (after_write block buffer s) block buffer _
                          (λ j h. sym (copy-start e.bytes buffer s.block_size j h)) has),
                  ))
                (λ missed v.
                  let (r, h) = c.cached i l v in
                  let ne : e.block_no ≢ block = λ x. absurd (ground arith) in
                  (r, other e.block_no ne r e.bytes h));
        };
      }

  -- On a drive on which a sector with a number below 2^28 that has been written is read back and the
  -- others below 2^28 stay, for the mounted drive, a cache that agrees with it, a block size of whole
  -- sectors and at most 4096, and a block whose sectors are below 2^28: a successful
  -- ext2_write_block leaves the block with the bytes of the buffer, every other block whose sectors
  -- are below 2^28 with its own, and a cache that agrees with the drive.
  pub write_block-IsWritten :
      (block : ℕ) (buffer : Bytes) (s : Fs D)
      → IsLawful D
      → IsCoherent s
      → s.mounted ≡ true
      → InRange s block
      → let w = write_block s.drive_index block buffer s in
        w.0 ≡ true → IsWritten s block buffer w.1
  unfolding write_block
  write_block-IsWritten block buffer s lawful c mounted range ok =
      subst
        (λ (b : Bool). IsWritten s block buffer (record (after_write block buffer s) {
          cache = if b then update_cached block buffer s.block_size s.cache else s.cache;
        }))
        (sym mounted) (after_write-IsWritten block buffer s lawful c range ok)

  -- On a drive on which a sector with a number below 2^28 that has been written is read back and the
  -- others below 2^28 stay, for the mounted drive, a cache that agrees with it, a block size of whole
  -- sectors and at most 4096, and a block whose sectors are below 2^28: a read of a block that has
  -- just been written with success succeeds and gives the bytes that were written, whatever was in
  -- the buffer.
  pub read_block-write_block :
      (block : ℕ) (buffer old : Bytes) (s : Fs D)
      → IsLawful D
      → IsCoherent s
      → s.mounted ≡ true
      → InRange s block
      → let w = write_block s.drive_index block buffer s in
        w.0 ≡ true
        → let r = read_block s.drive_index block old w.1 in
          (r.0 ≡ true) × ((j : ℕ) → j < s.block_size → r.1 j ≡ buffer j)
  unfolding write_block InRange
  read_block-write_block block buffer old s lawful c mounted range ok =
      let w = write_block-IsWritten block buffer s lawful c mounted range ok in
      read_block-HasBlock block buffer old (write_block s.drive_index block buffer s).1 w.coherent
        range w.written
