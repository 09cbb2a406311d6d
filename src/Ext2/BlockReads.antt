-- ===== src/Ext2/BlockReads.antt =====
-- kernel/src/fs/ext2.c: when `ext2_read_block` succeeds, and what it gives then.
use kronosos.Base.{
  ℕ, ◌+◌, ◌*◌, ◌/◌, ◌%◌, ◌^◌, ◌<◌, ◌≡◌, ◌∙◌, refl, sym, ap, Bool, true, false, not, Option, none,
  some, if_both, if_split, arith,
}
use kronosos.Base.Bytes.{Bytes, copy}
use kronosos.Ext2.{
  Disk, Fs, cache_size, find_cached, read_sectors, fill_cache, read_missing, read_block,
}
use kronosos.Ext2.Cache.{Holds, read_sectors-success}
use kronosos.Ext2.Blocks.{InRange, HasBlock, IsCoherent, IsRead, read_block-IsRead}

module _ {D : Disk} where
  -- The drive has one content for a block.
  pub HasBlock-unique :
      (s : Fs D) (block : ℕ) (b c : Bytes)
      → IsCoherent s
      → HasBlock s block b
      → HasBlock s block c
      → (j : ℕ) → j < s.block_size
      → b j ≡ c j
  unfolding HasBlock Holds
  HasBlock-unique s block b c coherent h g j l =
      let w = coherent.whole in
      let (r, e, f) = h (j / 512) (omega arith) in
      let (q, e', f') = g (j / 512) (omega arith) in
      let same : some r ≡ some q = sym e ∙ e' in
      let both : r ≡ q = cc in
      let at : j / 512 * 512 + j % 512 ≡ j = omega arith in
      ap b (sym at)
      ∙ sym (f (j % 512) (omega arith))
      ∙ ap (λ (o : Bytes). o (j % 512)) both
      ∙ f' (j % 512) (omega arith)
      ∙ ap c at

  -- Of a block on the drive, a read succeeds.
  read_missing-success :
      (block : ℕ) (b buffer : Bytes) (s : Fs D)
      → IsCoherent s
      → InRange s block
      → HasBlock s block b
      → (read_missing s.drive_index block buffer s).0 ≡ true
  unfolding read_missing HasBlock Holds InRange
  read_missing-success block b buffer s c range has =
      let p = s.block_size / 512 in
      let w = c.whole in
      let q = c.positive in
      let start : block * p % 2 ^ 32 ≡ block * p = omega arith in
      let r = read_sectors D s.drive_index (block * p % 2 ^ 32) p 0 buffer s.disk in
      let ok : r.0 ≡ true =
        read_sectors-success D s.disk s.drive_index (block * p % 2 ^ 32) p 0 buffer (omega arith)
          (λ k l u.
            let (o, e, _) = has k (omega arith) in
            (o, ap (λ (m : ℕ). D.read_sector s.disk s.drive_index (m + k)) start ∙ e)) in
      if_split (λ (t : Bool × Bytes × Fs D). t.0 ≡ true) (not r.0) (false, r.1, s) _
        (λ bad. absurd (ground arith))
        (λ good.
          if_both (λ (t : Bool × Bytes × Fs D). t.0 ≡ true) s.mounted
            (true, r.1, fill_cache block r.1 s) (true, r.1, s) refl refl)

  read_block-success :
      (block : ℕ) (b buffer : Bytes) (s : Fs D)
      → IsCoherent s
      → InRange s block
      → HasBlock s block b
      → (read_block s.drive_index block buffer s).0 ≡ true
  unfolding read_block
  read_block-success block b buffer s c range has =
      if_both (λ (t : Bool × Bytes × Fs D). t.0 ≡ true) s.mounted _ _
        (by_entry (find_cached s.cache block cache_size 0))
        (read_missing-success block b buffer s c range has)
    where
      by_entry :
          (o : Option ℕ)
          → (elim o as (λ x. Bool × Bytes × Fs D) [
            | none ↦ read_missing s.drive_index block buffer s
            | some i ↦ (true, copy buffer 0 (s.cache i).bytes 0 s.block_size, s)
          ]).0
            ≡ true
      by_entry none = read_missing-success block b buffer s c range has
      by_entry (some i) = refl

  -- A read of a block that the drive has succeeds, and gives its bytes.
  pub read_block-HasBlock :
      (block : ℕ) (b buffer : Bytes) (s : Fs D)
      → IsCoherent s
      → InRange s block
      → HasBlock s block b
      → let r = read_block s.drive_index block buffer s in
        (r.0 ≡ true) × ((j : ℕ) → j < s.block_size → r.1 j ≡ b j)
  unfolding IsRead
  read_block-HasBlock block b buffer s c range has =
      let ok = read_block-success block b buffer s c range has in
      (ok, HasBlock-unique s block _ b c ((read_block-IsRead block buffer s c range).0 ok) has)
