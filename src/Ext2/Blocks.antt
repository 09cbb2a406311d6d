-- ===== src/Ext2/Blocks.antt =====
-- kernel/src/fs/ext2.c: `ext2_read_block` and `ext2_write_block` against the blocks of the drive.
use kronosos.Base.{
  ℕ, ◌+◌, ◌*◌, ◌/◌, ◌%◌, ◌^◌, ◌≤◌, ◌<◌, ◌≡◌, ◌∙◌, refl, sym, ap, Bool, true, false, not, Option,
  none, some, ◌==◌, if_both, if_split, arith,
}
use mathlib.Core.Path.{subst}
use kronosos.Base.Bytes.{Bytes, copy, copy-start}
use kronosos.Pmm
use kronosos.Pmm.{Pmm}
use kronosos.Ext2.{
  Disk, CacheEntry, Fs, cache_size, find_cached, free_entry, read_sectors, put_entry, fill_cache,
  read_missing, read_block,
}
use kronosos.Ext2.Cache.{Holds, read_sectors-Fetched}
use kronosos.Ext2.CacheEntries.{find_cached-found}

module _ {D : Disk} where
  -- The sectors of the block have numbers of 28 bits, which is what the driver sends to a drive.
  unfoldable pub InRange : Fs D → ℕ → Type 0
  InRange s block = block * (s.block_size / 512) + s.block_size / 512 ≤ 2 ^ 28

  -- The block of the drive that is mounted holds the bytes.
  unfoldable pub HasBlock : Fs D → ℕ → Bytes → Type 0
  HasBlock s block b =
      Holds D s.disk s.drive_index (block * (s.block_size / 512)) (s.block_size / 512) b

  -- The entries of a table are blocks of the drive.
  unfoldable pub CacheHolds : Fs D → (ℕ → CacheEntry) → Type 0
  unfolding InRange HasBlock
  CacheHolds s cache =
      (i : ℕ)
      → i < cache_size
      → (cache i).valid ≡ true
      → InRange s (cache i).block_no × HasBlock s (cache i).block_no (cache i).bytes

  -- Blocks are whole sectors and fit a page of the cache, and the cache agrees with the drive.
  pub record IsCoherent (s : Fs D) : Type 0 where
    pub whole : s.block_size ≡ s.block_size / 512 * 512
    pub positive : 0 < s.block_size
    pub one_page : s.block_size ≤ 4096
    pub cached : CacheHolds s s.cache

  -- What reading leaves of a state: only the cache and the memory manager may differ.
  pub record IsKept (s t : Fs D) : Type 0 where
    pub same : record s { cache = t.cache; pmm = t.pmm } ≡ t
    pub cached : CacheHolds s s.cache → CacheHolds s t.cache

  pub IsKept-HasBlock :
      {s t : Fs D} → IsKept s t → (block : ℕ) (b : Bytes) → HasBlock s block b → HasBlock t block b
  unfolding HasBlock
  IsKept-HasBlock {s} {t} k block b h = subst (λ (u : Fs D). HasBlock u block b) k.same h

  pub IsKept-InRange : {s t : Fs D} → IsKept s t → (block : ℕ) → InRange s block → InRange t block
  unfolding InRange
  IsKept-InRange k block h = subst (λ (u : Fs D). InRange u block) k.same h

  pub IsKept-IsCoherent : {s t : Fs D} → IsKept s t → IsCoherent s → IsCoherent t
  unfolding CacheHolds
  IsKept-IsCoherent {s} {t} k c = record {
    whole = subst (λ (u : Fs D). u.block_size ≡ u.block_size / 512 * 512) k.same c.whole;
    positive = subst (λ (u : Fs D). 0 < u.block_size) k.same c.positive;
    one_page = subst (λ (u : Fs D). u.block_size ≤ 4096) k.same c.one_page;
    cached = λ i h v.
        let (r, b) = k.cached c.cached i h v in
        (
          IsKept-InRange k (t.cache i).block_no r,
          IsKept-HasBlock k (t.cache i).block_no (t.cache i).bytes b,
        );
  }

  -- the bytes of the block decide
  pub HasBlock-same :
      (s : Fs D) (block : ℕ) (b b' : Bytes)
      → ((j : ℕ) → j < s.block_size → b j ≡ b' j)
      → HasBlock s block b
      → HasBlock s block b'
  unfolding HasBlock Holds
  HasBlock-same s block b b' same h i l =
      let (r, e, f) = h i l in (r, e, λ j u. f j u ∙ same (i * 512 + j) (omega arith))

  -- An entry that is filled holds the block.
  put_entry-IsKept :
      (i page block : ℕ) (buffer : Bytes) (s : Fs D)
      → InRange s block
      → HasBlock s block buffer
      → IsKept s (put_entry i page block buffer s)
  unfolding put_entry CacheHolds
  put_entry-IsKept i page block buffer s range has = record {
    same = refl;
    cached = λ old j l.
        if_split
          (λ (e : CacheEntry).
            e.valid ≡ true → InRange s e.block_no × HasBlock s e.block_no e.bytes)
          (j == i) _ (s.cache j)
          (λ here v. (
            range,
            HasBlock-same s block buffer (copy (s.cache i).bytes 0 buffer 0 s.block_size)
                (λ p u. sym (copy-start (s.cache i).bytes buffer s.block_size p u)) has,
          ))
          (λ other. old j l);
  }

  fill_cache-IsKept :
      (block : ℕ) (buffer : Bytes) (s : Fs D)
      → InRange s block
      → HasBlock s block buffer
      → IsKept s (fill_cache block buffer s)
  unfolding fill_cache InRange HasBlock CacheHolds
  fill_cache-IsKept block buffer s range has =
      let i = free_entry s.cache cache_size 0 in
      let (page, pmm') = Pmm.alloc_page s.pmm in
      let t : Fs D = record s { pmm = pmm' } in
      let k = put_entry-IsKept i page block buffer t range has in
      if_both (IsKept s) (not ((s.cache i).page == 0)) (put_entry i (s.cache i).page block buffer s)
        _ (put_entry-IsKept i (s.cache i).page block buffer s range has)
        (if_both (IsKept s) (page == 0) t (put_entry i page block buffer t)
          (record { same = refl; cached = λ h. h }) (record { same = k.same; cached = k.cached }))

  IsKept-refl : (s : Fs D) → IsKept s s
  IsKept-refl s = record { same = refl; cached = λ h. h }

  -- What a read has done: the state is kept, and with success the buffer has the block.
  unfoldable pub IsRead : Fs D → ℕ → Bool × Bytes × Fs D → Type 0
  IsRead s block r = (r.0 ≡ true → HasBlock s block r.1) × IsKept s r.2

  read_sectors-HasBlock :
      (block : ℕ) (buffer : Bytes) (s : Fs D)
      → IsCoherent s
      → InRange s block
      → let r =
          read_sectors D s.drive_index
            (block * (s.block_size / 512) % 2 ^ 32)
            (s.block_size / 512)
            0
            buffer
            s.disk in
        r.0 ≡ true → HasBlock s block r.1
  unfolding HasBlock Holds InRange
  read_sectors-HasBlock block buffer s c range ok i l =
      let p = s.block_size / 512 in
      let start : block * p % 2 ^ 32 ≡ block * p =
        let a = c.whole in let b = c.positive in omega arith in
      let f =
        read_sectors-Fetched D s.disk s.drive_index (block * p % 2 ^ 32) p 0 buffer (omega arith)
          ok in
      let (r, e, g) = f.sectors i (omega arith) (omega arith) in
      (r, sym (ap (λ (m : ℕ). D.read_sector s.disk s.drive_index (m + i)) start) ∙ e, g)

  read_missing-IsRead :
      (block : ℕ) (buffer : Bytes) (s : Fs D)
      → IsCoherent s
      → InRange s block
      → IsRead s block (read_missing s.drive_index block buffer s)
  unfolding read_missing IsRead
  read_missing-IsRead block buffer s c range =
      let r =
        read_sectors D s.drive_index (block * (s.block_size / 512) % 2 ^ 32) (s.block_size / 512) 0
          buffer s.disk in
      let has = read_sectors-HasBlock block buffer s c range in
      if_split (IsRead s block) (not r.0) (false, r.1, s) _ (λ bad. (λ e. absurd cc, IsKept-refl s))
        (λ good.
          let ok : r.0 ≡ true = ground arith in
          if_both (IsRead s block) s.mounted (true, r.1, fill_cache block r.1 s) (true, r.1, s)
            (λ e. has ok, fill_cache-IsKept block r.1 s range (has ok))
            (λ e. has ok, IsKept-refl s))

  -- When the cache agrees with the drive, a block is whole sectors and at most 4096 bytes, and the
  -- sectors of the block have numbers below 2^28: ext2_read_block with success leaves in the buffer
  -- what the drive has in the block; whether it succeeds or not, only the cache and the physical
  -- memory manager may change, and the cache agrees with the drive again.
  pub read_block-IsRead :
      (block : ℕ) (buffer : Bytes) (s : Fs D)
      → IsCoherent s
      → InRange s block
      → IsRead s block (read_block s.drive_index block buffer s)
  unfolding read_block IsRead InRange CacheHolds
  read_block-IsRead block buffer s c range =
      if_both (IsRead s block) s.mounted _ _
        (by_entry (find_cached s.cache block cache_size 0) refl)
        (read_missing-IsRead block buffer s c range)
    where
      by_entry :
          (o : Option ℕ)
          → find_cached s.cache block cache_size 0 ≡ o
          → IsRead s block (elim o as (λ x. Bool × Bytes × Fs D) [
            | none ↦ read_missing s.drive_index block buffer s
            | some i ↦ (true, copy buffer 0 (s.cache i).bytes 0 s.block_size, s)
          ])
      by_entry none e = read_missing-IsRead block buffer s c range
      by_entry (some i) e =
          let (l, v, at) = find_cached-found s.cache block cache_size 0 i e in
          let (_, has) = c.cached i (omega arith) v in
          (
            λ ok.
                HasBlock-same s block (s.cache i).bytes _
                  (λ j h. sym (copy-start buffer (s.cache i).bytes s.block_size j h))
                  (subst (λ (m : ℕ). HasBlock s m (s.cache i).bytes) at has),
            IsKept-refl s,
          )
