-- ===== src/Ext2/Inodes/Stored.antt =====
-- kernel/src/fs/ext2.c: an inode that is written is read back, and writing it leaves the others.
use kronosos.Base.{
  ℕ, ◌+◌, ◌≤◌, ◌<◌, ◌≡◌, ◌≢◌, ◌∙◌, ◌⊎◌, refl, sym, ap, Bool, true, false, not, ◌==◌, ==→eq, if_yes,
  if_no, if_split, Bool-cases, inl, inr, arith,
}
use mathlib.Core.Path.{subst}
use kronosos.Base.Bytes.{Bytes, copy, copy-inside, copy-before, copy-behind}
use kronosos.Ext2.{Disk, Fs, read_block, write_block, read_io, write_io}
use kronosos.Ext2.Cache.{IsLawful}
use kronosos.Ext2.Blocks.{InRange, HasBlock, CacheHolds, IsCoherent, IsRead, read_block-IsRead}
use kronosos.Ext2.BlockReads.{HasBlock-unique, read_block-HasBlock}
use kronosos.Ext2.BlockWrites.{write_block-IsWritten}
use kronosos.Ext2.Inodes.{has_inode, inode_block, inode_offset, read_inode, write_inode}

module _ {D : Disk} where
  -- The inode has a place, and the drive has its 128 bytes there.
  unfoldable pub HasInode : Fs D → ℕ → Bytes → Type 0
  unfolding inode_block inode_offset has_inode
  HasInode s n inode =
      (has_inode n s ≡ true)
      × (b : Bytes) × HasBlock s (inode_block n s) b
      × ((j : ℕ) → j < 128 → b (inode_offset n s + j) ≡ inode j)

  -- The places of two inodes do not meet.
  unfoldable pub AreApart : Fs D → ℕ → ℕ → Type 0
  unfolding inode_block inode_offset
  AreApart s m n =
      (inode_block m s ≢ inode_block n s)
      ⊎ ((inode_offset m s + 128 ≤ inode_offset n s) ⊎ (inode_offset n s + 128 ≤ inode_offset m s))

  -- the state that has read block `block` of the inode and has the buffer `buffer`
  abbrev pub with_buffer : ℕ → Bytes → Fs D → Fs D
  with_buffer block buffer s =
      let r = read_block s.drive_index block s.io_buffer s in
      record s { cache = r.2.cache; pmm = r.2.pmm; io_buffer = buffer }

  pub with_buffer-same :
      (block : ℕ) (buffer : Bytes) (s : Fs D)
      → IsCoherent s
      → InRange s block
      → with_buffer block buffer s
        ≡ record (read_block s.drive_index block s.io_buffer s).2 { io_buffer = buffer }
  unfolding IsRead
  with_buffer-same block buffer s c range =
      let k = (read_block-IsRead block s.io_buffer s c range).1 in
      ap (λ (u : Fs D). record u { io_buffer = buffer }) k.same

  pub with_buffer-IsCoherent :
      (block : ℕ) (buffer : Bytes) (s : Fs D)
      → IsCoherent s
      → InRange s block
      → IsCoherent (with_buffer block buffer s)
  unfolding IsRead CacheHolds HasBlock InRange
  with_buffer-IsCoherent block buffer s c range =
      let k = (read_block-IsRead block s.io_buffer s c range).1 in
      record {
        whole = c.whole;
        positive = c.positive;
        one_page = c.one_page;
        cached = k.cached c.cached;
      }

  -- An inode on the drive is read.
  pub read_inode-HasInode :
      (n : ℕ) (inode old : Bytes) (s : Fs D)
      → IsCoherent s
      → InRange s (inode_block n s)
      → inode_offset n s + 128 ≤ s.block_size
      → HasInode s n inode
      → let r = read_inode s.drive_index n old s in
        (r.0 ≡ true) × ((j : ℕ) → j < 128 → r.1 j ≡ inode j)
  unfolding read_inode read_io HasInode
  read_inode-HasInode n inode old s c range fits (has, b, h, at) =
      let r = read_block s.drive_index (inode_block n s) s.io_buffer s in
      let (ok, same) = read_block-HasBlock (inode_block n s) b s.io_buffer s c range h in
      let P : Bool × Bytes × Fs D → Type 0 =
        λ t. (t.0 ≡ true) × ((j : ℕ) → j < 128 → t.1 j ≡ inode j) in
      if_split P (not (has_inode n s)) (false, old, s) _ (λ no. absurd (ground arith))
        (λ yes.
          if_split P (not r.0) (false, old, record r.2 { io_buffer = r.1 })
            (true, copy old 0 r.1 (inode_offset n s) 128, record r.2 { io_buffer = r.1 })
            (λ no. absurd (ground arith))
            (λ good. (
              refl,
              λ j l.
                  let zero_plus : 0 + j ≡ j = omega arith in
                  ap (copy old 0 r.1 (inode_offset n s) 128) (sym zero_plus)
                  ∙ copy-inside old 0 r.1 (inode_offset n s) 128 j l
                  ∙ same (inode_offset n s + j) (omega arith)
                  ∙ at j l,
            )))

  -- the block with the inode changed in it
  abbrev changed_block : ℕ → Bytes → Fs D → Bytes
  changed_block n inode s =
      copy (read_block s.drive_index (inode_block n s) s.io_buffer s).1 (inode_offset n s) inode 0
        128

  -- the write that `ext2_write_inode` ends with
  abbrev last_write : ℕ → Bytes → Fs D → Bool × Fs D
  last_write n inode s =
      write_block s.drive_index (inode_block n s) (changed_block n inode s)
        (with_buffer (inode_block n s) (changed_block n inode s) s)

  write_inode-last_write :
      (n : ℕ) (inode : Bytes) (s : Fs D)
      → IsCoherent s
      → InRange s (inode_block n s)
      → (write_inode s.drive_index n inode s).0 ≡ true
      → (has_inode n s ≡ true)
        × HasBlock s (inode_block n s) (read_block s.drive_index (inode_block n s) s.io_buffer s).1
        × (write_inode s.drive_index n inode s ≡ last_write n inode s)
  unfolding write_inode read_io write_io IsRead
  write_inode-last_write n inode s c range ok =
      let b = inode_block n s in
      let r = read_block s.drive_index b s.io_buffer s in
      let t : Fs D = record r.2 { io_buffer = r.1 } in
      let last : Bool × Fs D =
        write_block s.drive_index b (changed_block n inode s)
          (record t { io_buffer = changed_block n inode s }) in
      elim (Bool-cases (has_inode n s)) [
        | inr lacks ↦ absurd (
            let no : not (has_inode n s) ≡ true = ground arith in
            let e : false ≡ true = sym (ap (λ (x : Bool × Fs D). x.0) (if_yes _ _ no)) ∙ ok in cc)
        | inl has ↦
            let no : not (has_inode n s) ≡ false = ground arith in
            elim (Bool-cases r.0) [
              | inr bad ↦ absurd (
                  let e : not r.0 ≡ true = ground arith in
                  let f : false ≡ true =
                    sym (ap (λ (x : Bool × Fs D). x.0) (if_no _ _ no ∙ if_yes (false, t) last e))
                    ∙ ok in
                  cc)
              | inl good ↦
                  let e : not r.0 ≡ false = ground arith in
                  (
                    has,
                    (read_block-IsRead b s.io_buffer s c range).0 good,
                    if_no _ _ no
                        ∙ if_no (false, t) last e
                        ∙ ap (λ (u : Fs D). write_block s.drive_index b (changed_block n inode s) u)
                            (sym (with_buffer-same b (changed_block n inode s) s c range)),
                  )
            ]
      ]

  -- What a write of an inode has done that succeeded.
  pub record IsStored (s : Fs D) (n : ℕ) (inode : Bytes) (t : Fs D) : Type 0 where
    pub stored : HasInode t n inode
    pub read_back :
        (old : Bytes)
        → let r = read_inode s.drive_index n old t in
          (r.0 ≡ true) × ((j : ℕ) → j < 128 → r.1 j ≡ inode j)
    pub coherent : IsCoherent t
    pub others :
        (m : ℕ) (other : Bytes)
        → AreApart s m n
        → InRange s (inode_block m s)
        → inode_offset m s + 128 ≤ s.block_size
        → HasInode s m other
        → HasInode t m other

  last_write-IsStored :
      (n : ℕ) (inode : Bytes) (s : Fs D)
      → IsLawful D
      → IsCoherent s
      → s.mounted ≡ true
      → InRange s (inode_block n s)
      → inode_offset n s + 128 ≤ s.block_size
      → has_inode n s ≡ true
      → HasBlock s (inode_block n s) (read_block s.drive_index (inode_block n s) s.io_buffer s).1
      → (last_write n inode s).0 ≡ true
      → IsStored s n inode (last_write n inode s).1
  unfolding write_block HasInode HasBlock InRange AreApart
  last_write-IsStored n inode s lawful c mounted range fits has before ok =
      let b = inode_block n s in
      let old = (read_block s.drive_index b s.io_buffer s).1 in
      let new = changed_block n inode s in
      let v = with_buffer b new s in
      let w =
        write_block-IsWritten b new v lawful (with_buffer-IsCoherent b new s c range) mounted range
          ok in
      let stored : HasInode (last_write n inode s).1 n inode = (
        has,
        new,
        w.written,
        λ j l. copy-inside old (inode_offset n s) inode 0 128 j l ∙ ap inode (omega arith),
      ) in
      record {
        stored = stored;
        read_back = λ any.
            read_inode-HasInode n inode any (last_write n inode s).1 w.coherent range fits stored;
        coherent = w.coherent;
        others = λ m other apart range' fits' (has', x, h, at).
            elim (Bool-cases (inode_block m s == b)) [
              | inl same ↦
                  let here : inode_block m s ≡ b = ==→eq same in
                  let agree =
                    HasBlock-unique s b x old c (subst (λ (k : ℕ). HasBlock s k x) here h) before in
                  let untouched : (j : ℕ)
                      → j < 128
                      → new (inode_offset m s + j) ≡ old (inode_offset m s + j) =
                    λ j l. elim apart [
                      | inl ne ↦ absurd (ne here)
                      | inr (inl less) ↦
                          copy-before old (inode_offset n s) inode 0 128 (inode_offset m s + j)
                            (omega arith)
                      | inr (inr more) ↦
                          copy-behind old (inode_offset n s) inode 0 128 (inode_offset m s + j)
                            (omega arith)
                    ] in
                  (
                    has',
                    new,
                    subst (λ (k : ℕ). HasBlock (last_write n inode s).1 k new) (sym here) w.written,
                    λ j l.
                        untouched j l ∙ sym (agree (inode_offset m s + j) (omega arith)) ∙ at j l,
                  )
              | inr differ ↦
                  let ne : inode_block m s ≢ b = ground arith in
                  (has', x, w.elsewhere (inode_block m s) ne range' x h, at)
            ];
      }

  pub write_inode-IsStored :
      (n : ℕ) (inode : Bytes) (s : Fs D)
      → IsLawful D
      → IsCoherent s
      → s.mounted ≡ true
      → InRange s (inode_block n s)
      → inode_offset n s + 128 ≤ s.block_size
      → let w = write_inode s.drive_index n inode s in w.0 ≡ true → IsStored s n inode w.1
  write_inode-IsStored n inode s lawful c mounted range fits ok =
      let (has, before, e) = write_inode-last_write n inode s c range ok in
      subst (λ (x : Bool × Fs D). IsStored s n inode x.1) (sym e)
        (last_write-IsStored n inode s lawful c mounted range fits has before
          (ap (λ (x : Bool × Fs D). x.0) (sym e) ∙ ok))
