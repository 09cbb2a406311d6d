-- ===== src/Ext2/Files/Rounds.antt =====
-- kernel/src/fs/ext2.c: the loop of `ext2_read` over the direct blocks of a file.
use kronosos.Base.{
  ℕ, zero, suc, ◌+◌, ◌-◌, ◌*◌, ◌/◌, ◌%◌, ◌^◌, ◌≤◌, ◌<◌, ◌≡◌, ◌≢◌, ◌∙◌, sym, ap, true, false, ltb,
  leb, ◌==◌, ==→eq, if◌then◌else◌, if_yes, if_no, Bool-cases, inl, inr, arith,
}
use mathlib.Core.Path.{subst}
use kronosos.Base.Bytes.{Bytes, copy, copy-inside}
use kronosos.Ext2.{Disk, Fs, read_io, read_block}
use kronosos.Ext2.Blocks.{InRange, HasBlock, IsCoherent}
use kronosos.Ext2.BlockReads.{read_block-HasBlock}
use kronosos.Ext2.Inodes.{i_size, i_block}
use kronosos.Ext2.Inodes.Stored.{with_buffer, with_buffer-same, with_buffer-IsCoherent}
use kronosos.Ext2.BlockMap.{get_block}
use kronosos.Ext2.Files.{chunk, read_rounds}
use kronosos.Ext2.Files.Transfers.{IsBetween, read_rounds-IsBetween, chunk-bound}
use kronosos.Ext2.Files.Chunks.{
  byte_at, byte_at-inside, chunk-positive, chunk-ends, next_block-start,
}

module _ {D : Disk} (inode : Bytes) (c : ℕ → Bytes) where
  -- The blocks of the first `end` bytes are direct blocks, and the drive has the contents in them.
  unfoldable pub HasContents : Fs D → ℕ → Type 0
  HasContents s end =
      (k : ℕ)
      → k * s.block_size < end
      → (k < 12)
        × (k < (i_size inode + s.block_size + 2 ^ 32 - 1) % 2 ^ 32 / s.block_size)
        × (i_block inode k ≢ 0)
        × InRange s (i_block inode k)
        × HasBlock s (i_block inode k) (c k)

  get_block-direct :
      (s : Fs D) (end k : ℕ)
      → HasContents s end
      → k * s.block_size < end
      → get_block inode k s ≡ (i_block inode k, s)
  unfolding get_block HasContents
  get_block-direct s end k h l =
      let (direct, inside, _, _, _) = h k l in
      let a : leb ((i_size inode + s.block_size + 2 ^ 32 - 1) % 2 ^ 32 / s.block_size) k ≡ false =
        ground arith in
      let b : ltb k 12 ≡ true = ground arith in if_no _ _ a ∙ if_yes _ _ b

  -- All bytes have been read.
  unfoldable pub IsComplete : ℕ → ℕ → ℕ → ℕ → ℕ × Bytes × Fs D → Type 0
  IsComplete size pos done remaining r =
      (r.0 ≡ done + remaining)
      × ((i : ℕ) → i < remaining → r.1 (done + i) ≡ byte_at size c (pos + i))

  nothing_left :
      (size pos done remaining : ℕ) (buf : Bytes) (s : Fs D)
      → remaining ≡ 0
      → IsComplete size pos done remaining (done, buf, s)
  unfolding IsComplete
  nothing_left size pos done remaining buf s e = (omega arith, λ i l. absurd (omega arith))

  -- A round and those after it.
  joined :
      (size pos next done remaining k offset : ℕ) (buf io : Bytes) (r : ℕ × Bytes × Fs D)
      → k ≤ remaining
      → IsBetween (copy buf done io offset k) (done + k) (remaining - k) r
      → IsComplete size next (done + k) (remaining - k) r
      → (0 < remaining - k → next ≡ pos + k)
      → ((i : ℕ) → i < k → io (offset + i) ≡ byte_at size c (pos + i))
      → IsComplete size pos done remaining r
  unfolding IsComplete IsBetween
  joined size pos next done remaining k offset buf io r le (_, _, kept) (count, bytes) follows
        here =
      (
        omega arith,
        λ i l. elim (Bool-cases (ltb i k)) [
          | inl now ↦
              let within : i < k = ground arith in
              kept (done + i) (inl (omega arith))
              ∙ copy-inside buf done io offset k i within
              ∙ here i within
          | inr later ↦
              let behind : k ≤ i = ground arith in
              let index : done + i ≡ done + k + (i - k) = omega arith in
              let place : next + (i - k) ≡ pos + i = let f = follows (omega arith) in omega arith in
              ap r.1 index ∙ bytes (i - k) (omega arith) ∙ ap (byte_at size c) place
        ],
      )

  HasContents-with_buffer :
      (s : Fs D) (end block : ℕ) (io : Bytes)
      → HasContents s end
      → HasContents (with_buffer block io s) end
  unfolding HasContents InRange HasBlock
  HasContents-with_buffer s end block io h = h

  -- what a round does with its block, and with the state that has read it
  abbrev with_block : ℕ → ℕ → ℕ → Bytes → ℕ → ℕ → Fs D → ℕ × Fs D → ℕ × Bytes × Fs D
  with_block n idx offset buf done remaining s p =
      let (ok, u) = read_io p.1.drive_index p.0 p.1 in
      let k = chunk u.block_size offset remaining in
      let rest =
        read_rounds n inode ((idx + 1) % 2 ^ 32) 0 (copy buf done u.io_buffer offset k) (done + k)
          (remaining - k) u in
      if remaining == 0
      then (done, buf, s)
      else if p.0 == 0
      then (done, buf, p.1)
      else if ok
      then rest
      else (done, buf, u)

  abbrev after_block : ℕ → ℕ → ℕ → Bytes → ℕ → ℕ → Fs D → ℕ × Bytes × Fs D
  after_block n idx offset buf done remaining u =
      let k = chunk u.block_size offset remaining in
      read_rounds n inode ((idx + 1) % 2 ^ 32) 0 (copy buf done u.io_buffer offset k) (done + k)
        (remaining - k) u

  -- The round reads its block, and goes on behind it.
  round :
      (P : ℕ × Bytes × Fs D → Type 0) (n idx offset : ℕ) (buf : Bytes) (done remaining : ℕ)
      (s : Fs D) (end : ℕ)
      → IsCoherent s
      → HasContents s end
      → idx * s.block_size < end
      → (remaining == 0) ≡ false
      → let b = i_block inode idx in
        P (
          after_block n idx offset buf done remaining
            (with_buffer b (read_block s.drive_index b s.io_buffer s).1 s))
        → P (read_rounds (suc n) inode idx offset buf done remaining s)
  unfolding read_rounds read_io HasContents
  round P n idx offset buf done remaining s end coherent h l some_left p =
      let (_, _, nonzero, range, has) = h idx l in
      let b = i_block inode idx in
      let (ok, _) = read_block-HasBlock b (c idx) s.io_buffer s coherent range has in
      let io = (read_block s.drive_index b s.io_buffer s).1 in
      let zero_no : (b == 0) ≡ false = ground arith in
      let u : Fs D = record (read_block s.drive_index b s.io_buffer s).2 { io_buffer = io } in
      let steps : with_block n idx offset buf done remaining s (b, s)
          ≡ after_block n idx offset buf done remaining u =
        if_no _ _ some_left ∙ if_no _ _ zero_no ∙ if_yes _ _ ok in
      subst (λ (x : ℕ × Fs D). P (with_block n idx offset buf done remaining s x))
        (sym (get_block-direct s end idx h l))
        (subst P (sym steps) (
          subst (λ (t : Fs D). P (after_block n idx offset buf done remaining t))
            (with_buffer-same b io s coherent range) p))

  pub read_rounds-IsComplete :
      (n idx offset : ℕ) (buf : Bytes) (done remaining : ℕ) (s : Fs D) (end : ℕ)
      → IsCoherent s
      → HasContents s end
      → offset < s.block_size
      → remaining ≤ n
      → (0 < remaining → idx * s.block_size + offset + remaining ≤ end)
      → IsComplete s.block_size
          (idx * s.block_size + offset)
          done
          remaining
          (read_rounds n inode idx offset buf done remaining s)
  unfolding read_rounds read_io HasContents
  read_rounds-IsComplete zero idx offset buf done remaining s end coherent h l fuel fits =
      nothing_left s.block_size (idx * s.block_size + offset) done remaining buf s (omega arith)
  read_rounds-IsComplete (suc n) idx offset buf done remaining s end coherent h l fuel fits =
      let pos = idx * s.block_size + offset in
      let P : ℕ × Bytes × Fs D → Type 0 = IsComplete s.block_size pos done remaining in
      elim (Bool-cases (remaining == 0)) [
        | inl none_left ↦
            subst P (sym (if_yes _ _ none_left))
              (nothing_left s.block_size pos done remaining buf s (==→eq none_left))
        | inr some_left ↦
            let more : 0 < remaining = ground arith in
            let room = fits more in
            let (direct, _, _, range, has) = h idx (omega arith) in
            let b = i_block inode idx in
            let (_, same) = read_block-HasBlock b (c idx) s.io_buffer s coherent range has in
            let io = (read_block s.drive_index b s.io_buffer s).1 in
            let v = with_buffer b io s in
            let k = chunk s.block_size offset remaining in
            let next = (idx + 1) % 2 ^ 32 in
            let (within, _) = chunk-ends s.block_size offset remaining l in
            let moved = chunk-positive s.block_size offset remaining l more in
            let follows = next_block-start s.block_size idx offset remaining direct l in
            let ih =
              read_rounds-IsComplete n next 0 (copy buf done io offset k) (done + k) (remaining - k)
                v end (with_buffer-IsCoherent b io s coherent range)
                (HasContents-with_buffer s end b io h) (omega arith) (omega arith)
                (λ left. let f = follows left in omega arith) in
            round P n idx offset buf done remaining s end coherent h (omega arith) some_left (
              joined s.block_size pos (next * s.block_size + 0) done remaining k offset buf io
                (after_block n idx offset buf done remaining v)
                (chunk-bound s.block_size offset remaining)
                (read_rounds-IsBetween n inode next 0 (copy buf done io offset k) (done + k)
                  (remaining - k) v)
                ih follows
                (λ i u.
                  let assoc : idx * s.block_size + (offset + i) ≡ pos + i = omega arith in
                  same (offset + i) (omega arith)
                  ∙ sym (byte_at-inside s.block_size idx (offset + i) c (omega arith))
                  ∙ ap (byte_at s.block_size c) assoc))
      ]
