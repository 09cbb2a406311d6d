-- ===== src/Ext2/Files/Transfers.antt =====
-- kernel/src/fs/ext2.c: what `ext2_read` returns, and the bytes of the buffer that it changes.
use kronosos.Base.{
  ℕ, zero, suc, ◌+◌, ◌-◌, ◌/◌, ◌%◌, ◌^◌, ◌≤◌, ◌<◌, ◌≡◌, ◌∙◌, ◌⊎◌, refl, not, Option, none, some,
  ltb, leb, ◌==◌, if◌then◌else◌, if_both, if_split, inl, inr, arith,
}
use kronosos.Base.Bytes.{Bytes, copy, copy-before, copy-behind}
use kronosos.Ext2.{Disk, Fs, read_io}
use kronosos.Ext2.Inodes.{i_size}
use kronosos.Ext2.BlockMap.{get_block}
use kronosos.Ext2.Files.{chunk, is_file, is_readable, read_rounds, read_file}

pub chunk-bound : (size offset remaining : ℕ) → chunk size offset remaining ≤ remaining
chunk-bound size offset remaining =
    if_split (λ (k : ℕ). k ≤ remaining) (ltb remaining (size - offset)) remaining (size - offset)
      (λ l. omega arith) (λ l. ground arith)

module _ {D : Disk} where
  -- The rounds that begin with `done` bytes read at most `remaining` more, and change no others.
  unfoldable pub IsBetween : Bytes → ℕ → ℕ → ℕ × Bytes × Fs D → Type 0
  IsBetween buf done remaining r =
      (done ≤ r.0) × (r.0 ≤ done + remaining) × ((i : ℕ) → (i < done) ⊎ (r.0 ≤ i) → r.1 i ≡ buf i)

  stopped :
      (buf : Bytes) (done remaining : ℕ) (s : Fs D) → IsBetween buf done remaining (done, buf, s)
  unfolding IsBetween
  stopped buf done remaining s = (omega arith, omega arith, λ i h. refl)

  -- A round that moves `k` bytes, and those after it.
  one_round :
      (buf io : Bytes) (offset done remaining k : ℕ) (r : ℕ × Bytes × Fs D)
      → k ≤ remaining
      → IsBetween (copy buf done io offset k) (done + k) (remaining - k) r
      → IsBetween buf done remaining r
  unfolding IsBetween
  one_round buf io offset done remaining k r l (a, b, c) = (
    omega arith,
    omega arith,
    λ i h. elim h [
      | inl below ↦ c i (inl (omega arith)) ∙ copy-before buf done io offset k i below
      | inr above ↦ c i (inr above) ∙ copy-behind buf done io offset k i (omega arith)
    ],
  )

  pub read_rounds-IsBetween :
      (n : ℕ) (inode : Bytes) (block_idx offset : ℕ) (buf : Bytes) (done remaining : ℕ) (s : Fs D)
      → IsBetween buf done remaining (read_rounds n inode block_idx offset buf done remaining s)
  unfolding read_rounds
  read_rounds-IsBetween zero inode block_idx offset buf done remaining s =
      stopped buf done remaining s
  read_rounds-IsBetween (suc n) inode block_idx offset buf done remaining s =
      let (block, t) = get_block inode block_idx s in
      let (ok, u) = read_io t.drive_index block t in
      let k = chunk u.block_size offset remaining in
      let P : ℕ × Bytes × Fs D → Type 0 = IsBetween buf done remaining in
      let rest =
        read_rounds n inode ((block_idx + 1) % 2 ^ 32) 0 (copy buf done u.io_buffer offset k)
          (done + k) (remaining - k) u in
      if_both P (remaining == 0) (done, buf, s) _ (stopped buf done remaining s)
        (if_both P (block == 0) (done, buf, t) _ (stopped buf done remaining t)
          (if_both P ok rest (done, buf, u)
            (one_round buf u.io_buffer offset done remaining k rest
              (chunk-bound u.block_size offset remaining)
              (read_rounds-IsBetween n inode ((block_idx + 1) % 2 ^ 32) 0
                (copy buf done u.io_buffer offset k) (done + k) (remaining - k) u))
            (stopped buf done remaining u)))

  -- With -1 the buffer is as before; with `n` only its first `n` bytes have changed, which are no more than
  -- were asked for and than the file has from its position on.
  unfoldable pub IsTransfer : ℕ → ℕ → Bytes → Option ℕ × Bytes × Fs D → Type 0
  IsTransfer size left buffer r = elim r.0 as (λ o. Type 0) [
    | none ↦ (i : ℕ) → r.1 i ≡ buffer i
    | some n ↦ (n ≤ size) × (n ≤ left) × ((i : ℕ) → n ≤ i → r.1 i ≡ buffer i)
  ]

  -- For a position and a size whose sum does not wrap around at 2^64, ext2_read gives -1 and leaves the
  -- buffer, or it gives a number of at most the size, and at most what the file has from its position on,
  -- and leaves the bytes of the buffer from that number on.
  pub read_file-IsTransfer :
      (fd : ℕ) (buffer : Bytes) (size : ℕ) (s : Fs D)
      → (s.open_files fd).position + size < 2 ^ 64
      → IsTransfer size
          (i_size (s.open_files fd).inode - (s.open_files fd).position)
          buffer
          (read_file fd buffer size s)
  unfolding read_file IsTransfer IsBetween
  read_file-IsTransfer fd buffer size s fits =
      let file = s.open_files fd in
      let left = i_size file.inode - file.position in
      let P : Option ℕ × Bytes × Fs D → Type 0 = IsTransfer size left buffer in
      let limited =
        if ltb (i_size file.inode) ((file.position + size) % 2 ^ 64) then left else size in
      let r =
        read_rounds limited file.inode (file.position / s.block_size % 2 ^ 32)
          (file.position % s.block_size) buffer 0 limited s in
      let (a, b, c) =
        read_rounds-IsBetween limited file.inode (file.position / s.block_size % 2 ^ 32)
          (file.position % s.block_size) buffer 0 limited s in
      if_both P (not (is_file fd s)) (none, buffer, s) _ (λ i. refl)
        (if_both P (not (is_readable file.flags)) (none, buffer, s) _ (λ i. refl)
          (if_split P (leb (i_size file.inode) file.position) (some 0, buffer, s) _
            (λ end. (omega arith, omega arith, λ i l. refl))
            (λ inside.
              let within : (limited ≤ size) × (limited ≤ left) =
                if_split (λ (m : ℕ). (m ≤ size) × (m ≤ left))
                  (ltb (i_size file.inode) ((file.position + size) % 2 ^ 64)) left size
                  (λ more. (ground arith, omega arith)) (λ less. (omega arith, ground arith)) in
              let (w, v) = within in (omega arith, omega arith, λ i l. c i (inr l)))))
