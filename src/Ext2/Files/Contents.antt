-- ===== src/Ext2/Files/Contents.antt =====
-- kernel/src/fs/ext2.c: the bytes that `ext2_read` copies from the direct blocks of a file.
use kronosos.Base.{
  ℕ, ◌+◌, ◌-◌, ◌*◌, ◌/◌, ◌%◌, ◌^◌, ◌<◌, ◌≡◌, ◌∙◌, min, sym, ap, true, false, not, Option, some, ltb,
  leb, if◌then◌else◌, if_no, if_split, arith,
}
use mathlib.Core.Path.{subst}
use native.Mathlib.Nat.{mod-lt, div-add-mod', div-le_self}
use kronosos.Base.Bytes.{Bytes}
use kronosos.Ext2.{Disk, Fs}
use kronosos.Ext2.Blocks.{IsCoherent}
use kronosos.Ext2.Inodes.{i_size}
use kronosos.Ext2.Files.{is_file, is_readable, read_rounds, finish_read, read_file}
use kronosos.Ext2.Files.Chunks.{byte_at}
use kronosos.Ext2.Files.Rounds.{HasContents, IsComplete, read_rounds-IsComplete}

module _ {D : Disk} (inode : Bytes) (c : ℕ → Bytes) where
  -- What the read of `size` bytes at a position of a file with `length` bytes gives.
  unfoldable pub IsRange : ℕ → ℕ → ℕ → ℕ → Option ℕ × Bytes × Fs D → Type 0
  IsRange block_size length pos size r =
      (r.0 ≡ some (min size (length - pos)))
      × ((i : ℕ) → i < min size (length - pos) → r.1 i ≡ byte_at block_size c (pos + i))

-- For an open file that may be read, with a cache that agrees with the drive and a block size of
-- whole sectors and at most 4096. All blocks that hold bytes of the file are direct ones and none is
-- the block 0; the code counts all of them in 32 bits, their sectors have numbers of 28 bits, and
-- the drive reads all of them with success. The position is below 2^32, and its sum with the size
-- does not wrap around. Then ext2_read gives the smaller of the size and what the file has from its
-- position on, and puts that many bytes of these blocks from the position on into the buffer.
pub read_file-IsRange :
    {D : Disk} (fd : ℕ) (buffer : Bytes) (size : ℕ) (c : ℕ → Bytes) (s : Fs D)
    → IsCoherent s
    → is_file fd s ≡ true
    → is_readable (s.open_files fd).flags ≡ true
    → (s.open_files fd).position < 2 ^ 32
    → (s.open_files fd).position + size < 2 ^ 64
    → HasContents (s.open_files fd).inode c s (i_size (s.open_files fd).inode)
    → IsRange
        (s.open_files fd).inode
        c
        s.block_size
        (i_size (s.open_files fd).inode)
        (s.open_files fd).position
        size
        (read_file fd buffer size s)
unfolding read_file IsRange IsComplete
read_file-IsRange {D} fd buffer size c s coherent opened readable low fits h =
    let file = s.open_files fd in
    let pos = file.position in
    let total = i_size file.inode in
    let P : Option ℕ × Bytes × Fs D → Type 0 = IsRange file.inode c s.block_size total pos size in
    let idx = pos / s.block_size % 2 ^ 32 in
    let offset = pos % s.block_size in
    let limited = if ltb total ((pos + size) % 2 ^ 64) then total - pos else size in
    let smaller = div-le_self pos s.block_size in
    let whole : pos / s.block_size ≡ idx = omega arith in
    let at : idx * s.block_size + offset ≡ pos =
      ap (λ (m : ℕ). m * s.block_size + offset) (sym whole) ∙ div-add-mod' pos s.block_size in
    let inside = mod-lt pos coherent.positive in
    let r = read_rounds limited file.inode idx offset buffer 0 limited s in
    let no_guard : not (is_file fd s) ≡ false = ground arith in
    let may_read : not (is_readable file.flags) ≡ false = ground arith in
    let amount : pos < total → limited ≡ min size (total - pos) = λ l.
      if_split (λ (m : ℕ). m ≡ min size (total - pos)) (ltb total ((pos + size) % 2 ^ 64))
        (total - pos) size (λ more. ground arith) (λ less. ground arith) in
    subst P (sym (if_no _ _ no_guard ∙ if_no _ _ may_read)) (
      if_split P (leb total pos) (some 0, buffer, s) (some r.0, r.1, finish_read fd r.0 r.2)
        (λ past. (ap some (ground arith), λ i l. absurd (ground arith)))
        (λ before.
          let l : pos < total = ground arith in
          let n = amount l in
          let (count, bytes) =
            read_rounds-IsComplete file.inode c limited idx offset buffer 0 limited s total coherent
              h inside (omega arith) (λ some_left. omega arith) in
          (
            ap some (omega arith),
            λ i u.
                let start : i ≡ 0 + i = omega arith in
                ap r.1 start
                ∙ bytes i (omega arith)
                ∙ ap (λ (q : ℕ). byte_at s.block_size c (q + i)) at,
          )))
