-- ===== src/Ext2/Inodes/Places.antt =====
-- kernel/src/fs/ext2.c: the places of the inodes of a group in its table.
use kronosos.Base.{
  ℕ, ◌+◌, ◌-◌, ◌*◌, ◌/◌, ◌%◌, ◌^◌, ◌≤◌, ◌<◌, ◌≡◌, ◌≢◌, ◌⊎◌, ap, true, ltb, ◌==◌, ==→eq, Bool-cases,
  inl, inr, arith,
}
use native.Mathlib.Nat.{
  mul-le-mul_right, div-mul-le_self, mod-lt, le-div_iff_mul-le, div-add-mod, div-le_self,
}
use kronosos.Base.Bytes.{Bytes}
use kronosos.Ext2.{Disk, Fs}
use kronosos.Ext2.Cache.{IsLawful}
use kronosos.Ext2.Blocks.{InRange, IsCoherent}
use kronosos.Ext2.Inodes.{inode_block, inode_offset, bg_inode_table, read_inode, write_inode}
use kronosos.Ext2.Inodes.Stored.{AreApart, HasInode, write_inode-IsStored}

-- An inode has room for its 128 bytes, and a block for an inode.
pub record HasRoom {D : Disk} (s : Fs D) : Type 0 where
  pub inode_room : 128 ≤ s.inode_size
  pub block_room : s.inode_size ≤ s.block_size
  pub small : s.block_size < 2 ^ 32

one_item : (size item : ℕ) → 0 < item → item ≤ size → 1 ≤ size / item
one_item size item pos room = (le-div_iff_mul-le {x = 1} {y = size} pos).1 (omega arith)

-- item `k` of those that a block of `size` bytes has room for
slot-fits : (size item k : ℕ) → 0 < item → item ≤ size → k % (size / item) * item + item ≤ size
slot-fits size item k pos room =
    let per : 1 ≤ size / item = one_item size item pos room in
    let less = mod-lt k {m = size / item} (omega arith) in
    let a = mul-le-mul_right {m = k % (size / item) + 1} {n = size / item} item (omega arith) in
    let b = div-mul-le_self size item in omega arith

-- two items are in different blocks, or one ends before the other begins.
slots-apart :
    (q item j k : ℕ)
    → 0 < q
    → j ≢ k
    → (j / q ≢ k / q)
      ⊎ ((j % q * item + item ≤ k % q * item) ⊎ (k % q * item + item ≤ j % q * item))
slots-apart q item j k pos ne = elim (Bool-cases (j / q == k / q)) [
  | inr differ ↦ inl (ground arith)
  | inl same ↦
      let e : q * (j / q) ≡ q * (k / q) = ap (λ (m : ℕ). q * m) (==→eq same) in
      let a = div-add-mod j q in
      let b = div-add-mod k q in
      inr (elim (Bool-cases (ltb (j % q) (k % q))) [
        | inl less ↦
            let m = mul-le-mul_right {m = j % q + 1} {n = k % q} item (ground arith) in
            inl (omega arith)
        | inr more ↦
            let unequal : j % q ≢ k % q = λ x. ne (omega arith) in
            let m = mul-le-mul_right {m = k % q + 1} {n = j % q} item (ground arith) in
            inr (omega arith)
      ])
]

module _ {D : Disk} (s : Fs D) (room : HasRoom s) where
  pub inode_offset-fits : (n : ℕ) → inode_offset n s + 128 ≤ s.block_size
  unfolding inode_offset
  inode_offset-fits n =
      let r = room.inode_room in
      let small = room.small in
      let fits =
        slot-fits s.block_size s.inode_size ((n - 1) % s.inodes_per_group) (omega arith)
          room.block_room in
      omega arith

  -- Two inodes of a group do not meet.
  pub same_group-AreApart :
      (m n : ℕ)
      → 0 < m
      → 0 < n
      → m < 2 ^ 32
      → n < 2 ^ 32
      → m ≢ n
      → (m - 1) / s.inodes_per_group ≡ (n - 1) / s.inodes_per_group
      → AreApart s m n
  unfolding AreApart inode_block inode_offset
  same_group-AreApart m n pm pn um un ne group =
      let r = room.inode_room in
      let small = room.small in
      let ipg = s.inodes_per_group in
      let q = s.block_size / s.inode_size in
      let j = (m - 1) % ipg in
      let k = (n - 1) % ipg in
      let per : 1 ≤ q = one_item s.block_size s.inode_size (omega arith) room.block_room in
      let fj = slot-fits s.block_size s.inode_size j (omega arith) room.block_room in
      let fk = slot-fits s.block_size s.inode_size k (omega arith) room.block_room in
      let e : ipg * ((m - 1) / ipg) ≡ ipg * ((n - 1) / ipg) = ap (λ (x : ℕ). ipg * x) group in
      let a = div-add-mod (m - 1) ipg in
      let b = div-add-mod (n - 1) ipg in
      let table = ap (bg_inode_table s.group_descs) group in
      let dj = div-le_self j q in
      let dk = div-le_self k q in
      elim (slots-apart q s.inode_size j k (omega arith) (λ x. ne (omega arith))) [
        | inl differ ↦ inl (λ x. differ (omega arith))
        | inr (inl less) ↦ inr (inl (omega arith))
        | inr (inr more) ↦ inr (inr (omega arith))
      ]

-- On a drive on which a sector with a number below 2^28 that has been written is read back and the
-- others below 2^28 stay, for the mounted drive, a cache that agrees with it, a block size of whole
-- sectors and at most 4096, an inode size of at least 128 and at most a block, and inode numbers from
-- 1 to 2^32 - 1 whose blocks have sectors below 2^28: ext2_read_inode after a successful
-- ext2_write_inode succeeds and gives the bytes of the inode, and any other inode of the group that
-- the drive had is still there.
pub read_inode-write_inode :
    {D : Disk} (n : ℕ) (inode : Bytes) (s : Fs D)
    → IsLawful D
    → IsCoherent s
    → s.mounted ≡ true
    → HasRoom s
    → InRange s (inode_block n s)
    → 0 < n
    → n < 2 ^ 32
    → let w = write_inode s.drive_index n inode s in
      w.0 ≡ true
      → ((old : Bytes)
          → let r = read_inode s.drive_index n old w.1 in
            (r.0 ≡ true) × ((j : ℕ) → j < 128 → r.1 j ≡ inode j))
        × ((m : ℕ) (other : Bytes)
            → 0 < m
            → m < 2 ^ 32
            → m ≢ n
            → (m - 1) / s.inodes_per_group ≡ (n - 1) / s.inodes_per_group
            → InRange s (inode_block m s)
            → HasInode s m other
            → HasInode w.1 m other)
read_inode-write_inode n inode s lawful c mounted room range pos small ok =
    let w = write_inode-IsStored n inode s lawful c mounted range (inode_offset-fits s room n) ok in
    (
      w.read_back,
      λ m other pm um ne group range' h.
          w.others m other (same_group-AreApart s room m n pm pos um small ne group) range'
            (inode_offset-fits s room m) h,
    )
