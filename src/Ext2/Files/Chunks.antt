-- ===== src/Ext2/Files/Chunks.antt =====
-- kernel/src/fs/ext2.c: the parts of a file that the rounds of `ext2_read` move.
use kronosos.Base.{
  ℕ, ◌+◌, ◌-◌, ◌*◌, ◌/◌, ◌%◌, ◌^◌, ◌≤◌, ◌<◌, ◌≡◌, ◌∙◌, ◌⊎◌, refl, ap, ltb, if_both, if_split, inl,
  inr, arith,
}
use native.Mathlib.Nat.{mod-eq_of_lt, mul-add-mod_self_right, div-eq_of_lt-le, add-mul}
use kronosos.Base.Bytes.{Bytes}
use kronosos.Ext2.Files.{chunk}

-- byte `q` of a file whose blocks have `size` bytes and the contents `c`
abbrev pub byte_at : ℕ → (ℕ → Bytes) → ℕ → ℕ
byte_at size c q = c (q / size) (q % size)

pub byte_at-inside :
    (size idx i : ℕ) (c : ℕ → Bytes) → i < size → byte_at size c (idx * size + i) ≡ c idx i
byte_at-inside size idx i c h =
    let q : (idx * size + i) / size ≡ idx =
      div-eq_of_lt-le size (omega arith) (let d = add-mul idx 1 size in omega arith) in
    let r : (idx * size + i) % size ≡ i = mul-add-mod_self_right idx size i ∙ mod-eq_of_lt h in
    ap (λ (k : ℕ). c k ((idx * size + i) % size)) q ∙ ap (c idx) r

-- A round moves something, and ends with the transfer or with the block.
pub chunk-positive :
    (size offset remaining : ℕ) → offset < size → 0 < remaining → 0 < chunk size offset remaining
chunk-positive size offset remaining l more =
    if_both (λ (k : ℕ). 0 < k) (ltb remaining (size - offset)) remaining (size - offset) more
      (omega arith)

pub chunk-ends :
    (size offset remaining : ℕ)
    → offset < size
    → let k = chunk size offset remaining in
      (offset + k ≤ size) × ((k ≡ remaining) ⊎ (offset + k ≡ size))
chunk-ends size offset remaining l =
    if_split (λ (k : ℕ). (offset + k ≤ size) × ((k ≡ remaining) ⊎ (offset + k ≡ size)))
      (ltb remaining (size - offset)) remaining (size - offset) (λ less. (ground arith, inl refl))
      (λ rest. (omega arith, inr (omega arith)))

-- the start of the next block
next_block : (size idx : ℕ) → idx < 12 → (idx + 1) % 2 ^ 32 * size + 0 ≡ idx * size + size
next_block size idx h =
    let wrap : (idx + 1) % 2 ^ 32 ≡ idx + 1 = omega arith in
    ap (λ (m : ℕ). m * size + 0) wrap ∙ (let d = add-mul idx 1 size in omega arith)

-- After a round that has not ended the transfer, the next block begins where the round ended.
pub next_block-start :
    (size idx offset remaining : ℕ)
    → idx < 12
    → offset < size
    → 0 < remaining - chunk size offset remaining
    → (idx + 1) % 2 ^ 32 * size + 0 ≡ idx * size + offset + chunk size offset remaining
next_block-start size idx offset remaining direct l left =
    let (_, ends) = chunk-ends size offset remaining l in
    next_block size idx direct
    ∙ elim ends [ inl all ↦ absurd (omega arith) | inr full ↦ omega arith ]
