-- ===== src/Ext2/Cache.antt =====
-- The block cache and the disk: what a read gives, and what a write leaves.
use kronosos.Base.{
  ℕ, zero, suc, ◌+◌, ◌-◌, ◌*◌, ◌^◌, ◌≤◌, ◌<◌, ◌≡◌, ◌≢◌, ◌∙◌, refl, sym, ap, Bool, true, false, ◌&&◌,
  Option, none, some, ltb, leb, ◌==◌, ==→eq, if◌then◌else◌, if_yes, if_no, Bool-cases, inl, inr,
  arith,
}
use mathlib.Core.Path.{subst}
use kronosos.Base.Bytes.{Bytes, copy, copy-inside, copy-before}
use kronosos.Ext2.{Disk, sector_at, read_sectors, write_sectors}

-- a sector of the drive, cut to its 512 bytes
abbrev pub sector_of : Bytes → ℕ → Bytes
sector_of b i = λ j. if ltb j 512 then b (i * 512 + j) else 0

-- What the file system relies on, of drives that answer: a sector that has been written with success
-- is read back, and the others are read as before. The driver sends 28 bits of a sector's number
-- (kernel/src/drivers/ata/ata.c), so that nothing is said of higher ones.
pub record IsLawful (D : Disk) : Type 0 where
  pub read-write :
      (s t : D.State) (drive sector : ℕ) (b : Bytes)
      → sector < 2 ^ 28
      → D.write_sector s drive sector b ≡ (true, t)
      → (d k : ℕ) → k < 2 ^ 28
      → D.read_sector t d k ≡ (
          if (d == drive) && (k == sector)
          then some (λ j. if ltb j 512 then b j else 0)
          else D.read_sector s d k)

-- The `n` sectors from `start` on hold the bytes `b`.
unfoldable pub Holds : (D : Disk) → D.State → ℕ → ℕ → ℕ → Bytes → Type 0
Holds D disk drive start n b =
    (i : ℕ)
    → i < n
    → (r : Bytes) × (D.read_sector disk drive (start + i) ≡ some r)
      × ((j : ℕ) → j < 512 → r j ≡ b (i * 512 + j))

-- What the loop that reads has put into the buffer.
pub record Fetched (D : Disk) (disk : D.State) (drive start n i : ℕ) (buffer out : Bytes)
    : Type 0 where
  pub sectors :
      (k : ℕ)
      → i ≤ k
      → k < i + n
      → (r : Bytes) × (D.read_sector disk drive (start + k) ≡ some r)
        × ((j : ℕ) → j < 512 → r j ≡ out (k * 512 + j))
  pub below : (p : ℕ) → p < i * 512 → out p ≡ buffer p

module _ (D : Disk) (disk : D.State) (drive start : ℕ) where
  fetch_one :
      (n i : ℕ) (buffer b out : Bytes)
      → D.read_sector disk drive (start + i) ≡ some b
      → Fetched D disk drive start n (i + 1) (copy buffer (i * 512) b 0 512) out
      → Fetched D disk drive start (suc n) i buffer out
  fetch_one n i buffer b out e f = record {
    sectors = λ k l u. elim (Bool-cases (k == i)) [
      | inl here ↦
          subst
            (λ (m : ℕ).
              (r : Bytes) × (D.read_sector disk drive (start + m) ≡ some r)
              × ((j : ℕ) → j < 512 → r j ≡ out (m * 512 + j)))
            (sym (==→eq here))
            (
              b,
              e,
              λ j h. sym (
                  f.below (i * 512 + j) (omega arith)
                  ∙ copy-inside buffer (i * 512) b 0 512 j h
                  ∙ ap b (omega arith)),
            )
      | inr other ↦ let ne : k ≢ i = ground arith in f.sectors k (omega arith) (omega arith)
    ];
    below = λ p h. f.below p (omega arith) ∙ copy-before buffer (i * 512) b 0 512 p h;
  }

  pub read_sectors-Fetched :
      (n i : ℕ) (buffer : Bytes)
      → start + (i + n) ≤ 2 ^ 32
      → (read_sectors D drive start n i buffer disk).0 ≡ true
      → Fetched D disk drive start n i buffer (read_sectors D drive start n i buffer disk).1
  unfolding read_sectors
  read_sectors-Fetched zero i buffer h e = record {
    sectors = λ k l u. absurd (omega arith);
    below = λ p l. refl;
  }
  read_sectors-Fetched (suc n) i buffer h e =
      by_sector (D.read_sector disk drive (sector_at start i)) refl e
        (λ b. read_sectors-Fetched n (i + 1) (copy buffer (i * 512) b 0 512) (omega arith))
    where
      step : Option Bytes → Bool × Bytes
      step o = elim o [
        | none ↦ (false, buffer)
        | some b ↦ read_sectors D drive start n (i + 1) (copy buffer (i * 512) b 0 512) disk
      ]

      by_sector :
          (o : Option Bytes)
          → D.read_sector disk drive (sector_at start i) ≡ o
          → (step o).0 ≡ true
          → ((b : Bytes)
              → (read_sectors D drive start n (i + 1) (copy buffer (i * 512) b 0 512) disk).0 ≡ true
              → Fetched D disk drive start n
                  (i + 1)
                  (copy buffer (i * 512) b 0 512)
                  (read_sectors D drive start n (i + 1) (copy buffer (i * 512) b 0 512) disk).1)
          → Fetched D disk drive start (suc n) i buffer (step o).1
      by_sector none f g ih = cc
      by_sector (some b) f g ih =
          let at : sector_at start i ≡ start + i = omega arith in
          fetch_one n i buffer b _ (ap (D.read_sector disk drive) (sym at) ∙ f) (ih b g)

-- The sector `k` of drive `d` is one of `n` sectors from `start + i` on.
abbrev pub inside : ℕ → ℕ → ℕ → ℕ → ℕ → ℕ → Bool
inside drive start d k i n = (d == drive) && (leb (start + i) k && ltb k (start + (i + n)))

-- Writing sectors leaves the sectors in the range with the bytes of the buffer, and no others.
module _ (D : Disk) (lawful : IsLawful D) (drive start : ℕ) (buffer : Bytes) where
  write_one :
      (n i : ℕ) (disk after : D.State) (d k : ℕ)
      → start + (i + suc n) ≤ 2 ^ 28
      → k < 2 ^ 28
      → D.write_sector disk drive (sector_at start i) (λ j. buffer (i * 512 + j)) ≡ (true, after)
      → (if inside drive start d k (i + 1) n
          then some (sector_of buffer (k - start))
          else D.read_sector after d k)
        ≡ (if inside drive start d k i (suc n)
            then some (sector_of buffer (k - start))
            else D.read_sector disk d k)
  write_one n i disk after d k h low e =
      let at : sector_at start i ≡ start + i = omega arith in
      let law : D.read_sector after d k ≡ (
          if (d == drive) && (k == start + i)
          then some (sector_of buffer i)
          else D.read_sector disk d k) =
        lawful.read-write disk after drive (sector_at start i) (λ j. buffer (i * 512 + j))
          (omega arith) e d k low
        ∙ ap
            (λ (m : ℕ).
              if (d == drive) && (k == m)
              then some (sector_of buffer i)
              else D.read_sector disk d k)
            at in
      elim (Bool-cases ((d == drive) && (k == start + i))) [
        | inl hit ↦
            let before : inside drive start d k (i + 1) n ≡ false = ground arith in
            let now : inside drive start d k i (suc n) ≡ true = ground arith in
            let index : i ≡ k - start = ground arith in
            if_no _ _ before
            ∙ law
            ∙ if_yes _ _ hit
            ∙ ap (λ (m : ℕ). some (sector_of buffer m)) index
            ∙ sym (if_yes _ _ now)
        | inr missed ↦
            let same : inside drive start d k (i + 1) n ≡ inside drive start d k i (suc n) =
              ground arith in
            ap
              (λ (o : Option Bytes).
                if inside drive start d k (i + 1) n then some (sector_of buffer (k - start)) else o)
              (law ∙ if_no _ _ missed)
            ∙ ap
                (λ (b : Bool).
                  if b then some (sector_of buffer (k - start)) else D.read_sector disk d k)
                same
      ]

  pub write_sectors-read :
      (n i : ℕ) (disk : D.State)
      → start + (i + n) ≤ 2 ^ 28
      → (write_sectors D drive start n i buffer disk).0 ≡ true
      → (d k : ℕ) → k < 2 ^ 28
      → D.read_sector (write_sectors D drive start n i buffer disk).1 d k ≡ (
          if inside drive start d k i n
          then some (sector_of buffer (k - start))
          else D.read_sector disk d k)
  unfolding write_sectors
  write_sectors-read zero i disk h e d k low =
      let no : inside drive start d k i 0 ≡ false = ground arith in sym (if_no _ _ no)
  write_sectors-read (suc n) i disk h e d k low =
      let w = D.write_sector disk drive (sector_at start i) (λ j. buffer (i * 512 + j)) in
      let rest = write_sectors D drive start n (i + 1) buffer w.1 in
      elim (Bool-cases w.0) [
        | inr bad ↦
            let gone : false ≡ true =
              sym (ap (λ (b : Bool). (if b then rest else (false, w.1)).0) bad) ∙ e in
            cc
        | inl good ↦
            let e' : rest.0 ≡ true =
              sym (ap (λ (b : Bool). (if b then rest else (false, w.1)).0) good) ∙ e in
            ap (λ (b : Bool). D.read_sector (if b then rest else (false, w.1)).1 d k) good
            ∙ write_sectors-read n (i + 1) w.1 (omega arith) e' d k low
            ∙ write_one n i disk w.1 d k h low (ap (λ (b : Bool). (b, w.1)) good)
      ]

-- Where all sectors can be read, the loop succeeds.
pub read_sectors-success :
    (D : Disk) (disk : D.State) (drive start n i : ℕ) (buffer : Bytes)
    → start + (i + n) ≤ 2 ^ 32
    → ((k : ℕ) → i ≤ k → k < i + n → (r : Bytes) × (D.read_sector disk drive (start + k) ≡ some r))
    → (read_sectors D drive start n i buffer disk).0 ≡ true
unfolding read_sectors
read_sectors-success D disk drive start zero i buffer h f = refl
read_sectors-success D disk drive start (suc n) i buffer h f =
    let (r, e) = f i (omega arith) (omega arith) in
    let at : start + i ≡ sector_at start i = omega arith in
    let found : D.read_sector disk drive (sector_at start i) ≡ some r =
      ap (D.read_sector disk drive) (sym at) ∙ e in
    ap
      (λ (o : Option Bytes).
        (elim o as (λ x. Bool × Bytes) [
          | none ↦ (false, buffer)
          | some b ↦ read_sectors D drive start n (i + 1) (copy buffer (i * 512) b 0 512) disk
        ]).0)
      found
    ∙ read_sectors-success D disk drive start n (i + 1) (copy buffer (i * 512) r 0 512)
        (omega arith) (λ k l u. f k (omega arith) (omega arith))
