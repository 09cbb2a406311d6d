-- ===== src/Vmm/Words.antt =====
-- Page table entries and indices as arithmetic.
use native.Mathlib.Nat.{one-le-pow}
use kronosos.Base.{
  ℕ, ◌+◌, ◌-◌, ◌*◌, ◌/◌, ◌%◌, ◌^◌, ◌<◌, ◌≡◌, ◌∙◌, ap, refl, Bool, true, false, ◌&&◌, bit_and,
  bit_or, ltb, ◌==◌, ==→eq, if◌then◌else◌, if_yes, if_no, Bool-cases, inl, inr, arith,
}
use kronosos.Base.Bits.{bit, bit-le-one, bit_and-pow, bit_or-lt, two_pow-lt, bit_or-halve}
use kronosos.Base.Masks.{bit_and-low, bit_and-high, bit_or-fields, bit_or-zero}
use kronosos.Vmm.{
  has_flag, index_at, page_present, page_writable, page_user, page_huge, page_addr_mask, upper_half,
  new_entry, hw_flags,
}

pub has_flag-bit : (e k : ℕ) → has_flag e (2 ^ k) ≡ (bit e k == 1)
unfolding has_flag
has_flag-bit e k = elim (Bool-cases (bit e k == 0)) [
  | inl clear ↦
      let zero_bit : bit e k ≡ 0 = ==→eq clear in rw (bit_and-pow, zero_bit) (ground arith)
  | inr on ↦
      let one_bit : bit e k ≡ 1 = ground (arith, bit-le-one e k) in
      ground (arith, bit_and-pow e k, one-le-pow k 2)
]

pub present-eq : (e : ℕ) → has_flag e page_present ≡ (e % 2 == 1)
unfolding bit
present-eq e = has_flag-bit e 0

pub huge-eq : (e : ℕ) → has_flag e page_huge ≡ (e / 2 / 2 / 2 / 2 / 2 / 2 / 2 % 2 == 1)
unfolding bit
huge-eq e = has_flag-bit e 7

-- `e & PAGE_ADDR_MASK` drops the twelve low bits.
pub masked-eq : (e : ℕ) → e < 2 ^ 64 → bit_and e page_addr_mask ≡ e / 4096 * 4096
masked-eq e h = omega (arith, bit_and-high 12 e (2 ^ 52 - 1), bit_and-low 52 (e / 2 ^ 12))

pub index_at-lt : (shift addr : ℕ) → index_at shift addr < 512
unfolding index_at
index_at-lt shift addr = omega (arith, bit_and-low 9 (addr / 2 ^ shift))

-- The page of an address has the indices of the address.
pub index_at-masked :
    (addr : ℕ)
    → addr < 2 ^ 64
    → (index_at 39 (bit_and addr page_addr_mask) ≡ index_at 39 addr)
      × (index_at 30 (bit_and addr page_addr_mask) ≡ index_at 30 addr)
      × (index_at 21 (bit_and addr page_addr_mask) ≡ index_at 21 addr)
      × (index_at 12 (bit_and addr page_addr_mask) ≡ index_at 12 addr)
unfolding index_at
index_at-masked addr h = rw (masked-eq addr h) (
  ap (λ (t : ℕ). bit_and t 0x1ff) (omega arith),
  ap (λ (t : ℕ). bit_and t 0x1ff) (omega arith),
  ap (λ (t : ℕ). bit_and t 0x1ff) (omega arith),
  ap (λ (t : ℕ). bit_and t 0x1ff) (omega arith),
)

-- An address without low bits, with flags put in.
pub bit_or-flags : (p f : ℕ) → p % 4096 ≡ 0 → f < 4096 → bit_or p f ≡ p + f
bit_or-flags p f h g =
    let e : p ≡ p / 4096 * 2 ^ 12 = omega arith in
    ap (λ (t : ℕ). bit_or t f) e ∙ omega (arith, bit_or-fields 12 (p / 4096) f g)

bit_or-one : (y : ℕ) → bit_or y 1 ≡ y / 2 * 2 + 1
bit_or-one y = omega (arith, bit_or-halve y 1, bit_or-zero (y / 2))

bit_or-two : (y : ℕ) → bit_or y 2 ≡ y / 4 * 4 + 2 + y % 2
bit_or-two y = omega (arith, bit_or-halve y 2, bit_or-one (y / 2))

bit_or-four : (y : ℕ) → bit_or y 4 ≡ y / 8 * 8 + 4 + y % 4
bit_or-four y = omega (arith, bit_or-halve y 4, bit_or-two (y / 2))

-- The entry of a new table: present, not huge, and with the table's address.
pub record IsTableEntry (phys e : ℕ) : Type 0 where
  pub present : has_flag e page_present ≡ true
  pub huge : has_flag e page_huge ≡ false
  pub address : bit_and e page_addr_mask ≡ phys

-- An entry is a table's address with flags below 128, of which one is PAGE_PRESENT.
pub table_entry :
    (phys f : ℕ)
    → phys % 4096 ≡ 0
    → phys < 2 ^ 64
    → f < 128
    → f % 2 ≡ 1
    → IsTableEntry phys (phys + f)
table_entry phys f h small low odd = record {
  present = present-eq (phys + f) ∙ ground arith;
  huge = huge-eq (phys + f) ∙ ground arith;
  address = masked-eq (phys + f) (omega arith) ∙ omega arith;
}

pub new_entry-IsTableEntry :
    (phys virt : ℕ) → phys % 4096 ≡ 0 → phys < 2 ^ 64 → IsTableEntry phys (new_entry phys virt)
unfolding new_entry
new_entry-IsTableEntry phys virt h small = elim (Bool-cases (ltb virt upper_half)) [
  | inl user ↦ rw (if_yes _ _ user, user_entry) (table_entry phys 7 h small (omega arith) refl)
  | inr kernel ↦ rw (if_no _ _ kernel, kernel_entry) (table_entry phys 3 h small (omega arith) refl)
]
  where
    kernel_entry : bit_or (bit_or phys page_present) page_writable ≡ phys + 3
    kernel_entry = omega (arith, bit_or-one phys, bit_or-two (bit_or phys 1))

    user_entry : bit_or (bit_or (bit_or phys page_present) page_writable) page_user ≡ phys + 7
    user_entry = omega (arith, kernel_entry, bit_or-four (bit_or (bit_or phys 1) 2))

abbrev LowFlags : ℕ → Type 0
LowFlags f = (f < 512) × (f % 2 ≡ 1)

put_flag : (b : Bool) (k f : ℕ) → k < 9 → LowFlags f → LowFlags (if b then bit_or f (2 ^ k) else f)
put_flag true k f h (small, odd) =
    (bit_or-lt 9 f (2 ^ k) small (two_pow-lt k 9 h), omega (arith, bit_or-halve f (2 ^ k)))
put_flag false k f h low = low

-- Without PAGE_NO_EXECUTE the hardware flags are below 512, and PAGE_PRESENT is among them.
pub hw_flags_low :
    (nx : Bool) (flags : ℕ)
    → (has_flag flags (2 ^ 9) && nx) ≡ false
    → (hw_flags nx flags < 512) × (hw_flags nx flags % 2 ≡ 1)
unfolding hw_flags
hw_flags_low nx flags off = rw off (
    put_flag (has_flag flags (2 ^ 10)) 7 _ (omega arith) (
      put_flag (has_flag flags (2 ^ 8)) 8 _ (omega arith) (
        put_flag (has_flag flags (2 ^ 4)) 4 _ (omega arith) (
          put_flag (has_flag flags (2 ^ 3)) 3 _ (omega arith) (
            put_flag (has_flag flags (2 ^ 2)) 2 _ (omega arith)
              (put_flag (has_flag flags (2 ^ 1)) 1 1 (omega arith) (omega arith)))))))
