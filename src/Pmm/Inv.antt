-- ===== src/Pmm/Inv.antt =====
-- The invariant of the allocator once `pmm_init` has run, and what it says of addresses.
use kronosos.Base.{
  not, refl, ℕ, ◌+◌, ◌*◌, ◌%◌, ◌^◌, ◌≤◌, ◌<◌, ◌≡◌, Bool, true, false, arith, length,
}
use kronosos.Pmm.{Config, Pmm, page_used, page_address, page_index, out_of_range}

-- The managed region is `max_pages` aligned pages above 1 MiB, inside the address space, and each
-- of them has its bit in the bitmap.
pub record ConfigIsValid (c : Config) : Type 0 where
  pub page_size : c.page_size ≡ 4096
  pub aligned : c.kernel_start % 4096 ≡ 0
  pub above : 0x100000 ≤ c.kernel_start
  pub end : c.kernel_end ≡ c.kernel_start + c.max_pages * 4096
  pub fits : c.kernel_end < 2 ^ 64
  pub tracked : c.max_pages ≤ 65536

pub record IsValid (s : Pmm) : Type 0 where
  pub mapped : s.mapped ≡ true
  pub config : ConfigIsValid s.config
  pub size : length s.static_bitmap ≡ 8192

abbrev pub used : Pmm → ℕ → Bool
used s i = page_used s.static_bitmap i

-- the address of page `i` without wrap-around
abbrev pub address : Pmm → ℕ → ℕ
address s i = s.config.kernel_start + i * 4096

pub page_address-eq :
    {c : Config} (i : ℕ)
    → ConfigIsValid c
    → i < c.max_pages
    → page_address c i ≡ c.kernel_start + i * 4096
unfolding page_address
page_address-eq {c} i v h = rw v.page_size (omega arith)

-- The pages of the region are the addresses that the guard lets through, and `page_index` gives
-- the page back.
pub out_of_range-address :
    {c : Config} (i : ℕ)
    → ConfigIsValid c
    → i < c.max_pages
    → out_of_range c (c.kernel_start + i * 4096) ≡ false
unfolding out_of_range
out_of_range-address {c} i v h = rw v.page_size (ground arith)

pub page_index-address :
    {c : Config} (i : ℕ) → ConfigIsValid c → page_index c (c.kernel_start + i * 4096) ≡ i
unfolding page_index
page_index-address {c} i v = rw v.page_size (omega arith)

-- An address that the guard lets through is that of a page of the region.
pub in_range :
    {c : Config} (page : ℕ)
    → ConfigIsValid c
    → out_of_range c page ≡ false
    → (page_index c page < c.max_pages) × (page ≡ c.kernel_start + page_index c page * 4096)
unfolding out_of_range page_index
in_range {c} page v h =
    let bounds : (c.kernel_start ≤ page) × (page < c.kernel_end) × (page % c.page_size ≡ 0) =
      ground arith in
    let whole : page % 4096 ≡ 0 = rw (← v.page_size) bounds.2 in rw v.page_size (omega arith)

-- A change of the bitmap alone, or of the statistics, keeps the invariant.
pub IsValid-same :
    {s t : Pmm}
    → IsValid s
    → t.mapped ≡ s.mapped
    → t.config ≡ s.config
    → length t.static_bitmap ≡ length s.static_bitmap
    → IsValid t
IsValid-same {s} {t} v m c l = record { mapped = cc; config = rw c v.config; size = omega arith }

pub mapped_on : {s : Pmm} → IsValid s → not s.mapped ≡ false
mapped_on v = rw v.mapped refl
