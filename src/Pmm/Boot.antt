-- ===== src/Pmm/Boot.antt =====
-- `pmm_init` of kernel/src/memory/pmm.c, on the memory map that the Limine boot loader hands over,
-- and `pmm_get_info`, `pmm_print_stats`.
pub mod Marks
pub mod Region
pub mod Ready
pub mod Report
use kronosos.Base.{
  ℕ, zero, suc, ◌+◌, ◌-◌, ◌*◌, ◌/◌, ◌%◌, ◌^◌, min, Bool, true, false, not, ◌&&◌, ◌||◌, Option, none,
  some, List, [], ◌∷◌, ltb, leb, ◌==◌, if◌then◌else◌, replicate, add64, sub64, mul64,
}
use kronosos.Pmm.{Config, Pmm, static_bitmap_size, mark_used, mark_run, page_used}

-- what the code reads of a `struct limine_memmap_entry`
pub record Entry : Type 0 where
  pub base : ℕ
  pub length : ℕ
  pub kind : ℕ

-- The local variables of the first loop.
pub record Scan : Type 0 where
  pub total_memory : ℕ
  pub largest_usable_size : ℕ
  pub start_address : ℕ

-- `hcf` stops the machine. `out_of_fuel` is the model's: a loop needed more rounds than given.
pub data Outcome (A : Type 0) : Type 0 where
  done : A → Outcome A
  halted : Outcome A
  out_of_fuel : Outcome A

abbrev pub and_then : {A B : Type 0} → Outcome A → (A → Outcome B) → Outcome B
and_then (done a) f = f a
and_then halted f = halted
and_then out_of_fuel f = out_of_fuel

-- the values before the first loop
abbrev pub first_scan : Scan
first_scan = record { total_memory = 0; largest_usable_size = 0; start_address = 0x100000 }

-- The configuration that the first loop leads to; `max_pages` is a `uint32_t`
pub config_of : Scan → Config
config_of a =
    let max_pages =
      if ltb a.largest_usable_size (mul64 (static_bitmap_size * 8) 4096)
      then a.largest_usable_size / 4096 % 2 ^ 32
      else static_bitmap_size * 8 in
    record {
      page_size = 4096;
      kernel_start = a.start_address;
      kernel_end = add64 a.start_address (mul64 max_pages 4096);
      max_pages = max_pages;
      total_memory = a.total_memory;
    }

-- The marking loop over the addresses from `addr` to `region_end`, one page at a time.
pub mark_region : ℕ → Config → List ℕ → ℕ → ℕ → Outcome (List ℕ)
mark_region zero c bitmap addr region_end = if ltb addr region_end then out_of_fuel else done bitmap
mark_region (suc n) c bitmap addr region_end =
    let i = sub64 addr c.kernel_start / c.page_size in
    let bitmap' = if ltb i c.max_pages then mark_used bitmap i else bitmap in
    let rest = mark_region n c bitmap' (add64 addr c.page_size) region_end in
    if ltb addr region_end then rest else done bitmap

-- `LIMINE_MEMMAP_USABLE` is a constant of the boot loader's header.
module _ (usable : ℕ) where
  pub scan_entry : Scan → Entry → Scan
  scan_entry a e =
      if e.kind == usable
      then (let a' = record a { total_memory = add64 a.total_memory e.length } in
          if ltb a.largest_usable_size e.length && leb 0x100000 e.base
          then record a' { largest_usable_size = e.length; start_address = e.base }
          else a')
      else a

  pub scan_entries : List Entry → Scan → Scan
  scan_entries [] a = a
  scan_entries (e ∷ es) a = scan_entries es (scan_entry a e)

  -- one round of the second loop: a region that is not usable, clipped to the managed one
  pub mark_entry : Config → Entry → List ℕ → Outcome (List ℕ)
  mark_entry c e bitmap =
      let e_end = add64 e.base e.length in
      if e.kind == usable
      then done bitmap
      else if leb c.kernel_end e.base || leb e_end c.kernel_start
      then done bitmap
      else let region_start = if ltb e.base c.kernel_start then c.kernel_start else e.base in
        let region_end = if ltb c.kernel_end e_end then c.kernel_end else e_end in
        mark_region c.max_pages c bitmap region_start region_end

  pub mark_entries : Config → List Entry → List ℕ → Outcome (List ℕ)
  unfolding mark_entry
  mark_entries c [] bitmap = done bitmap
  mark_entries c (e ∷ es) bitmap = and_then (mark_entry c e bitmap) (λ b. mark_entries c es b)

  -- `none` is a NULL memory map.
  pub init : Pmm → Option (List Entry) → Outcome Pmm
  unfolding scan_entry scan_entries mark_entries config_of
  init s none = halted
  init s (some memmap) =
      let c = config_of (scan_entries memmap first_scan) in
      and_then (mark_entries c memmap (replicate static_bitmap_size 0)) (λ bitmap. done (record s {
        config = c;
        mapped = true;
        static_bitmap = mark_run bitmap (min 256 c.max_pages) 0;
      }))

-- `pmm_get_info`, with a pointer that is not NULL
pub get_info : Pmm → Config
get_info s = s.config

-- the numbers that `pmm_print_stats` logs
pub record Stats : Type 0 where
  pub total_pages : ℕ
  pub used_pages : ℕ
  pub used_mb : ℕ
  pub free_pages : ℕ
  pub free_mb : ℕ
  pub total_allocations : ℕ
  pub failed_allocations : ℕ
  pub range_start : ℕ
  pub range_end : ℕ

-- `n` rounds of its loop, from page `i` on
pub count_pages : List ℕ → ℕ → ℕ → ℕ → ℕ → ℕ × ℕ
count_pages bitmap zero i free used = (free, used)
count_pages bitmap (suc n) i free used =
    let u = page_used bitmap i in
    count_pages bitmap n (i + 1) (if u then free else add64 free 1)
      (if u then add64 used 1 else used)

pub print_stats : Pmm → Option Stats
unfolding count_pages
print_stats s =
    if not s.mapped
    then none
    else let (free, used) = count_pages s.static_bitmap s.config.max_pages 0 0 0 in
      some (record {
        total_pages = s.config.max_pages;
        used_pages = used;
        used_mb = mul64 used s.config.page_size / (1024 * 1024);
        free_pages = free;
        free_mb = mul64 free s.config.page_size / (1024 * 1024);
        total_allocations = s.total_allocations;
        failed_allocations = s.failed_allocations;
        range_start = s.config.kernel_start;
        range_end = s.config.kernel_end;
      })
