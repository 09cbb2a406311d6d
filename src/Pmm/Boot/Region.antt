-- ===== src/Pmm/Boot/Region.antt =====
-- The first loop of `pmm_init`: the region that it chooses.
use kronosos.Base.{ℕ, ◌+◌, ◌/◌, ◌%◌, ◌^◌, ◌≤◌, ◌<◌, min, ◌≡◌, arith, List, [], ◌∷◌}
use kronosos.Pmm.Inv.{ConfigIsValid}
use kronosos.Pmm.Boot.{Entry, Scan, first_scan, scan_entry, scan_entries, config_of}
use kronosos.Pmm.Boot.Marks.{EntryIsAligned, AllAligned}

-- The chosen region is aligned, above 1 MiB, and inside the address space.
pub record ScanIsValid (a : Scan) : Type 0 where
  pub aligned : a.start_address % 4096 ≡ 0
  pub above : 0x100000 ≤ a.start_address
  pub fits : a.start_address + a.largest_usable_size < 2 ^ 64

scan_entry-IsValid :
    (usable : ℕ) {a : Scan} (e : Entry)
    → EntryIsAligned e
    → ScanIsValid a
    → ScanIsValid (scan_entry usable a e)
unfolding scan_entry
scan_entry-IsValid usable e w v = ground arith

pub scan_entries-IsValid :
    (usable : ℕ) (es : List Entry) {a : Scan}
    → AllAligned es
    → ScanIsValid a
    → ScanIsValid (scan_entries usable es a)
unfolding scan_entries
scan_entries-IsValid usable [] w v = v
scan_entries-IsValid usable (e ∷ es) (w, ws) v =
    scan_entries-IsValid usable es ws (scan_entry-IsValid usable e w v)

-- The configuration made from such a region is valid.
pub config_of-IsValid : {a : Scan} → ScanIsValid a → ConfigIsValid (config_of a)
unfolding config_of
config_of-IsValid v = ground arith

-- No usable entry at or above 1 MiB is larger than `n`.
abbrev pub AllSmaller : ℕ → ℕ → List Entry → Type 0
AllSmaller usable n [] = Unit
AllSmaller usable n (e ∷ es) =
    (e.kind ≡ usable → 0x100000 ≤ e.base → e.length ≤ n) × AllSmaller usable n es

scan_entries-grows :
    (usable : ℕ) (es : List Entry) (a : Scan)
    → a.largest_usable_size ≤ (scan_entries usable es a).largest_usable_size
unfolding scan_entries scan_entry
scan_entries-grows usable [] a = omega arith
scan_entries-grows usable (e ∷ es) a =
    ground (arith, scan_entries-grows usable es (scan_entry usable a e))

scan_entry-largest :
    (usable : ℕ) (a : Scan) (e : Entry)
    → e.kind ≡ usable
    → 0x100000 ≤ e.base
    → e.length ≤ (scan_entry usable a e).largest_usable_size
unfolding scan_entry
scan_entry-largest usable a e u h = ground arith

scan_entries-largest :
    (usable : ℕ) (es : List Entry) (a : Scan)
    → AllSmaller usable (scan_entries usable es a).largest_usable_size es
unfolding scan_entries
scan_entries-largest usable [] a = tt
scan_entries-largest usable (e ∷ es) a = (
  λ u h. omega (
    arith,
    scan_entry-largest usable a e u h,
    scan_entries-grows usable es (scan_entry usable a e),
  ),
  scan_entries-largest usable es (scan_entry usable a e),
)

pub first_scan-IsValid : ScanIsValid first_scan
first_scan-IsValid = omega arith

-- `pmm_init` manages as much of the largest usable entry at or above 1 MiB as the bitmap can track:
-- no such entry is larger, and the region takes the whole pages of it, 65536 at most.
pub config_of-largest :
    (usable : ℕ) (es : List Entry)
    → AllAligned es
    → (largest : ℕ) × AllSmaller usable largest es
      × ((config_of (scan_entries usable es first_scan)).max_pages ≡ min (largest / 4096) 65536)
unfolding config_of
config_of-largest usable es w = (
  (scan_entries usable es first_scan).largest_usable_size,
  scan_entries-largest usable es first_scan,
  ground (arith, scan_entries-IsValid usable es w first_scan-IsValid),
)
