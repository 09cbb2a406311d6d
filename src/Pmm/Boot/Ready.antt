-- ===== src/Pmm/Boot/Ready.antt =====
-- What `pmm_init` leaves behind.
use kronosos.Base.{
  ℕ, ◌/◌, ◌<◌, min, ◌≡◌, ◌∙◌, refl, true, false, arith, ltb, ◌||◌, ◌&&◌, if◌then◌else◌, some, List,
  replicate, length-replicate, get_or-replicate,
}
use kronosos.Base.Bits.{zero-bit_and}
use kronosos.Pmm.{Config, Pmm, page_used, static_bitmap_size, mark_run}
use kronosos.Pmm.Bitmap.{length-mark_run, page_used-mark_run}
use kronosos.Pmm.Inv.{ConfigIsValid, IsValid, used}
use kronosos.Pmm.Boot.{Entry, Outcome, done, and_then, first_scan, scan_entries, config_of, init}
use kronosos.Pmm.Boot.Marks.{AllAligned, covered, Marked, marked, mark_entries-Marked}
use kronosos.Pmm.Boot.Region.{first_scan-IsValid, scan_entries-IsValid, config_of-IsValid}

-- `pmm_init` runs to its end, and the state is valid; the used pages of the region are its first
-- 256, and those that an entry which is not usable overlaps.
pub data Booted (usable : ℕ) (es : List Entry) : Outcome Pmm → Type 0 where
  booted :
      {t : Pmm}
      → IsValid t
      → ((j : ℕ) → j < t.config.max_pages → used t j ≡ (ltb j 256 || covered usable t.config es j))
      → Booted usable es (done t)

page_used-zero : (j : ℕ) → page_used (replicate static_bitmap_size 0) j ≡ false
unfolding page_used
page_used-zero j =
    rw (get_or-replicate {A = ℕ} static_bitmap_size (j / 8) 0, zero-bit_and) (ground arith)

-- From any state, and for a memory map in which every entry, also one that is not usable, begins at a
-- multiple of 4096 and ends below 2^64: `pmm_init` runs to its end in a valid state, and the used
-- pages of the region are its first 256 and those that an entry which is not usable overlaps.
pub init_lem :
    (usable : ℕ) (s : Pmm) (es : List Entry)
    → AllAligned es
    → Booted usable es (init usable s (some es))
unfolding init
init_lem usable s es w = finish (
    mark_entries-Marked usable es (replicate static_bitmap_size 0) valid w
      (length-replicate {A = ℕ} static_bitmap_size 0))
  where
    c : Config
    c = config_of (scan_entries usable es first_scan)

    valid : ConfigIsValid c
    valid = config_of-IsValid (scan_entries-IsValid usable es w first_scan-IsValid)

    finish :
        {r : Outcome (List ℕ)}
        → Marked
            (λ j.
              if ltb j c.max_pages && covered usable c es j
              then true
              else page_used (replicate static_bitmap_size 0) j)
            r
        → Booted usable es (
            and_then r (λ bitmap. done (record s {
              config = c;
              mapped = true;
              static_bitmap = mark_run bitmap (min 256 c.max_pages) 0;
            })))
    finish (marked {b} len pages) =
        booted
          (record {
            mapped = refl;
            config = valid;
            size = length-mark_run b (min 256 c.max_pages) 0 ∙ len;
          })
          (λ j h. ground (
            arith,
            page_used-mark_run b (min 256 c.max_pages) 0 j (omega arith),
            pages j,
            page_used-zero j,
          ))
