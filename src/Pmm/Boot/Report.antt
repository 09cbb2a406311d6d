-- ===== src/Pmm/Boot/Report.antt =====
-- `pmm_print_stats` against the other counting functions.
use kronosos.Base.{ℕ, zero, suc, ◌+◌, ◌*◌, ◌/◌, ◌≡◌, refl, some, List, if_no}
use kronosos.Pmm.{Pmm, count_free, count_used, get_free_memory, get_used_memory}
use kronosos.Pmm.Inv.{IsValid, mapped_on}
use kronosos.Pmm.Boot.{Stats, print_stats, count_pages}

count_pages-eq :
    (bitmap : List ℕ) (n i free used : ℕ)
    → count_pages bitmap n i free used ≡ (count_free bitmap n i free, count_used bitmap n i used)
unfolding count_pages count_free count_used
count_pages-eq bitmap zero i free used = refl
count_pages-eq bitmap (suc n) i free used = count_pages-eq bitmap n (i + 1) _ _

-- The megabytes that `pmm_print_stats` logs are those of `pmm_get_free_memory` and
-- `pmm_get_used_memory`, once the allocator is ready.
pub print_stats_lem :
    {s : Pmm}
    → IsValid s
    → (r : Stats) × (print_stats s ≡ some r)
      × (r.free_mb ≡ get_free_memory s / (1024 * 1024))
      × (r.used_mb ≡ get_used_memory s / (1024 * 1024))
unfolding print_stats get_free_memory get_used_memory
print_stats_lem {s} v =
    rw
      (
        if_no _ _ (mapped_on v),
        if_no _ _ (mapped_on v),
        if_no _ _ (mapped_on v),
        count_pages-eq s.static_bitmap s.config.max_pages 0 0 0,
      )
      (_, refl, refl, refl)
