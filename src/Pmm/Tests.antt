-- ===== src/Pmm/Tests.antt =====
-- The allocator on a region of eight pages, of which pages 0 and 2 are used, and the theorems there.
use kronosos.Base.{◌+◌, ◌*◌, min, ◌≡◌, ◌≢◌, refl, some, List, [], ◌∷◌, arith}
use kronosos.Pmm.{
  alloc_result, find_free, find_run, page_used, count_free, count_used, null, alloc_page,
  alloc_pages, free_pages, get_free_memory, get_used_memory,
}
use kronosos.Pmm.Inv.{address}
use kronosos.Pmm.Alloc.{Alloc, alloc_pages_lem}
use kronosos.Pmm.Free.{Freed, free_pages_lem}
use kronosos.Pmm.RoundTrip.{Restored, free_pages-alloc_pages}
use kronosos.Pmm.Sample.{alloc_pages_run, sample, sample-IsValid}
use kronosos.Pmm.Boot.{Entry, init}
use kronosos.Pmm.Boot.Ready.{Booted, init_lem}

-- The lowest free page is page 1.
alloc_page_first : (alloc_page sample).0 ≡ 0x101000
unfolding alloc_page alloc_result find_free page_used
alloc_page_first = refl

alloc_pages_too_many : (alloc_pages sample 6).0 ≡ 0
unfolding alloc_pages alloc_result find_run page_used
alloc_pages_too_many = refl

free_memory_of_sample : (get_free_memory sample ≡ 6 * 4096) × (get_used_memory sample ≡ 2 * 4096)
unfolding get_free_memory get_used_memory count_free count_used page_used
free_memory_of_sample = (refl, refl)

alloc_pages_lem_example : Alloc sample 3 (alloc_pages sample 3)
alloc_pages_lem_example = alloc_pages_lem 3 sample-IsValid (omega arith)

free_pages_lem_example : Freed sample 2 (min (2 + 9) 8) (free_pages sample (address sample 2) 9)
free_pages_lem_example = free_pages_lem 2 9 sample-IsValid (omega arith) (omega arith)

alloc_pages_granted : (alloc_pages sample 3).0 ≢ null
alloc_pages_granted = omega (arith, alloc_pages_run)

free_pages-alloc_pages_example :
    Restored sample (free_pages (alloc_pages sample 3).1 (alloc_pages sample 3).0 3)
free_pages-alloc_pages_example =
    free_pages-alloc_pages 3 sample-IsValid (omega arith) alloc_pages_granted

-- A reserved region inside a usable one of 4 MiB; kind 0 is usable.
abbrev memmap : List Entry
memmap =
    record { base = 0x100000; length = 0x400000; kind = 0 }
    ∷ record { base = 0x300000; length = 0x2000; kind = 1 }
    ∷ []

init_lem_example : Booted 0 memmap (init 0 sample (some memmap))
init_lem_example = init_lem 0 sample memmap (omega arith)
