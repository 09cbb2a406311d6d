-- ===== src/Pmm/Sample.antt =====
-- A managed region of eight pages, of which pages 0 and 2 are used.
use kronosos.Base.{◌≡◌, ℕ, suc, refl, ap, true, ◌∷◌, replicate, length-replicate, arith}
use kronosos.Pmm.{Pmm, alloc_pages, alloc_result, find_run, page_used}
use kronosos.Pmm.Inv.{IsValid}

abbrev pub sample : Pmm
sample = record {
  config = record {
    page_size = 4096;
    kernel_start = 0x100000;
    kernel_end = 0x108000;
    max_pages = 8;
    total_memory = 0x8000;
  };
  mapped = true;
  static_bitmap = 5 ∷ replicate 8191 0;
  total_allocations = 2;
  failed_allocations = 0;
}

pub sample-IsValid : IsValid sample
sample-IsValid = record {
  mapped = refl;
  config = omega arith;
  size = ap suc (length-replicate {A = ℕ} 8191 0);
}

-- Three free pages in a row begin at page 3.
pub alloc_pages_run : (alloc_pages sample 3).0 ≡ 0x103000
unfolding alloc_pages alloc_result find_run page_used
alloc_pages_run = refl
