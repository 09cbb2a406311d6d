-- ===== src/Vmm/Tests.antt =====
-- The page tables at the start: an empty PML4 at 0x1000 with the direct mapping in the upper half.
use kronosos.Base.{ℕ, ◌+◌, ◌*◌, ◌<◌, ◌≡◌, refl, true, false, ◌==◌, if◌then◌else◌, arith}
use kronosos.Pmm.Inv.{address}
use kronosos.Pmm.Sample.{sample, sample-IsValid}
use kronosos.Vmm.Sample.{empty}
use kronosos.Vmm.{phys_to_virt, has_flag, page_present, map_page}
use kronosos.Base.{[], ◌∷◌}
use kronosos.Vmm.Areas.{Heap}
use kronosos.Vmm.Areas.Allocation.{Allocation}
use kronosos.Vmm.Words.{present-eq}
use kronosos.Vmm.Tree.{Levels, IsTree}
use kronosos.Vmm.Translation.{Mapped, map_page-Mapped}
use kronosos.Vmm.Unmapping.{Undone, unmap_page-map_page}

-- only the PML4 is a table
abbrev levels : Levels
levels b = if b == 0xffff_8000_0000_1000 then 4 else 0

page_address_of_sample :
    (i : ℕ)
    → i < 8
    → phys_to_virt 0xffff_8000_0000_0000 (address sample i) ≡ 0xffff_8000_0010_0000 + i * 4096
unfolding phys_to_virt
page_address_of_sample i h = ground arith

empty-IsTree : IsTree empty levels
unfolding phys_to_virt
empty-IsTree = record {
  pmm = sample-IsValid;
  direct = omega arith;
  root = refl;
  root_not_null = omega arith;
  child = λ t i n h up present. absurd (no_entry present);
  fresh = λ i h u. ground (arith, page_address_of_sample i h);
}
  where
    no_entry : has_flag 0 page_present ≡ true → ⊥
    no_entry h = let gone = present-eq 0 in cc

map_page-Mapped_example : Mapped 0x20_0000 0x40_1234 (map_page 0x40_1000 0x20_0000 2 empty)
unfolding has_flag
map_page-Mapped_example =
    map_page-Mapped 0x40_1000 0x20_0000 2 0x40_1234 empty-IsTree (omega arith) (omega arith)
      (omega arith) (omega arith) refl (omega arith) (omega arith) refl

unmap_page-map_page_example : Undone 0x40_1000 0x40_1234 (map_page 0x40_1000 0x20_0000 2 empty)
unfolding has_flag
unmap_page-map_page_example =
    unmap_page-map_page 0x40_1000 0x20_0000 2 0x40_1234 empty-IsTree (omega arith) (omega arith)
      (omega arith) (omega arith) refl (omega arith) (omega arith) refl

-- one free area of a page for user space, and none for the kernel
abbrev one_area : Heap
one_area = record {
  user_areas = record { base = 0x40_0000; size = 4096; flags = 4; is_used = false } ∷ [];
  kernel_areas = [];
  pages_allocated = 0;
  pages_freed = 0;
  vmm = empty;
}
