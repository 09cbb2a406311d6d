-- ===== src/Vmm/Sample.antt =====
-- An empty PML4 at 0x1000, with the direct mapping in the upper half.
use kronosos.Base.{false}
use kronosos.Pmm.Sample.{sample}
use kronosos.Vmm.{Vmm}

abbrev pub empty : Vmm
empty = record {
  memory = λ t i. 0;
  hhdm_offset = 0xffff_8000_0000_0000;
  current_pml4_phys = 0x1000;
  using_nx = false;
  pmm = sample;
}
