-- ===== src/Elf/Segments.antt =====
-- Segments that are rejected, and the top address.
use kronosos.Base.{
  ℕ, ◌<◌, ◌≡◌, ◌≢◌, ◌∙◌, sym, ap, Bool, true, false, ltb, ◌==◌, if_yes, if_no, arith, add64,
}
use mathlib.Core.Path.{subst}
use kronosos.Pmm
use kronosos.Pmm.Inv.{IsValid}
use kronosos.Pmm.RoundTrip.{Restored, free_pages-alloc_pages}
use kronosos.Elf.{ProgramHeader}
use kronosos.Elf.Loading.{Loader, segment_pages, fill_segment, load_segment}

-- In a valid state of the allocator, a segment that has bytes in the file and needs at least a page,
-- which the allocator grants, and for which the sum of `p_offset` and `p_filesz`, modulo 2^64, is
-- greater than the size of the file, is rejected: the pages that were taken for it are free again,
-- and every page is as it was.
pub load_segment-Restored :
    (base_addr : ℕ) (ph : ProgramHeader) (s : Loader)
    → IsValid s.vmm.pmm
    → segment_pages ph ≢ 0
    → (Pmm.alloc_pages s.vmm.pmm (segment_pages ph)).0 ≢ 0
    → ph.p_filesz ≢ 0
    → s.elf.size < add64 ph.p_offset ph.p_filesz
    → ((load_segment base_addr ph s).0 ≡ false)
      × Restored s.vmm.pmm (load_segment base_addr ph s).1.vmm.pmm
unfolding load_segment fill_segment
load_segment-Restored base_addr ph s valid some_pages granted filled outside =
    let r = Pmm.alloc_pages s.vmm.pmm (segment_pages ph) in
    let there : (r.0 == 0) ≡ false = ground arith in
    let has_bytes : (ph.p_filesz == 0) ≡ false = ground arith in
    let beyond : ltb s.elf.size (add64 ph.p_offset ph.p_filesz) ≡ true = ground arith in
    let back = free_pages-alloc_pages (segment_pages ph) valid some_pages granted in
    let e = if_no _ _ there ∙ if_no _ _ has_bytes ∙ if_yes _ _ beyond in
    (
      ap (λ (q : Bool × Loader). q.0) e,
      subst (λ (q : Bool × Loader). Restored s.vmm.pmm q.1.vmm.pmm) (sym e) back,
    )
