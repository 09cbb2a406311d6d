-- ===== src/Vmm/Translation.antt =====
-- What `vmm_map_page` has mapped, as `vmm_get_physical_address`, `vmm_is_mapped` and
-- `vmm_unmap_page` see it.
use kronosos.Base.{
  ℕ, ◌+◌, ◌%◌, ◌^◌, ◌<◌, ◌≡◌, ◌≢◌, ◌∙◌, ap, true, false, ◌&&◌, Option, none, some, bit_and, arith,
}
use mathlib.Core.Path.{subst, sym}
use kronosos.Base.Masks.{bit_and-low}
use kronosos.Vmm.{Vmm, has_flag, index_at, page_present, page_addr_mask, hw_flags, map_page}
use kronosos.Vmm.Translate.{virt_to_phys, is_mapped}
use kronosos.Vmm.Tree.{Levels, IsTree, Exhausted}
use kronosos.Vmm.Words.{index_at-masked, masked-eq, present-eq, bit_or-flags, hw_flags_low}
use kronosos.Vmm.Mapping.{Link, Walked, virt_to_phys-Walked, is_mapped-Walked}
use kronosos.Vmm.MapPage.{Installed, exhausted, installed, page_of, leaf_entry, map_page-Installed}

-- The walk of a page is that of each address in it.
at_index :
    {t : Vmm} {lev : Levels} {table i j n child : ℕ}
    → i ≡ j
    → Link t lev table i n child
    → Link t lev table j n child
at_index {t} {lev} {table} {n = n} {child} same l = subst (λ x. Link t lev table x n child) same l

pub Walked-page :
    {t : Vmm} {lev : Levels} {virt_addr e : ℕ} (addr : ℕ)
    → virt_addr < 2 ^ 64
    → addr < 2 ^ 64
    → page_of addr ≡ page_of virt_addr
    → Walked t lev (page_of virt_addr) e
    → Walked t lev addr e
Walked-page {t} {lev} {virt_addr} {e} addr hv h same w =
    let (s4, s3, s2, s1) = index_at-masked addr h in
    record {
      pdpt = w.pdpt;
      pd = w.pd;
      pt = w.pt;
      link4 = at_index (ap (index_at 39) (sym same) ∙ s4) w.link4;
      link3 = at_index (ap (index_at 30) (sym same) ∙ s3) w.link3;
      link2 = at_index (ap (index_at 21) (sym same) ∙ s2) w.link2;
      entry = ap (t.memory w.pt) (sym (ap (index_at 12) (sym same) ∙ s1)) ∙ w.entry;
    }

-- The leaf entry is present and has the frame's address.
pub record IsLeaf (phys_addr e : ℕ) : Type 0 where
  pub present : has_flag e page_present ≡ true
  pub address : bit_and e page_addr_mask ≡ page_of phys_addr

pub leaf_entry-IsLeaf :
    (s : Vmm) (phys_addr flags : ℕ)
    → phys_addr < 2 ^ 64
    → (has_flag flags (2 ^ 9) && s.using_nx) ≡ false
    → IsLeaf phys_addr (leaf_entry s phys_addr flags)
leaf_entry-IsLeaf s phys_addr flags h off =
    let (small, odd) = hw_flags_low s.using_nx flags off in
    let frame = masked-eq phys_addr h in
    let entry =
      bit_or-flags (page_of phys_addr) (hw_flags s.using_nx flags) (omega arith) (omega arith) in
    record {
      present = present-eq (leaf_entry s phys_addr flags) ∙ ground arith;
      address = masked-eq (leaf_entry s phys_addr flags) (omega arith) ∙ omega arith;
    }

-- The result of mapping a page, for an address in it.
pub data Mapped (phys_addr addr : ℕ) : Option (Unit {0}) × Vmm → Type 0 where
  full : {t : Vmm} → Exhausted t → Mapped phys_addr addr (none, t)
  mapped :
      {t : Vmm} (lev : Levels)
      → IsTree t lev
      → virt_to_phys t addr ≡ page_of phys_addr + addr % 4096
      → is_mapped t addr ≡ true
      → Mapped phys_addr addr (some tt, t)

module _ {s : Vmm} {lev : Levels} (virt_addr phys_addr flags addr : ℕ) (v : IsTree s lev)
    (hv : virt_addr < 2 ^ 64) (hp : phys_addr < 2 ^ 64) (nv : virt_addr ≢ 0) (np : phys_addr ≢ 0)
    (off : (has_flag flags (2 ^ 9) && s.using_nx) ≡ false) (low : addr < s.hhdm_offset)
    (small : addr < 2 ^ 64) (same : page_of addr ≡ page_of virt_addr) where
  to_Mapped :
      {r : Option (Unit {0}) × Vmm}
      → Installed s.hhdm_offset (page_of virt_addr) (leaf_entry s phys_addr flags) r
      → Mapped phys_addr addr r
  to_Mapped (exhausted out) = full out
  to_Mapped (installed {t} lev' offset tree walked) =
      let leaf = leaf_entry-IsLeaf s phys_addr flags hp off in
      let here = Walked-page addr hv small same walked in
      let below : addr < t.hhdm_offset = omega (arith, offset) in
      let frame = masked-eq phys_addr hp in
      let rest = bit_and-low 12 addr in
      mapped lev' tree (virt_to_phys-Walked here below leaf.present ∙ omega (arith, leaf.address))
        (is_mapped-Walked here below leaf.present)

  -- In a tree of page tables, which has no huge pages and no free page of the
  -- physical allocator among its tables, with a valid allocator whose region the direct mapping
  -- places below 2^64, and for nonzero 64-bit addresses and flags that do not ask for a page
  -- without execution that the processor supports: `vmm_map_page` fails only when the physical
  -- allocator has no free page left. When it succeeds, the tables are a tree again, and each address
  -- of the page below the direct mapping is mapped and translates to the same offset in the frame.
  pub map_page-Mapped : Mapped phys_addr addr (map_page virt_addr phys_addr flags s)
  map_page-Mapped = to_Mapped (map_page-Installed s virt_addr phys_addr flags v nv np)
