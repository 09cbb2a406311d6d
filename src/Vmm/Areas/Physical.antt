-- ===== src/Vmm/Areas/Physical.antt =====
-- kernel/src/memory/vmm.c: `vmm_map_physical` and `vmm_unmap_physical`.
use kronosos.Base.{
  ℕ, ◌/◌, ◌^◌, true, false, ◌&&◌, ◌||◌, Option, none, some, ltb, leb, ◌==◌, if◌then◌else◌, add64,
}
use kronosos.Vmm.{Vmm, phys_to_virt}
use kronosos.Vmm.Ranges.{unmap_loop, map_loop}
use kronosos.Vmm.Areas.{Area, Heap, round_up, find_free_area, set_used, free_area}

-- the end of `vmm_map_physical`, with the outcome of its loop
pub mapped_area : Heap → ℕ → Area → Option (Unit {0}) × Vmm → ℕ × Heap
unfolding set_used
mapped_area h i area (none, t) =
    (0, record h { kernel_areas = set_used h.kernel_areas i false; vmm = t })
mapped_area h i area (some _, t) = (area.base, record h { vmm = t })

pub map_physical : Heap → ℕ → ℕ → ℕ → ℕ × Heap
unfolding phys_to_virt round_up find_free_area set_used mapped_area
map_physical h phys_addr size flags =
    if (phys_addr == 0) || (size == 0)
    then (0, h)
    else if ltb phys_addr (2 ^ 32)
    then (phys_to_virt h.vmm.hhdm_offset phys_addr, h)
    else elim (find_free_area h.kernel_areas (round_up size)) [
      | none ↦ (0, h)
      | some (i, area) ↦
          let marked = record h { kernel_areas = set_used h.kernel_areas i true } in
          mapped_area marked i area
            (map_loop area.base phys_addr 4096 flags (round_up size / 4096) 0 h.vmm)
    ]

pub unmap_physical : Heap → ℕ → ℕ → Heap
unfolding round_up free_area
unmap_physical h virt_addr size =
    if (virt_addr == 0) || (size == 0)
    then h
    else if leb h.vmm.hhdm_offset virt_addr && ltb virt_addr (add64 h.vmm.hhdm_offset (2 ^ 32))
    then h
    else record h {
      kernel_areas = free_area h.kernel_areas virt_addr;
      vmm = unmap_loop virt_addr 4096 (round_up size / 4096) 0 h.vmm;
    }
