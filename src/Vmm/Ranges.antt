-- ===== src/Vmm/Ranges.antt =====
-- kernel/src/memory/vmm.c: `vmm_map_pages` and `vmm_unmap_pages`.
use kronosos.Base.{
  ℕ, zero, suc, ◌+◌, ◌-◌, ◌/◌, ◌%◌, ◌^◌, Bool, ◌&&◌, none, some, bit_and, leb, ◌==◌, if◌then◌else◌,
  add64, mul64,
}
use kronosos.Vmm.{Vm, Vmm, has_flag, map_page, unmap_page}

-- `n` rounds of a loop that unmaps pages a step apart, from round `i` on
pub unmap_loop : ℕ → ℕ → ℕ → ℕ → Vmm → Vmm
unfolding unmap_page
unmap_loop virt step zero i s = s
unmap_loop virt step (suc n) i s =
    unmap_loop virt step n (i + 1) (unmap_page (add64 virt (mul64 i step)) s).1

-- `n` rounds of a loop that maps pages a step apart, from round `i` on; a failure unmaps the pages
-- of the rounds before.
pub map_loop : ℕ → ℕ → ℕ → ℕ → ℕ → ℕ → Vm (Unit {0})
unfolding map_page unmap_loop
map_loop virt phys step flags zero i s = (some tt, s)
map_loop virt phys step flags (suc n) i s =
    let (o, t) = map_page (add64 virt (mul64 i step)) (add64 phys (mul64 i step)) flags s in
    elim o [
      | none ↦ (none, unmap_loop virt step i 0 t)
      | some _ ↦ map_loop virt phys step flags n (i + 1) t
    ]

-- `flags & ~VMM_FLAG_HUGE`
pub without_huge : ℕ → ℕ
without_huge flags = bit_and flags (2 ^ 64 - 1 - 2 ^ 10)

-- the pages behind the last whole 2 MiB, of which `huge_pages` are mapped
pub map_remaining : ℕ → ℕ → ℕ → ℕ → ℕ → Vm (Unit {0})
unfolding map_loop unmap_loop without_huge
map_remaining virt phys huge_pages remaining flags s =
    let (o, t) =
      map_loop (add64 virt (mul64 huge_pages 0x20_0000)) (add64 phys (mul64 huge_pages 0x20_0000))
        4096 (without_huge flags) remaining 0 s in
    elim o [ none ↦ (none, unmap_loop virt 0x20_0000 huge_pages 0 t) | some _ ↦ (some tt, t) ]

-- whether the flags, the addresses and the count allow for 2 MiB pages
pub can_be_huge : ℕ → ℕ → ℕ → ℕ → Bool
unfolding has_flag
can_be_huge virt phys count flags =
    has_flag flags (2 ^ 10)
    && ((bit_and virt 0x1f_ffff == 0) && ((bit_and phys 0x1f_ffff == 0) && leb 512 count))

pub map_pages : ℕ → ℕ → ℕ → ℕ → Vm (Unit {0})
unfolding can_be_huge map_loop map_remaining without_huge
map_pages virt phys count flags s =
    if can_be_huge virt phys count flags
    then (let (o, t) = map_loop virt phys 0x20_0000 flags (count / 512) 0 s in
        elim o [
          | none ↦ (none, t)
          | some _ ↦
              if (count % 512) == 0
              then (some tt, t)
              else map_remaining virt phys (count / 512) (count % 512) flags t
        ])
    else map_loop virt phys 4096 (without_huge flags) count 0 s

pub unmap_pages : ℕ → ℕ → Vm (Unit {0})
unfolding unmap_loop
unmap_pages virt count s = (some tt, unmap_loop virt 4096 count 0 s)
