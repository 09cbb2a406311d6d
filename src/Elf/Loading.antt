-- ===== src/Elf/Loading.antt =====
-- kernel/src/core/exec/elf.c: from a parsed file to segments in memory, and back. The bytes behind
-- pointers are `ram`; the page tables are those of the virtual memory manager.
use kronosos.Base.{
  ℕ, zero, suc, ◌+◌, ◌-◌, ◌*◌, ◌/◌, ◌^◌, Bool, true, false, not, ◌||◌, Option, none, some, ltb,
  ◌==◌, if◌then◌else◌, bit_and, bit_or, add64, sub64, mul64,
}
use kronosos.Pmm
use kronosos.Vmm.{Vmm, Vm, has_flag, map_page, unmap_page}
use kronosos.Vmm.Translate.{virt_to_phys}
use kronosos.Strings.{Memory, less, same, more, memset, memcpy, strcmp}
use kronosos.Elf.{ElfFile, ProgramHeader, read, read_program_header, fresh, read_header, get_string}

-- The state that the loader works on.
pub record Loader : Type 0 where
  pub vmm : Vmm
  pub ram : Memory
  pub elf : ElfFile

-- `phdr` of round `i`
pub program_header : Loader → ℕ → ProgramHeader
unfolding read_program_header
program_header s i = read_program_header s.ram (add64 s.elf.program_headers (i * 56))

pub segment_vaddr : ElfFile → ℕ → ProgramHeader → ℕ
segment_vaddr elf base_addr ph =
    if elf.header.e_type == 3 then add64 ph.p_vaddr base_addr else ph.p_vaddr

-- the size of a segment in pages
unfoldable pub segment_pages : ProgramHeader → ℕ
segment_pages ph = add64 ph.p_memsz 4095 / 4096

-- `x & ~(page_size - 1)`
pub page_start : ℕ → ℕ
page_start x = bit_and x (2 ^ 64 - 4096)

pub segment_flags : ProgramHeader → ℕ
segment_flags ph =
    let flags = if has_flag ph.p_flags 0x2 then bit_or 1 (2 ^ 1) else 1 in
    if not (has_flag ph.p_flags 0x1) then bit_or flags (2 ^ 9) else flags

-- `n` rounds of the loop that maps the pages, from round `j` on
pub map_segment : ℕ → ℕ → ℕ → ℕ → ℕ → Vm (Unit {0})
map_segment page_vaddr segment_memory flags zero j s = (some tt, s)
map_segment page_vaddr segment_memory flags (suc n) j s =
    let (o, t) =
      map_page (add64 page_vaddr (mul64 j 4096)) (add64 segment_memory (mul64 j 4096)) flags s in
    elim o [ none ↦ (none, t) | some _ ↦ map_segment page_vaddr segment_memory flags n (j + 1) t ]

-- the end of a round: the pages are mapped, and the top address grows.
pub place_segment : ℕ → ProgramHeader → ℕ → Loader → Bool × Loader
unfolding map_segment segment_flags page_start
place_segment vaddr ph segment_memory s =
    let (o, vmm') =
      map_segment (page_start vaddr) segment_memory (segment_flags ph) (segment_pages ph) 0 s.vmm in
    let segment_end = add64 vaddr ph.p_memsz in
    let top = if ltb s.elf.top_addr segment_end then segment_end else s.elf.top_addr in
    elim o [
      | none ↦ (false, record s { vmm = vmm' })
      | some _ ↦ (true, record s { vmm = vmm'; elf = record s.elf { top_addr = top } })
    ]

-- the segment once its memory is there and cleared
unfoldable pub fill_segment : ℕ → ProgramHeader → ℕ → Loader → Bool × Loader
unfolding place_segment
fill_segment vaddr ph segment_memory s =
    if ph.p_filesz == 0
    then place_segment vaddr ph segment_memory s
    else if ltb s.elf.size (add64 ph.p_offset ph.p_filesz)
    then (
      false,
      record s {
        vmm = record s.vmm { pmm = Pmm.free_pages s.vmm.pmm segment_memory (segment_pages ph) };
      },
    )
    else place_segment vaddr ph segment_memory (record s {
      ram = memcpy s.ram segment_memory (add64 s.elf.file_data ph.p_offset) ph.p_filesz;
    })

-- a round of `elf_load_segments` with a segment to load
unfoldable pub load_segment : ℕ → ProgramHeader → Loader → Bool × Loader
unfolding fill_segment segment_vaddr segment_pages
load_segment base_addr ph s =
    let (segment_memory, pmm') = Pmm.alloc_pages s.vmm.pmm (segment_pages ph) in
    let t = record s { vmm = record s.vmm { pmm = pmm' } } in
    if segment_memory == 0
    then (false, t)
    else fill_segment (segment_vaddr s.elf base_addr ph) ph segment_memory
        (record t { ram = memset s.ram segment_memory 0 (mul64 (segment_pages ph) 4096) })

pub load_round : ℕ → ℕ → Loader → Bool × Loader
unfolding program_header load_segment
load_round base_addr i s =
    if (program_header s i).p_type == 1
    then load_segment base_addr (program_header s i) s
    else (true, s)

-- `n` rounds, from program header `i` on
pub load_rounds : ℕ → ℕ → ℕ → Loader → Bool × Loader
unfolding load_round
load_rounds base_addr zero i s = (true, s)
load_rounds base_addr (suc n) i s =
    let (ok, t) = load_round base_addr i s in
    let rest = load_rounds base_addr n (i + 1) t in if ok then rest else (false, t)

pub load_segments : ℕ → Loader → Bool × Loader
unfolding load_rounds
load_segments base_addr s =
    load_rounds base_addr s.elf.header.e_phnum 0 (record s { elf = record s.elf { top_addr = 0 } })

pub load : ℕ → Loader → Bool × Loader
unfolding load_segments
load base_addr s =
    let (ok, t) =
      load_segments base_addr (record s { elf = record s.elf { base_addr = base_addr } }) in
    let entry = add64 t.elf.header.e_entry (if t.elf.header.e_type == 3 then base_addr else 0) in
    if s.elf.program_headers == 0
    then (false, s)
    else if ok
    then (true, record t { elf = record t.elf { entry_point = entry } })
    else (false, t)

-- round `j` of the loop of `elf_unload` over the pages of a segment
pub unload_page : ℕ → ℕ → Vmm → Vmm
unload_page page_vaddr j s =
    let page_virt = add64 page_vaddr (mul64 j 4096) in
    let page_phys = virt_to_phys s page_virt in
    let t = (unmap_page page_virt s).1 in
    if page_phys == 0
    then s
    else if (j == 0) || not (virt_to_phys t (sub64 page_virt 4096) == sub64 page_phys 4096)
    then record t { pmm = Pmm.free_page t.pmm page_phys }
    else t

pub unload_pages : ℕ → ℕ → ℕ → Vmm → Vmm
unfolding unload_page
unload_pages page_vaddr zero j s = s
unload_pages page_vaddr (suc n) j s = unload_pages page_vaddr n (j + 1) (unload_page page_vaddr j s)

-- `n` rounds of `elf_unload`, from program header `i` on
pub unload_rounds : ℕ → ℕ → Loader → Loader
unfolding program_header segment_vaddr segment_pages page_start unload_pages
unload_rounds zero i s = s
unload_rounds (suc n) i s =
    let ph = program_header s i in
    let vaddr = segment_vaddr s.elf s.elf.base_addr ph in
    let t = record s { vmm = unload_pages (page_start vaddr) (segment_pages ph) 0 s.vmm } in
    unload_rounds n (i + 1) (if ph.p_type == 1 then t else s)

pub unload : Loader → Bool × Loader
unfolding unload_rounds
unload s =
    let t = unload_rounds s.elf.header.e_phnum 0 s in
    if s.elf.base_addr == 0
    then (false, s)
    else (true, record t { elf = record t.elf { base_addr = 0; top_addr = 0 } })

pub free : Loader → Loader
unfolding unload read_header
free s =
    let t = if s.elf.base_addr == 0 then s else (unload s).1 in
    let pages = add64 t.elf.size 4095 / 4096 in
    let pmm' =
      if t.elf.file_data == 0 then t.vmm.pmm else Pmm.free_pages t.vmm.pmm t.elf.file_data pages in
    record t { vmm = record t.vmm { pmm = pmm' }; elf = fresh 0 0 (read_header (λ a. 0) 0) }

-- `n` rounds of the search for a symbol, from entry `i` on; the outer option is the fuel for the
-- comparison of names, and 0 is NULL.
pub find_symbol : ℕ → ℕ → ℕ → ℕ → Loader → Option ℕ
unfolding get_string
find_symbol fuel symbol_name zero i s = some 0
find_symbol fuel symbol_name (suc n) i s =
    let rest = find_symbol fuel symbol_name n (i + 1) s in
    let sym = add64 s.elf.symtab (i * 24) in
    let name = get_string s.elf (sub64 s.elf.strtab s.elf.file_data) (read s.ram sym 4) in
    let value = read s.ram (sym + 8) 8 in
    if name == 0 then rest else elim (strcmp fuel s.ram name symbol_name) [
      | none ↦ none
      | some o ↦ elim o [
        | same ↦ some (if s.elf.header.e_type == 3 then add64 value s.elf.base_addr else value)
        | less ↦ rest
        | more ↦ rest
      ]
    ]

pub get_symbol_address : ℕ → ℕ → Loader → Option ℕ
unfolding find_symbol
get_symbol_address fuel symbol_name s =
    if (symbol_name == 0) || ((s.elf.symtab == 0) || (s.elf.strtab == 0))
    then some 0
    else find_symbol fuel symbol_name s.elf.symtab_entries 0 s
