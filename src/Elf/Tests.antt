-- ===== src/Elf/Tests.antt =====
-- A file with one program header behind its header, at 0x1000.
use kronosos.Base.{ℕ, ◌-◌, ◌<◌, ◌≡◌, refl, false, some, List, [], ◌∷◌, get_or, arith}
use kronosos.Pmm.Sample.{sample, sample-IsValid, alloc_pages_run}
use kronosos.Pmm.RoundTrip.{Restored}
use kronosos.Vmm.Sample.{empty}
use kronosos.Strings.{Memory}
use kronosos.Elf.{
  ElfFile, Header, ProgramHeader, fresh, parse_memory, validate_header, read_header,
  load_program_headers, load_section_headers,
}
use kronosos.Elf.Loading.{Loader, load_segment, segment_pages}
use kronosos.Elf.Bounds.{InFile, parse_memory-InFile}
use kronosos.Elf.Segments.{load_segment-Restored}

abbrev contents : List ℕ
contents =
    0x7f ∷ 0x45 ∷ 0x4c ∷ 0x46 ∷ 2 ∷ 1 ∷ 1 ∷ 0 ∷ 0 ∷ 0 ∷ 0 ∷ 0 ∷ 0 ∷ 0 ∷ 0 ∷ 0 ∷ 2 ∷ 0 ∷ 62 ∷ 0 ∷ 1
    ∷ 0 ∷ 0 ∷ 0 ∷ 0 ∷ 0x10 ∷ 0x40 ∷ 0 ∷ 0 ∷ 0 ∷ 0 ∷ 0 ∷ 64 ∷ 0 ∷ 0 ∷ 0 ∷ 0 ∷ 0 ∷ 0 ∷ 0 ∷ 0 ∷ 0 ∷ 0
    ∷ 0 ∷ 0 ∷ 0 ∷ 0 ∷ 0 ∷ 0 ∷ 0 ∷ 0 ∷ 0 ∷ 64 ∷ 0 ∷ 56 ∷ 0 ∷ 1 ∷ 0 ∷ 64 ∷ 0 ∷ 0 ∷ 0 ∷ 0 ∷ 0 ∷ []

abbrev memory : Memory
memory = λ a. get_or contents (a - 0x1000) 0

abbrev header : Header
header = record {
  e_type = 2;
  e_machine = 62;
  e_entry = 0x40_1000;
  e_phoff = 64;
  e_shoff = 0;
  e_phentsize = 56;
  e_phnum = 1;
  e_shentsize = 64;
  e_shnum = 0;
  e_shstrndx = 0;
}

abbrev file : ElfFile
file = record (fresh 0x1000 120 header) { program_headers = 0x1040 }

accepted : parse_memory memory 0x1000 120 ≡ some file
unfolding parse_memory validate_header read_header load_program_headers load_section_headers
accepted = refl

parse_memory-InFile_example :
    ((i : ℕ) → i < 1 → InFile file 0x1040 56 i) × ((i : ℕ) → i < 0 → InFile file 0 64 i)
parse_memory-InFile_example =
    parse_memory-InFile memory 0x1000 120 accepted (omega arith) (omega arith) (omega arith)

-- 50 bytes from 100 on, in a file of 120
abbrev cut_off : ProgramHeader
cut_off = record {
  p_type = 1;
  p_flags = 5;
  p_offset = 100;
  p_vaddr = 0x40_1000;
  p_filesz = 50;
  p_memsz = 0x3000;
}

abbrev loader : Loader
loader = record { vmm = empty; ram = memory; elf = file }

load_segment-Restored_example :
    ((load_segment 0 cut_off loader).0 ≡ false)
    × Restored sample (load_segment 0 cut_off loader).1.vmm.pmm
unfolding segment_pages
load_segment-Restored_example =
    load_segment-Restored 0 cut_off loader sample-IsValid (omega arith)
      (omega (arith, alloc_pages_run)) (omega arith) (omega arith)
