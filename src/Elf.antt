-- ===== src/Elf.antt =====
-- kernel/src/core/exec/elf.c: the parsing of an ELF file in memory. A pointer is its address, and 0
-- is NULL. Fields of the header that nothing reads are left out, and so is what stands in the file
-- structure of a file that is rejected.
pub mod Loading
pub mod Symbols
pub mod Bounds
pub mod Segments
mod Tests
use kronosos.Base.{
  ℕ, zero, suc, ◌+◌, ◌*◌, ◌/◌, ◌%◌, ◌^◌, Bool, true, false, not, ◌&&◌, ◌||◌, Option, none, some,
  ltb, leb, ◌==◌, if◌then◌else◌, add64,
}
pub use kronosos.Base.Bytes.{read}
use kronosos.Strings.{Memory}

-- `elf64_ehdr_t`, of 64 bytes
pub record Header : Type 0 where
  pub e_type : ℕ
  pub e_machine : ℕ
  pub e_entry : ℕ
  pub e_phoff : ℕ
  pub e_shoff : ℕ
  pub e_phentsize : ℕ
  pub e_phnum : ℕ
  pub e_shentsize : ℕ
  pub e_shnum : ℕ
  pub e_shstrndx : ℕ

unfoldable pub read_header : Memory → ℕ → Header
read_header m a = record {
  e_type = read m (a + 16) 2;
  e_machine = read m (a + 18) 2;
  e_entry = read m (a + 24) 8;
  e_phoff = read m (a + 32) 8;
  e_shoff = read m (a + 40) 8;
  e_phentsize = read m (a + 54) 2;
  e_phnum = read m (a + 56) 2;
  e_shentsize = read m (a + 58) 2;
  e_shnum = read m (a + 60) 2;
  e_shstrndx = read m (a + 62) 2;
}

-- `elf64_phdr_t`, of 56 bytes
pub record ProgramHeader : Type 0 where
  pub p_type : ℕ
  pub p_flags : ℕ
  pub p_offset : ℕ
  pub p_vaddr : ℕ
  pub p_filesz : ℕ
  pub p_memsz : ℕ

pub read_program_header : Memory → ℕ → ProgramHeader
read_program_header m a = record {
  p_type = read m a 4;
  p_flags = read m (a + 4) 4;
  p_offset = read m (a + 8) 8;
  p_vaddr = read m (a + 16) 8;
  p_filesz = read m (a + 32) 8;
  p_memsz = read m (a + 40) 8;
}

-- `elf64_shdr_t`, of 64 bytes
pub record SectionHeader : Type 0 where
  pub sh_name : ℕ
  pub sh_type : ℕ
  pub sh_offset : ℕ
  pub sh_size : ℕ
  pub sh_link : ℕ

pub read_section_header : Memory → ℕ → SectionHeader
read_section_header m a = record {
  sh_name = read m a 4;
  sh_type = read m (a + 4) 4;
  sh_offset = read m (a + 24) 8;
  sh_size = read m (a + 32) 8;
  sh_link = read m (a + 40) 4;
}

-- `elf_file_t`
pub record ElfFile : Type 0 where
  pub file_data : ℕ
  pub size : ℕ
  pub header : Header
  pub program_headers : ℕ
  pub section_headers : ℕ
  pub symtab : ℕ
  pub symtab_entries : ℕ
  pub strtab : ℕ
  pub strtab_size : ℕ
  pub entry_point : ℕ
  pub base_addr : ℕ
  pub top_addr : ℕ

-- `ehdr` is the address of the header.
pub validate_header : Memory → ℕ → Bool
unfolding read_header
validate_header m ehdr =
    let h = read_header m ehdr in
    if not (read m ehdr 4 == 0x464c_457f)
    then false
    else if not (m (ehdr + 4) == 2)
    then false
    else if not (m (ehdr + 5) == 1)
    then false
    else if not (h.e_machine == 62)
    then false
    else if not (h.e_type == 2) && not (h.e_type == 3)
    then false
    else if not (h.e_phentsize == 56)
    then false
    else if not (h.e_shentsize == 64)
    then false
    else true

pub load_program_headers : ElfFile → Option ElfFile
load_program_headers elf =
    let phoff = elf.header.e_phoff in
    if elf.header.e_phnum == 0
    then some (record elf { program_headers = 0 })
    else if ltb elf.size (add64 phoff (elf.header.e_phnum * 56))
    then none
    else some (record elf { program_headers = add64 elf.file_data phoff })

pub section_at : ElfFile → ℕ → ℕ
section_at elf i = add64 elf.section_headers (i * 64)

-- the string table that a symbol table links to
pub link_strings : Memory → ℕ → ElfFile → ElfFile
unfolding section_at read_section_header
link_strings m link elf =
    let s = read_section_header m (section_at elf link) in
    if not (ltb link elf.header.e_shnum)
    then elf
    else if s.sh_type == 3
    then record elf { strtab = add64 elf.file_data s.sh_offset; strtab_size = s.sh_size }
    else elf

-- section `i` in the loop of `elf_find_symbol_tables`
pub take_section : Memory → ℕ → ElfFile → ElfFile
unfolding section_at read_section_header link_strings
take_section m i elf =
    let s = read_section_header m (section_at elf i) in
    if s.sh_type == 2
    then link_strings m s.sh_link (record elf {
      symtab = add64 elf.file_data s.sh_offset;
      symtab_entries = s.sh_size / 24 % 2 ^ 32;
    })
    else elf

-- `n` rounds of that loop, from section `i` on
pub take_sections : Memory → ℕ → ℕ → ElfFile → ElfFile
unfolding take_section
take_sections m zero i elf = elf
take_sections m (suc n) i elf = take_sections m n (i + 1) (take_section m i elf)

-- What it returns is not used.
pub find_symbol_tables : Memory → ElfFile → ElfFile
unfolding take_sections
find_symbol_tables m elf =
    if (elf.section_headers == 0) || (elf.header.e_shnum == 0)
    then elf
    else take_sections m elf.header.e_shnum 0 elf

pub load_section_headers : Memory → ElfFile → Option ElfFile
unfolding find_symbol_tables
load_section_headers m elf =
    let shoff = elf.header.e_shoff in
    if elf.header.e_shnum == 0
    then some (record elf { section_headers = 0 })
    else if ltb elf.size (add64 shoff (elf.header.e_shnum * 64))
    then none
    else some (find_symbol_tables m (record elf { section_headers = add64 elf.file_data shoff }))

pub get_string : ElfFile → ℕ → ℕ → ℕ
get_string elf string_table_offset offset =
    if leb elf.size (add64 string_table_offset offset)
    then 0
    else add64 (add64 elf.file_data string_table_offset) offset

pub get_section_name : Memory → ElfFile → ℕ → ℕ
unfolding section_at read_section_header get_string
get_section_name m elf section =
    if (section == 0) || leb elf.header.e_shnum elf.header.e_shstrndx
    then 0
    else get_string elf (read_section_header m (section_at elf elf.header.e_shstrndx)).sh_offset
        (read_section_header m section).sh_name

-- the structure after `memset`, with its header
abbrev pub fresh : ℕ → ℕ → Header → ElfFile
fresh file_data size header = record {
  file_data = file_data;
  size = size;
  header = header;
  program_headers = 0;
  section_headers = 0;
  symtab = 0;
  symtab_entries = 0;
  strtab = 0;
  strtab_size = 0;
  entry_point = 0;
  base_addr = 0;
  top_addr = 0;
}

-- the file structure, or `none` when the function returns false
pub parse_memory : Memory → ℕ → ℕ → Option ElfFile
unfolding validate_header read_header load_program_headers load_section_headers
parse_memory m file_data size =
    if (file_data == 0) || ltb size 64
    then none
    else if not (validate_header m file_data)
    then none
    else elim (load_program_headers (fresh file_data size (read_header m file_data))) [
      | none ↦ none
      | some elf ↦ load_section_headers m elf
    ]
