-- ===== src/Elf/Symbols.antt =====
-- `elf_find_symbol_tables`: what it leaves alone.
use kronosos.Base.{
  if_both, ℕ, zero, suc, ◌+◌, ◌/◌, ◌%◌, ◌^◌, ◌≡◌, ◌∙◌, refl, not, ◌||◌, ltb, ◌==◌, if◌then◌else◌,
  add64,
}
use kronosos.Strings.{Memory}
use kronosos.Elf.{
  read_section_header, section_at, ElfFile, link_strings, take_section, take_sections,
  find_symbol_tables,
}

-- the parts of a file structure that the search for symbols leaves alone
pub record SameFile (elf new : ElfFile) : Type 0 where
  pub file_data : new.file_data ≡ elf.file_data
  pub size : new.size ≡ elf.size
  pub header : new.header ≡ elf.header
  pub program_headers : new.program_headers ≡ elf.program_headers
  pub section_headers : new.section_headers ≡ elf.section_headers

SameFile-refl : {elf : ElfFile} → SameFile elf elf
SameFile-refl = record {
  file_data = refl;
  size = refl;
  header = refl;
  program_headers = refl;
  section_headers = refl;
}

SameFile-trans : {a b c : ElfFile} → SameFile a b → SameFile b c → SameFile a c
SameFile-trans f g = record {
  file_data = g.file_data ∙ f.file_data;
  size = g.size ∙ f.size;
  header = g.header ∙ f.header;
  program_headers = g.program_headers ∙ f.program_headers;
  section_headers = g.section_headers ∙ f.section_headers;
}

-- What the search for symbols changes.
symbols-SameFile :
    (elf : ElfFile) (a b c d : ℕ)
    → SameFile elf (record elf { symtab = a; symtab_entries = b; strtab = c; strtab_size = d })
symbols-SameFile elf a b c d = record {
  file_data = refl;
  size = refl;
  header = refl;
  program_headers = refl;
  section_headers = refl;
}

link_strings-SameFile :
    (m : Memory) (link : ℕ) (elf : ElfFile) → SameFile elf (link_strings m link elf)
unfolding link_strings
link_strings-SameFile m link elf =
    let s = read_section_header m (section_at elf link) in
    let linked = record elf { strtab = add64 elf.file_data s.sh_offset; strtab_size = s.sh_size } in
    if_both (SameFile elf) (not (ltb link elf.header.e_shnum)) elf
      (if s.sh_type == 3 then linked else elf) SameFile-refl
      (if_both (SameFile elf) (s.sh_type == 3) linked elf (symbols-SameFile elf _ _ _ _)
        SameFile-refl)

take_section-SameFile : (m : Memory) (i : ℕ) (elf : ElfFile) → SameFile elf (take_section m i elf)
unfolding take_section
take_section-SameFile m i elf =
    let s = read_section_header m (section_at elf i) in
    let found = record elf {
      symtab = add64 elf.file_data s.sh_offset;
      symtab_entries = s.sh_size / 24 % 2 ^ 32;
    } in
    if_both (SameFile elf) (s.sh_type == 2) (link_strings m s.sh_link found) elf
      (SameFile-trans (symbols-SameFile elf _ _ _ _) (link_strings-SameFile m s.sh_link found))
      SameFile-refl

take_sections-SameFile :
    (m : Memory) (n i : ℕ) (elf : ElfFile) → SameFile elf (take_sections m n i elf)
unfolding take_sections
take_sections-SameFile m zero i elf = SameFile-refl
take_sections-SameFile m (suc n) i elf =
    SameFile-trans (take_section-SameFile m i elf)
      (take_sections-SameFile m n (i + 1) (take_section m i elf))

pub find_symbol_tables-SameFile :
    (m : Memory) (elf : ElfFile) → SameFile elf (find_symbol_tables m elf)
unfolding find_symbol_tables
find_symbol_tables-SameFile m elf =
    if_both (SameFile elf) ((elf.section_headers == 0) || (elf.header.e_shnum == 0)) elf
      (take_sections m elf.header.e_shnum 0 elf) SameFile-refl
      (take_sections-SameFile m elf.header.e_shnum 0 elf)
