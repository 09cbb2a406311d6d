-- ===== src/Elf/Bounds.antt =====
-- What `elf_parse_memory` accepts.
use kronosos.Base.{
  ℕ, ◌+◌, ◌*◌, ◌^◌, ◌≤◌, ◌<◌, ◌≡◌, ◌∙◌, refl, sym, ap, true, false, not, ◌||◌, Option, none, some,
  ltb, ◌==◌, ==→eq, if_yes, if_no, Bool-cases, ◌⊎◌, inl, inr, arith, add64,
}
use mathlib.Core.Path.{subst}
use mathlib.Core.Option.{some-injective}
use kronosos.Elf.Symbols.{SameFile, find_symbol_tables-SameFile}
use kronosos.Strings.{Memory}
use kronosos.Elf.{
  read_header, ElfFile, load_program_headers, find_symbol_tables, load_section_headers, fresh,
  validate_header, parse_memory,
}

-- A table of `count` entries of `width` bytes lies at `offset` in the file, when there is one.
abbrev pub LiesAt : ElfFile → ℕ → ℕ → ℕ → ℕ → Type 0
LiesAt elf table offset count width =
    (count ≡ 0) ⊎ ((table ≡ add64 elf.file_data offset) × (add64 offset (count * width) ≤ elf.size))

-- What `elf_parse_memory` gives for a file.
pub record Parsed (m : Memory) (file_data size : ℕ) (elf : ElfFile) : Type 0 where
  pub at : elf.file_data ≡ file_data
  pub whole : elf.size ≡ size
  pub big_enough : 64 ≤ size
  pub header : elf.header ≡ read_header m file_data
  pub valid : validate_header m file_data ≡ true
  pub programs : LiesAt elf elf.program_headers elf.header.e_phoff elf.header.e_phnum 56
  pub sections : LiesAt elf elf.section_headers elf.header.e_shoff elf.header.e_shnum 64

impossible : {A : Type 0} {a : A} → none ≡ some a → ⊥
impossible e = cc

-- The section headers are located, and the rest of the structure is as before.
abbrev Located : ElfFile → ElfFile → Type 0
Located elf new =
    (new.file_data ≡ elf.file_data)
    × (new.size ≡ elf.size)
    × (new.header ≡ elf.header)
    × (new.program_headers ≡ elf.program_headers)
    × LiesAt new new.section_headers new.header.e_shoff new.header.e_shnum 64

load_section_headers-Located :
    (m : Memory) (elf : ElfFile) {new : ElfFile}
    → load_section_headers m elf ≡ some new
    → Located elf new
unfolding load_section_headers
load_section_headers-Located m elf {new} e = elim (Bool-cases (elf.header.e_shnum == 0)) [
  | inl empty ↦
      let same = some-injective _ _ (sym (if_yes _ _ empty) ∙ e) in
      subst (Located elf) same (refl, refl, refl, refl, inl (==→eq empty))
  | inr some_sections ↦
      elim (Bool-cases (ltb elf.size (add64 elf.header.e_shoff (elf.header.e_shnum * 64)))) [
        | inl outside ↦
            absurd (impossible (sym (if_yes _ _ outside) ∙ sym (if_no _ _ some_sections) ∙ e))
        | inr inside ↦
            let located = record elf { section_headers = add64 elf.file_data elf.header.e_shoff } in
            let k = find_symbol_tables-SameFile m located in
            let same =
              some-injective _ _ (sym (if_no _ _ inside) ∙ sym (if_no _ _ some_sections) ∙ e) in
            subst (Located elf) same
              (k.file_data, k.size, k.header, k.program_headers, inr (lies k inside))
      ]
]
  where
    lies :
        SameFile
          (record elf { section_headers = add64 elf.file_data elf.header.e_shoff })
          (find_symbol_tables m
            (record elf { section_headers = add64 elf.file_data elf.header.e_shoff }))
        → ltb elf.size (add64 elf.header.e_shoff (elf.header.e_shnum * 64)) ≡ false
        → let f =
            find_symbol_tables m
              (record elf { section_headers = add64 elf.file_data elf.header.e_shoff }) in
          (f.section_headers ≡ add64 f.file_data f.header.e_shoff)
          × (add64 f.header.e_shoff (f.header.e_shnum * 64) ≤ f.size)
    lies k inside = rw (k.header, k.size, k.file_data) (k.section_headers, ground arith)

load_program_headers-LiesAt :
    (elf : ElfFile) {new : ElfFile}
    → load_program_headers elf ≡ some new
    → (new.file_data ≡ elf.file_data)
      × (new.size ≡ elf.size)
      × (new.header ≡ elf.header)
      × LiesAt new new.program_headers new.header.e_phoff new.header.e_phnum 56
unfolding load_program_headers
load_program_headers-LiesAt elf {new} e = elim (Bool-cases (elf.header.e_phnum == 0)) [
  | inl empty ↦
      let same = some-injective _ _ (sym (if_yes _ _ empty) ∙ e) in
      subst Found same (refl, refl, refl, inl (==→eq empty))
  | inr some_programs ↦
      elim (Bool-cases (ltb elf.size (add64 elf.header.e_phoff (elf.header.e_phnum * 56)))) [
        | inl outside ↦
            absurd (impossible (sym (if_yes _ _ outside) ∙ sym (if_no _ _ some_programs) ∙ e))
        | inr inside ↦
            let same =
              some-injective _ _ (sym (if_no _ _ inside) ∙ sym (if_no _ _ some_programs) ∙ e) in
            subst Found same (refl, refl, refl, inr (refl, ground arith))
      ]
]
  where
    Found : ElfFile → Type 0
    Found f =
        (f.file_data ≡ elf.file_data)
        × (f.size ≡ elf.size)
        × (f.header ≡ elf.header)
        × LiesAt f f.program_headers f.header.e_phoff f.header.e_phnum 56

-- the structure after both
parsed :
    (m : Memory) (file_data size : ℕ) (o : Option ElfFile)
    → load_program_headers (fresh file_data size (read_header m file_data)) ≡ o
    → 64 ≤ size
    → validate_header m file_data ≡ true
    → {elf : ElfFile} → elim o [ none ↦ none | some f ↦ load_section_headers m f ] ≡ some elf
    → Parsed m file_data size elf
parsed m file_data size none e big valid f = absurd (impossible f)
parsed m file_data size (some mid) e big valid {elf} f =
    let (at, whole, header, programs) =
      load_program_headers-LiesAt (fresh file_data size (read_header m file_data)) e in
    let (at', whole', header', table, sections) = load_section_headers-Located m mid f in
    record {
      at = at' ∙ at;
      whole = whole' ∙ whole;
      big_enough = big;
      header = header' ∙ header;
      valid = valid;
      programs = rw (at', whole', header', table) programs;
      sections = sections;
    }

-- When `elf_parse_memory` accepts a file, its header is valid and read from the file, and each of
-- the two tables of headers is empty or lies in the file, by the 64-bit arithmetic of the code.
pub parse_memory-Parsed :
    (m : Memory) (file_data size : ℕ) {elf : ElfFile}
    → parse_memory m file_data size ≡ some elf
    → Parsed m file_data size elf
unfolding parse_memory
parse_memory-Parsed m file_data size {elf} e = elim (Bool-cases ((file_data == 0) || ltb size 64)) [
  | inl short ↦ absurd (impossible (sym (if_yes _ _ short) ∙ e))
  | inr long ↦ elim (Bool-cases (validate_header m file_data)) [
    | inr invalid ↦
        absurd (impossible (sym (if_yes _ _ (ap not invalid)) ∙ sym (if_no _ _ long) ∙ e))
    | inl valid ↦
        parsed m file_data size
          (load_program_headers (fresh file_data size (read_header m file_data))) refl
          (ground arith) valid (sym (if_no _ _ (ap not valid)) ∙ sym (if_no _ _ long) ∙ e)
  ]
]

-- The entry `i` of a table lies in the file, between its first byte and its end.
abbrev pub InFile : ElfFile → ℕ → ℕ → ℕ → Type 0
InFile elf table width i =
    (elf.file_data ≤ add64 table (i * width))
    × (add64 table (i * width) + width ≤ elf.file_data + elf.size)

-- When a file that ends below 2^64 is accepted, and neither table's end wraps around, each header
-- that its header counts lies in the file.
pub parse_memory-InFile :
    (m : Memory) (file_data size : ℕ) {elf : ElfFile}
    → parse_memory m file_data size ≡ some elf
    → file_data + size < 2 ^ 64
    → elf.header.e_phoff + elf.header.e_phnum * 56 < 2 ^ 64
    → elf.header.e_shoff + elf.header.e_shnum * 64 < 2 ^ 64
    → ((i : ℕ) → i < elf.header.e_phnum → InFile elf elf.program_headers 56 i)
      × ((i : ℕ) → i < elf.header.e_shnum → InFile elf elf.section_headers 64 i)
parse_memory-InFile m file_data size {elf} e fits programs sections =
    let p = parse_memory-Parsed m file_data size e in
    (λ i h. program i p h p.programs, λ i h. section_header i p h p.sections)
  where
    program :
        (i : ℕ)
        → Parsed m file_data size elf
        → i < elf.header.e_phnum
        → LiesAt elf elf.program_headers elf.header.e_phoff elf.header.e_phnum 56
        → InFile elf elf.program_headers 56 i
    program i p h (inl empty) = absurd (omega arith)
    program i p h (inr (table, inside)) =
        let at = p.at in let whole = p.whole in (omega arith, omega arith)

    section_header :
        (i : ℕ)
        → Parsed m file_data size elf
        → i < elf.header.e_shnum
        → LiesAt elf elf.section_headers elf.header.e_shoff elf.header.e_shnum 64
        → InFile elf elf.section_headers 64 i
    section_header i p h (inl empty) = absurd (omega arith)
    section_header i p h (inr (table, inside)) =
        let at = p.at in let whole = p.whole in (omega arith, omega arith)
