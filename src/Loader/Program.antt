-- ===== src/Loader/Program.antt =====
-- `elf_copy_to_addrsp` of kernel/src/mem/load_elf.rs: all program headers of a file.
pub mod Marks
pub mod Bounds
pub mod Cleared
mod Examples
use miniature.Base.{
  ℕ, zero, suc, ◌+◌, ◌-◌, ◌*◌, ◌/◌, ◌%◌, Bool, true, false, List, [], ◌∷◌, ◌++◌, Option, none, some,
  ltb, ◌==◌, if◌then◌else◌, Outcome, done, panic, ◌>>=◌, ◌>>◌, assert, or_panic, sub64, add64,
  mul64, word,
}
use miniature.Loader.{PtFlags, Mapper, AddrSpace, copy_pages_and_write, update_page_flag}
use miniature.Loader.Segment.{
  ShType, load, dynamic, gnu_relro, tls, null, ProgramHeader, load_segment,
}

abbrev pub is_load : ShType → Bool
is_load load = true
is_load dynamic = false
is_load gnu_relro = false
is_load tls = false
is_load null = false

-- The least start and the greatest end of the loadable segments so far.
unfoldable pub virt_bounds : ℕ → ℕ → List ProgramHeader → Outcome (ℕ × ℕ)
virt_bounds least greatest [] = done (least, greatest)
virt_bounds least greatest (ph ∷ phs) = elim (is_load ph.ty) [
  | false ↦ virt_bounds least greatest phs
  | true ↦ do
    ph_right ← add64 ph.virtual_addr ph.mem_size
    let greatest' = if ltb greatest ph_right then ph_right else greatest
    let least' = if ltb ph.virtual_addr least then ph.virtual_addr else least
    virt_bounds least' greatest' phs
]

-- The start of the file's addresses, and their number.
unfoldable pub virt_space : List ProgramHeader → Outcome (ℕ × ℕ)
virt_space phs = do
  (least, greatest) ← virt_bounds (word - 1) 0 phs
  size ← sub64 greatest least
  done (least, size)

pub data DynamicTag : Type 0 where
  rela rela_size rela_ent : DynamicTag
  other_tag : ℕ → DynamicTag

-- `replace`, and the panic when there was a value.
abbrev pub replace : Option ℕ → ℕ → Outcome (Option ℕ)
replace none v = done (some v)
replace (some old) v = panic

pub record Rela : Type 0 where
  pub symbol_table_index : ℕ
  pub ty : ℕ
  pub offset : ℕ
  pub addend : ℕ

pub record DynamicSection : Type 0 where
  pub rela_ptr : Option ℕ
  pub size : Option ℕ
  pub ent : Option ℕ

abbrev pub read_entry : DynamicSection → DynamicTag → ℕ → Outcome DynamicSection
read_entry d rela v = replace d.rela_ptr v >>= λ p. done (record d { rela_ptr = p })
read_entry d rela_size v = replace d.size v >>= λ p. done (record d { size = p })
read_entry d rela_ent v = replace d.ent v >>= λ p. done (record d { ent = p })
read_entry d (other_tag tag) v = done d

unfoldable pub read_dynamic : DynamicSection → List (DynamicTag × ℕ) → Outcome DynamicSection
read_dynamic d [] = done d
read_dynamic d ((tag, v) ∷ rest) = read_entry d tag v >>= λ d'. read_dynamic d' rest

-- `to_ne_bytes` of a `u64`, the least byte first.
abbrev pub le_bytes : ℕ → ℕ → List ℕ
le_bytes zero v = []
le_bytes (suc n) v = v % 256 ∷ le_bytes n (v / 256)

abbrev pub no_dynamic : DynamicSection
no_dynamic = record { rela_ptr = none; size = none; ent = none }

-- `size_of::<Rela<u64>>()`, and R_X86_64_RELATIVE.
abbrev pub rela_bytes : ℕ
rela_bytes = 24

abbrev pub relative : ℕ
relative = 8

abbrev pub not_writable : PtFlags → PtFlags
not_writable flags = record flags { writable = false }

abbrev pub not_bit_9 : PtFlags → PtFlags
not_bit_9 flags = record flags { bit_9 = false }

-- The file: its length, the relocation that stands at an index of its bytes, its dynamic entries, and its entry point.
pub record ElfFile : Type 0 where
  pub len : ℕ
  pub phys_addr : ℕ
  pub rela_at : ℕ → Rela
  pub entries : List (DynamicTag × ℕ)
  pub program_headers : List ProgramHeader
  pub entry_point : ℕ

module _ {S : Type 0} (m : Mapper S) (align_up : ℕ → ℕ) (elf : ElfFile) where
  pub apply_rela : AddrSpace S → Rela → Outcome (AddrSpace S)
  apply_rela st r = do
    assert (r.symbol_table_index == 0)
    assert (r.ty == relative)
    copy_pages_and_write m st r.offset (le_bytes 8 r.addend)

  -- The loop over the entries from `entry_idx` on.
  pub apply_relas : AddrSpace S → ℕ → ℕ → ℕ → ℕ → Outcome (AddrSpace S)
  apply_relas st elf_start rela_ptr_offset entry_idx zero = done st
  apply_relas st elf_start rela_ptr_offset entry_idx (suc n) = do
    base ← sub64 rela_ptr_offset elf_start
    place ← mul64 entry_idx rela_bytes
    index ← add64 base place
    assert (ltb index elf.len)
    st' ← apply_rela st (elf.rela_at index)
    apply_relas st' elf_start rela_ptr_offset (entry_idx + 1) n

  abbrev pub relocate : AddrSpace S → ℕ → DynamicSection → Option ℕ → Outcome (AddrSpace S)
  relocate st elf_start d none = done st
  relocate st elf_start d (some rela_ptr_offset) = do
    total_size ← or_panic d.size
    entry_size ← or_panic d.ent
    assert (entry_size == rela_bytes)
    apply_relas st elf_start rela_ptr_offset 0 (total_size / entry_size)

  pub load_dynamic : AddrSpace S → ℕ → Outcome (AddrSpace S)
  load_dynamic st elf_start =
      read_dynamic no_dynamic elf.entries >>= λ d. relocate st elf_start d d.rela_ptr

  -- `update_page_flag` on the pages of a segment.
  pub mask_segment : AddrSpace S → ProgramHeader → (PtFlags → PtFlags) → Outcome (AddrSpace S)
  mask_segment st ph mask = do
    seg_mem_end ← add64 ph.virtual_addr ph.mem_size
    last ← sub64 seg_mem_end 1
    let start_page = m.containing_address ph.virtual_addr
    update_page_flag m st start_page (m.containing_address last + 1 - start_page) mask

  -- The TLS template that the source sets is not read again.
  abbrev pub load_header : AddrSpace S → ℕ → ProgramHeader → ShType → Outcome (AddrSpace S)
  load_header st elf_start ph load = load_segment m align_up st elf.phys_addr ph
  load_header st elf_start ph dynamic = load_dynamic st elf_start
  load_header st elf_start ph gnu_relro = mask_segment st ph not_writable
  load_header st elf_start ph tls = done st
  load_header st elf_start ph null = done st

  pub load_headers : AddrSpace S → ℕ → List ProgramHeader → Outcome (AddrSpace S)
  load_headers st elf_start [] = done st
  load_headers st elf_start (ph ∷ phs) =
      (if ph.mem_size == 0 then done st else load_header st elf_start ph ph.ty) >>= λ st'.
      load_headers st' elf_start phs

  pub clear_marks : AddrSpace S → List ProgramHeader → Outcome (AddrSpace S)
  clear_marks st [] = done st
  clear_marks st (ph ∷ phs) =
      (if ph.mem_size == 0
        then done st
        else if is_load ph.ty
        then mask_segment st ph not_bit_9
        else done st)
      >>= λ st'. clear_marks st' phs

  pub elf_copy_to_addrsp : AddrSpace S → Outcome (ℕ × AddrSpace S)
  elf_copy_to_addrsp st = do
    (elf_start, size) ← virt_space elf.program_headers
    st₁ ← load_headers st elf_start elf.program_headers
    st₂ ← clear_marks st₁ elf.program_headers
    done (elf.entry_point, st₂)
