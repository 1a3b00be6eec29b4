-- ===== src/Loader/Program/Examples.antt =====
-- A file with code, a relocation into its data, and a read-only part.
use miniature.Base.{ℕ, ◌≡◌, refl, true, false, List, [], ◌∷◌, some, done}
use miniature.Loader.{
  AddrSpace, raw_map_to, raw_unmap, raw_update_flags, remap_copied, copy_page_and_remap, page_span,
  write_page, write_pages, copy_pages_and_write, update_page_flag,
}
use miniature.Loader.Remap.{view}
use miniature.Loader.Examples.{Entry, mapper, mapper-IsMapper, plain-MarksOwn, empty}
use miniature.Loader.Segment.{
  load, dynamic, gnu_relro, ProgramHeader, map_new, map_file_pages, map_bss_pages, clear_file_end,
  clear_bss, map_segment, load_segment,
}
use miniature.Loader.Segment.Contents.{rounded}
use miniature.Loader.Program.{
  rela, rela_size, rela_ent, ElfFile, virt_bounds, virt_space, read_dynamic, apply_rela,
  apply_relas, load_dynamic, mask_segment, load_headers, clear_marks, elf_copy_to_addrsp,
}
use miniature.Loader.Program.Cleared.{Cleared, elf_copy_to_addrsp-IsClearSegment}

abbrev code : ProgramHeader
code = record {
  ty = load;
  offset = 0;
  virtual_addr = 0x400000;
  file_size = 0x1000;
  mem_size = 0x1000;
  is_execute = true;
  is_write = false;
}

abbrev variables : ProgramHeader
variables = record {
  ty = load;
  offset = 0x1000;
  virtual_addr = 0x401000;
  file_size = 0x800;
  mem_size = 0x1800;
  is_execute = false;
  is_write = true;
}

abbrev relocations : ProgramHeader
relocations = record {
  ty = dynamic;
  offset = 0x1100;
  virtual_addr = 0x401100;
  file_size = 0x100;
  mem_size = 0x100;
  is_execute = false;
  is_write = true;
}

abbrev relro : ProgramHeader
relro = record {
  ty = gnu_relro;
  offset = 0x1000;
  virtual_addr = 0x401000;
  file_size = 0x100;
  mem_size = 0x100;
  is_execute = false;
  is_write = false;
}

abbrev elf : ElfFile
elf = record {
  len = 0x1800;
  phys_addr = 0x10000;
  rela_at =
      λ index. record { symbol_table_index = 0; ty = 8; offset = 0x401010; addend = 0x400123 };
  entries = (rela, 0x401200) ∷ (rela_size, 24) ∷ (rela_ent, 24) ∷ [];
  program_headers = code ∷ variables ∷ relocations ∷ relro ∷ [];
  entry_point = 0x400040;
}

elf_run :
    (st : AddrSpace (List Entry)) × (elf_copy_to_addrsp mapper rounded elf empty
      ≡ done (0x400040, st))
    × (view mapper st 0x401 0x11 ≡ some 1)
unfolding elf_copy_to_addrsp clear_marks load_headers mask_segment load_dynamic apply_relas
    apply_rela read_dynamic virt_space virt_bounds load_segment map_segment map_file_pages map_new
    clear_bss clear_file_end map_bss_pages copy_pages_and_write write_pages write_page page_span
    copy_page_and_remap remap_copied raw_unmap raw_map_to update_page_flag raw_update_flags
elf_run = (_, refl, refl)

elf_copy_to_addrsp-IsClearSegment_example :
    (◌≡◌ {A = ℕ} 0x400040 0x400040) × Cleared mapper mapper-IsMapper rounded elf empty elf_run.0
elf_copy_to_addrsp-IsClearSegment_example =
    elf_copy_to_addrsp-IsClearSegment mapper mapper-IsMapper rounded elf empty
      (plain-MarksOwn [] empty.memory [] tt) elf_run.1
