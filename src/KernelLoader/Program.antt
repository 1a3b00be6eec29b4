-- ===== src/KernelLoader/Program.antt =====
-- `load_kernel_to_virt_mem` of bootloader-efi/src/kernel.rs: all program headers of the kernel's file.
pub mod Parts
pub mod Kept
pub mod Result
mod Examples
use miniature.Base.{
  ℕ, zero, suc, ◌+◌, ◌-◌, ◌*◌, ◌/◌, Bool, true, false, ◌||◌, List, [], ◌∷◌, Option, none, some, leb,
  ltb, ◌==◌, if◌then◌else◌, Outcome, done, panic, ◌>>=◌, ◌>>◌, assert, or_panic, sub64, add64,
  mul64,
}
use miniature.Paging.Tracked.{mark_range_as_used}
use miniature.Paging.Layout.{kernel_bytes_p4, take_p4}
use miniature.Loader.{PtFlags, Mapper}
use miniature.Loader.Segment.{ShType, load, dynamic, gnu_relro, tls, null, ProgramHeader}
use miniature.Loader.Program.{
  is_load, virt_space, DynamicSection, no_dynamic, read_dynamic, Rela, rela_bytes, relative,
  le_bytes, not_writable, not_bit_9, ElfFile,
}
use miniature.KernelLoader.{
  Image, Addresses, Placed, copy_pages_and_write, shifted, place_segment, load_placed, mask_range,
}

pub record TlsTemplate : Type 0 where
  pub start_virt_addr : ℕ
  pub mem_size : ℕ
  pub file_size : ℕ

-- `i128` where it is a difference of two addresses: `negsuc n` is −(n + 1).
pub data ℤ : Type 0 where
  pos negsuc : ℕ → ℤ

pub sub_i128 : ℕ → ℕ → ℤ
sub_i128 a b = if leb b a then pos (a - b) else negsuc (b - a - 1)

pub record LoadKernel : Type 0 where
  pub kernel_entry : ℕ
  pub kernel_virt_space_offset : ℤ
  pub tls_template : Option TlsTemplate

-- `header::Type`
pub data EType : Type 0 where
  executable shared_object : EType
  other_type : ℕ → EType

abbrev pub has_space : EType → Bool
has_space executable = true
has_space shared_object = true
has_space (other_type n) = false

-- The file, whether the checks of the crate xmas_elf accept it, and its type.
pub record KernelFile : Type 0 where
  pub elf : ElfFile
  pub is_sane : Bool
  pub ty : EType

-- The template after a header of a type.
abbrev pub tls_of : ProgramHeader → Placed → ShType → Option TlsTemplate → Option TlsTemplate
tls_of ph at tls before =
    some
      (record { start_virt_addr = at.seg_start; mem_size = ph.mem_size; file_size = ph.file_size })
tls_of ph at load before = before
tls_of ph at dynamic before = before
tls_of ph at gnu_relro before = before
tls_of ph at null before = before

module _ {S : Type 0} (m : Mapper S) (x : Addresses) (elf : ElfFile) (start defined_start : ℕ) where
  pub apply_rela : Image S → Rela → Outcome (Image S)
  apply_rela im r = do
    assert (r.symbol_table_index == 0)
    assert (r.ty == relative)
    offset ← shifted x start defined_start r.offset
    attend ← shifted x start defined_start r.addend
    copy_pages_and_write m im offset (le_bytes 8 attend)

  -- The loop over the entries from `entry_idx` on.
  pub apply_relas : Image S → ℕ → ℕ → ℕ → Outcome (Image S)
  apply_relas im rela_ptr_offset entry_idx zero = done im
  apply_relas im rela_ptr_offset entry_idx (suc n) = do
    base ← sub64 rela_ptr_offset defined_start
    place ← mul64 entry_idx rela_bytes
    index ← add64 base place
    assert (ltb index elf.len)
    im' ← apply_rela im (elf.rela_at index)
    apply_relas im' rela_ptr_offset (entry_idx + 1) n

  abbrev pub relocate : Image S → DynamicSection → Option ℕ → Outcome (Image S)
  relocate im d none = done im
  relocate im d (some rela_ptr_offset) = do
    total_size ← or_panic d.size
    entry_size ← or_panic d.ent
    assert (entry_size == rela_bytes)
    apply_relas im rela_ptr_offset 0 (total_size / entry_size)

  pub load_dynamic : Image S → Outcome (Image S)
  load_dynamic im = read_dynamic no_dynamic elf.entries >>= λ d. relocate im d d.rela_ptr

  -- The entries of the top table that a segment needs; what the call answers is dropped.
  pub mark_placed : Image S → Placed → Outcome (Image S)
  mark_placed im at =
      mark_range_as_used x.pt_index x.virt_sub im.tracked at.seg_start at.mem_end >>= λ (marked, t).
      done (record im { tracked = t })

  abbrev pub load_by_type : Image S → ProgramHeader → Placed → ShType → Outcome (Image S)
  load_by_type im ph at load = load_placed m x im ph at
  load_by_type im ph at dynamic = load_dynamic im
  load_by_type im ph at gnu_relro = mask_range m x im at.seg_start at.mem_last not_writable
  load_by_type im ph at tls = done im
  load_by_type im ph at null = done im

  pub load_header :
      Image S → Option TlsTemplate → ProgramHeader → Outcome (Option TlsTemplate × Image S)
  load_header im template ph = do
    at ← place_segment x elf.phys_addr start defined_start ph
    im₁ ← mark_placed im at
    im₂ ← load_by_type im₁ ph at ph.ty
    done (tls_of ph at ph.ty template, im₂)

  pub load_headers :
      Image S → Option TlsTemplate → List ProgramHeader → Outcome (Option TlsTemplate × Image S)
  load_headers im template [] = done (template, im)
  load_headers im template (ph ∷ phs) =
      (if ph.mem_size == 0 then done (template, im) else load_header im template ph)
      >>= λ (template', im'). load_headers im' template' phs

  pub clear_mark : Image S → ProgramHeader → Outcome (Image S)
  clear_mark im ph = do
    seg_start ← shifted x start defined_start ph.virtual_addr
    mem_end ← or_panic (x.virt_add seg_start ph.mem_size)
    mem_last ← or_panic (x.virt_sub mem_end 1)
    mask_range m x im seg_start mem_last not_bit_9

  pub clear_marks : Image S → List ProgramHeader → Outcome (Image S)
  clear_marks im [] = done im
  clear_marks im (ph ∷ phs) =
      (if ph.mem_size == 0 then done im else if is_load ph.ty then clear_mark im ph else done im)
      >>= λ im'. clear_marks im' phs

module _ {S : Type 0} (m : Mapper S) (x : Addresses) (file : KernelFile) where
  pub load_at : Image S → ℕ → ℕ → Outcome (LoadKernel × Image S)
  load_at im start defined_start = do
    (template, im₁) ← load_headers m x file.elf start defined_start im none file.elf.program_headers
    im₂ ← clear_marks m x file.elf start defined_start im₁ file.elf.program_headers
    entry ← shifted x start defined_start file.elf.entry_point
    done (
      record {
        kernel_entry = entry;
        kernel_virt_space_offset = sub_i128 start defined_start;
        tls_template = template;
      },
      im₂,
    )

  -- The kernel gets the last entry of the top table.
  pub load_kernel_to_virt_mem : Image S → Outcome (LoadKernel × Image S)
  load_kernel_to_virt_mem im = do
    assert file.is_sane
    assert (has_space file.ty)
    (defined_start, size) ← virt_space file.elf.program_headers
    t ← take_p4 im.tracked size kernel_bytes_p4
    load_at (record im { tracked = t }) (x.p4_start kernel_bytes_p4) defined_start
