-- ===== src/Loader/Segment.antt =====
-- The branch of kernel/src/mem/load_elf.rs for a loadable segment: its contents, and the zeros after them.
pub mod Fresh
pub mod Pages
pub mod Contents
pub mod Loaded
use miniature.Base.{
  ℕ, zero, suc, ◌+◌, ◌-◌, ◌*◌, ◌%◌, Bool, true, false, not, Option, ◌==◌, leb, if◌then◌else◌,
  Outcome, done, ◌>>=◌, ◌>>◌, or_panic, sub64, add64,
}
use miniature.Loader.{
  PtFlags, Mapper, AddrSpace, page_size, copy_frame, zero_from, frame_alloc, raw_map_to,
  push_tracked_frame, copy_page_and_remap,
}

pub data ShType : Type 0 where
  load dynamic gnu_relro tls : ShType
  null : ShType

-- What the crate xmas_elf reads of a program header.
pub record ProgramHeader : Type 0 where
  pub ty : ShType
  pub offset : ℕ
  pub virtual_addr : ℕ
  pub file_size : ℕ
  pub mem_size : ℕ
  pub is_execute : Bool
  pub is_write : Bool

abbrev pub seg_flags : ProgramHeader → PtFlags
seg_flags ph = record {
  present = true;
  writable = ph.is_write;
  user_accessible = false;
  no_execute = not ph.is_execute;
  bit_9 = false;
  rest = 0;
}

module _ {S : Type 0} (m : Mapper S) where
  -- A new frame is filled, mapped and recorded.
  unfoldable pub map_new :
      AddrSpace S → ℕ → PtFlags → ((ℕ → ℕ → ℕ) → ℕ → ℕ → ℕ → ℕ) → Outcome (AddrSpace S)
  map_new st page flags fill = do
    let (f, st₁) = frame_alloc m st
    frame ← or_panic f
    st₂ ← raw_map_to m (record st₁ { memory = fill st₁.memory frame }) page frame flags
    done (push_tracked_frame m st₂ frame)

  -- The loop over the frames of the file, and the one over the pages after it, for `n` of them.
  unfoldable pub map_file_pages : AddrSpace S → ℕ → ℕ → PtFlags → ℕ → Outcome (AddrSpace S)
  map_file_pages st page original_frame flags zero = done st
  map_file_pages st page original_frame flags (suc n) =
      map_new st page flags (λ memory frame. copy_frame memory original_frame frame) >>= λ st'.
      map_file_pages st' (page + 1) (original_frame + 1) flags n

  unfoldable pub map_bss_pages : AddrSpace S → ℕ → PtFlags → ℕ → Outcome (AddrSpace S)
  map_bss_pages st page flags zero = done st
  map_bss_pages st page flags (suc n) =
      map_new st page flags (λ memory frame. zero_from memory frame 0) >>= λ st'.
      map_bss_pages st' (page + 1) flags n

  -- The page in which the file ends; `& 0xfff` is the remainder.
  unfoldable pub clear_file_end : AddrSpace S → ℕ → Outcome (AddrSpace S)
  clear_file_end st bss_start =
      let file_end_relative_addr = bss_start % page_size in
      if file_end_relative_addr == 0 then done st else (do
        before ← sub64 bss_start 1
        (f, st₁) ← copy_page_and_remap m st (m.containing_address before)
        new_frame ← or_panic f
        done (record st₁ { memory = zero_from st₁.memory new_frame file_end_relative_addr }))

  -- `align_up` is the x86_64 crate's.
  unfoldable pub clear_bss : (ℕ → ℕ) → AddrSpace S → ℕ → ℕ → PtFlags → Outcome (AddrSpace S)
  clear_bss align_up st bss_start bss_end flags = do
    st₁ ← clear_file_end st bss_start
    let bss_start_page = m.containing_address (align_up bss_start)
    last ← sub64 bss_end 1
    let bss_end_page = m.containing_address last
    map_bss_pages st₁ bss_start_page flags (bss_end_page + 1 - bss_start_page)

  -- The mappings of a segment, from the first and last byte of its file part and the ends in memory.
  unfoldable pub map_segment :
      (ℕ → ℕ) → AddrSpace S → ProgramHeader → ℕ → ℕ → ℕ → ℕ → Outcome (AddrSpace S)
  map_segment align_up st ph seg_bytes_start seg_bytes_last seg_file_end seg_mem_end = do
    let start_frame = m.containing_address seg_bytes_start
    let end_frame = m.containing_address seg_bytes_last
    let start_page = m.containing_address ph.virtual_addr
    st₁ ← map_file_pages st start_page start_frame (seg_flags ph) (end_frame + 1 - start_frame)
    if leb ph.mem_size ph.file_size
        then done st₁
        else clear_bss align_up st₁ seg_file_end seg_mem_end (seg_flags ph)

  -- A segment of the file that stands at an address of the physical memory.
  unfoldable pub load_segment : (ℕ → ℕ) → AddrSpace S → ℕ → ProgramHeader → Outcome (AddrSpace S)
  load_segment align_up st elf_bytes_phys_addr ph = do
    seg_bytes_start ← add64 elf_bytes_phys_addr ph.offset
    seg_mem_end ← add64 ph.virtual_addr ph.mem_size
    seg_file_end ← add64 ph.virtual_addr ph.file_size
    seg_bytes_end ← add64 seg_bytes_start ph.file_size
    seg_bytes_last ← sub64 seg_bytes_end 1
    map_segment align_up st ph seg_bytes_start seg_bytes_last seg_file_end seg_mem_end
