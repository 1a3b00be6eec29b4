-- ===== src/KernelLoader.antt =====
-- bootloader-efi/src/kernel.rs: the kernel's file is mapped where it stands, copied page by page when it is written.
pub mod Program
pub mod Files
pub mod Pages
pub mod Write
pub mod Segments
use miniature.Base.{
  ℕ, zero, suc, ◌+◌, ◌-◌, ◌*◌, ◌%◌, Bool, true, false, List, Option, none, some, length, take, drop,
  leb, ltb, ◌==◌, if◌then◌else◌, Outcome, done, panic, ◌>>=◌, ◌>>◌, assert, or_panic, sub64,
}
use miniature.Paging.Tracked.{PageTableLevel, TrackedMapper}
use miniature.Loader.{
  PtFlags, TranslateResult, mapped, mapped_large, not_mapped, Mapper, AddrSpace, page_size,
  copy_frame, zero_from, copy_from_slice, page_span, masked,
}
use miniature.Loader.Segment.{ProgramHeader, seg_flags}

-- The kernel's table with the entries of its top level, and the bytes of the frames.
pub record Image (S : Type 0) : Type 0 where
  pub tracked : TrackedMapper
  pub page_table : S
  pub memory : ℕ → ℕ → ℕ

-- The arithmetic of the x86_64 crate on virtual and physical addresses, where `none` is its panic; the
-- index of an address in a table of a level, and the first address of an entry of the top table.
pub record Addresses : Type 0 where
  pub virt_add : ℕ → ℕ → Option ℕ
  pub virt_sub : ℕ → ℕ → Option ℕ
  pub phys_add : ℕ → ℕ → Option ℕ
  pub phys_sub : ℕ → ℕ → Option ℕ
  pub pt_index : PageTableLevel → ℕ → ℕ
  pub p4_start : ℕ → ℕ
  pub align_up : ℕ → ℕ

module _ {S : Type 0} (m : Mapper S) where
  abbrev pub with_page_table : Image S → Option S → Outcome (Image S)
  with_page_table im t = or_panic t >>= λ t'. done (record im { page_table = t' })

  -- From the copy of the frame on.
  pub remap_to_copy : Image S → ℕ → ℕ → PtFlags → ℕ → Outcome (Option ℕ × Image S)
  remap_to_copy im page curr_frame flags new_frame = do
    let copied = record im { memory = copy_frame im.memory curr_frame new_frame }
    unmapped ← with_page_table copied (m.unmap copied.page_table page)
    im' ←
        with_page_table unmapped
          (m.map_to unmapped.page_table page new_frame (record flags { bit_9 = true }))
    done (some new_frame, im')

  abbrev pub allocate_copy : Image S → ℕ → ℕ → PtFlags → Option ℕ × S → Outcome (Option ℕ × Image S)
  allocate_copy im page curr_frame flags (none, t) = done (none, record im { page_table = t })
  allocate_copy im page curr_frame flags (some new_frame, t) =
      remap_to_copy (record im { page_table = t }) page curr_frame flags new_frame

  abbrev pub copy_mapped : Image S → ℕ → TranslateResult → Outcome (Option ℕ × Image S)
  copy_mapped im page not_mapped = done (none, im)
  copy_mapped im page (mapped_large flags) = done (none, im)
  copy_mapped im page (mapped curr_frame flags) =
      if flags.bit_9
      then done (some curr_frame, im)
      else allocate_copy im page curr_frame flags (m.frame_alloc im.page_table)

  unfoldable pub copy_page_and_remap : Image S → ℕ → Outcome (Option ℕ × Image S)
  copy_page_and_remap im page = copy_mapped im page (m.translate im.page_table page)

  -- One page of the loop of `copy_pages_and_write`, and the loop over `n` pages.
  unfoldable pub write_page : Image S → ℕ → ℕ → List ℕ → ℕ → Outcome (Image S)
  write_page im addr end_inclusive buf page = do
    (frame, im₁) ← copy_page_and_remap im page
    phys_addr ← or_panic frame
    (start_offset, copy_len, start_in_buf) ← page_span addr end_inclusive page
    assert (leb (start_in_buf + copy_len) (length buf))
    let src = take copy_len (drop start_in_buf buf)
    done (record im₁ { memory = copy_from_slice im₁.memory phys_addr start_offset src })

  unfoldable pub write_pages : Image S → ℕ → ℕ → List ℕ → ℕ → ℕ → Outcome (Image S)
  write_pages im addr end_inclusive buf page zero = done im
  write_pages im addr end_inclusive buf page (suc n) =
      write_page im addr end_inclusive buf page >>= λ im'.
      write_pages im' addr end_inclusive buf (page + 1) n

  unfoldable pub copy_pages_and_write : Image S → ℕ → List ℕ → Outcome (Image S)
  copy_pages_and_write im addr buf = do
    rest ← sub64 (length buf) 1
    end_inclusive ← or_panic (m.forward_checked addr rest)
    let start_page = m.containing_address addr
    let end_page = m.containing_address end_inclusive
    write_pages im addr end_inclusive buf start_page (end_page + 1 - start_page)

  -- Over `n` pages; `mask` is the conjunction with the flags that are passed.
  unfoldable pub update_page_flag : Image S → ℕ → ℕ → (PtFlags → PtFlags) → Outcome (Image S)
  update_page_flag im page zero mask = done im
  update_page_flag im page (suc n) mask = do
    flags ← masked mask (m.translate im.page_table page)
    im' ← with_page_table im (m.update_flags im.page_table page flags)
    update_page_flag im' (page + 1) n mask

  -- The loop over the frames of the file, which are mapped themselves.
  pub map_file_frames : Image S → ℕ → ℕ → PtFlags → ℕ → Outcome (Image S)
  map_file_frames im page phys_frame flags zero = done im
  map_file_frames im page phys_frame flags (suc n) =
      with_page_table im (m.map_to im.page_table page phys_frame flags) >>= λ im'.
      map_file_frames im' (page + 1) (phys_frame + 1) flags n

  -- A new frame of zeros, and the loop over the pages after the file.
  pub map_zeroed : Image S → ℕ → PtFlags → Outcome (Image S)
  map_zeroed im page flags = do
    let (f, t) = m.frame_alloc im.page_table
    frame ← or_panic f
    let cleared = record im { page_table = t; memory = zero_from im.memory frame 0 }
    with_page_table cleared (m.map_to cleared.page_table page frame flags)

  unfoldable pub map_bss_pages : Image S → ℕ → PtFlags → ℕ → Outcome (Image S)
  map_bss_pages im page flags zero = done im
  map_bss_pages im page flags (suc n) =
      map_zeroed im page flags >>= λ im'. map_bss_pages im' (page + 1) flags n

-- Where a segment stands, in the file and in the kernel's addresses.
pub record Placed : Type 0 where
  pub bytes_start : ℕ
  pub bytes_last : ℕ
  pub seg_start : ℕ
  pub file_end : ℕ
  pub mem_end : ℕ
  pub mem_last : ℕ

module _ (x : Addresses) where
  -- From the first address of the kernel, as it is and in the file: where the kernel has an address of the file.
  pub shifted : ℕ → ℕ → ℕ → Outcome ℕ
  shifted start defined_start addr =
      sub64 addr defined_start >>= λ shift. or_panic (x.virt_add start shift)

  -- A segment of the file at an address of the physical memory.
  pub place_segment : ℕ → ℕ → ℕ → ProgramHeader → Outcome Placed
  place_segment kernel_bytes start defined_start ph = do
    bytes_start ← or_panic (x.phys_add kernel_bytes ph.offset)
    seg_start ← shifted start defined_start ph.virtual_addr
    mem_end ← or_panic (x.virt_add seg_start ph.mem_size)
    file_end ← or_panic (x.virt_add seg_start ph.file_size)
    bytes_end ← or_panic (x.phys_add bytes_start ph.file_size)
    bytes_last ← or_panic (x.phys_sub bytes_end 1)
    mem_last ← or_panic (x.virt_sub mem_end 1)
    done (record {
      bytes_start = bytes_start;
      bytes_last = bytes_last;
      seg_start = seg_start;
      file_end = file_end;
      mem_end = mem_end;
      mem_last = mem_last;
    })

module _ {S : Type 0} (m : Mapper S) (x : Addresses) where
  unfoldable pub clear_file_end : Image S → ℕ → Outcome (Image S)
  clear_file_end im bss_start =
      let file_end_relative_addr = bss_start % page_size in
      if file_end_relative_addr == 0 then done im else (do
        before ← or_panic (x.virt_sub bss_start 1)
        (f, im₁) ← copy_page_and_remap m im (m.containing_address before)
        new_frame ← or_panic f
        done (record im₁ { memory = zero_from im₁.memory new_frame file_end_relative_addr }))

  unfoldable pub clear_bss : Image S → ℕ → ℕ → PtFlags → Outcome (Image S)
  clear_bss im bss_start bss_end flags = do
    im₁ ← clear_file_end im bss_start
    let bss_start_page = m.containing_address (x.align_up bss_start)
    last ← or_panic (x.virt_sub bss_end 1)
    map_bss_pages m im₁ bss_start_page flags (m.containing_address last + 1 - bss_start_page)

  pub load_placed : Image S → ProgramHeader → Placed → Outcome (Image S)
  load_placed im ph at = do
    let start_frame = m.containing_address at.bytes_start
    let end_frame = m.containing_address at.bytes_last
    let start_page = m.containing_address at.seg_start
    im₁ ← map_file_frames m im start_page start_frame (seg_flags ph) (end_frame + 1 - start_frame)
    if leb ph.mem_size ph.file_size
        then done im₁
        else clear_bss im₁ at.file_end at.mem_end (seg_flags ph)

  -- `update_page_flag` on the pages from the one of `first` to the one of `last`.
  pub mask_range : Image S → ℕ → ℕ → (PtFlags → PtFlags) → Outcome (Image S)
  mask_range im first last mask =
      let start_page = m.containing_address first in
      update_page_flag m im start_page (m.containing_address last + 1 - start_page) mask
