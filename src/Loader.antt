-- ===== src/Loader.antt =====
-- kernel/src/mem/load_elf.rs: the pages of a program are mapped, copied and written.
pub mod Remap
pub mod Bytes
pub mod Write
pub mod Segment
pub mod Flags
pub mod Program
pub mod Examples
use miniature.Base.{
  ℕ, zero, suc, ◌+◌, ◌-◌, ◌*◌, max, min, Bool, true, false, not, ◌&&◌, List, [], ◌∷◌, ◌++◌, Option,
  none, some, length, get_or, take, drop, ltb, leb, ◌==◌, if◌then◌else◌, Outcome, done, panic,
  ◌>>=◌, ◌>>◌, assert, or_panic, sub64, add64,
}

-- The flags of `PageTableFlags` that the code names; `rest` is the others.
pub record PtFlags : Type 0 where
  pub present : Bool
  pub writable : Bool
  pub user_accessible : Bool
  pub no_execute : Bool
  pub bit_9 : Bool
  pub rest : ℕ

-- `TranslateResult`: a frame of 4 KiB, a larger one, or none.
pub data TranslateResult : Type 0 where
  mapped : ℕ → PtFlags → TranslateResult
  mapped_large : PtFlags → TranslateResult
  not_mapped : TranslateResult

-- What the x86_64 crate and the frame allocator offer on a page table and the allocator's state `S`. A page or
-- frame is the number of its first byte divided by 4096.
pub record Mapper (S : Type 0) : Type 0 where
  pub containing_address : ℕ → ℕ
  pub forward_checked : ℕ → ℕ → Option ℕ
  pub translate : S → ℕ → TranslateResult
  pub map_to : S → ℕ → ℕ → PtFlags → Option S
  pub unmap : S → ℕ → Option S
  pub update_flags : S → ℕ → PtFlags → Option S
  pub frame_alloc : S → Option ℕ × S

-- `UserAddrSpace`, with the bytes of the frames, which are mapped one to one.
pub record AddrSpace (S : Type 0) : Type 0 where
  pub page_table : S
  pub memory : ℕ → ℕ → ℕ
  pub tracked_large_buffers : List ℕ

abbrev pub page_size : ℕ
page_size = 4096

-- `ptr::copy` of a whole frame, `ptr::write_bytes` to the end of one, and `copy_from_slice`.
abbrev pub copy_frame : (ℕ → ℕ → ℕ) → ℕ → ℕ → ℕ → ℕ → ℕ
copy_frame memory from to frame offset =
    if frame == to then memory from offset else memory frame offset

abbrev pub zero_from : (ℕ → ℕ → ℕ) → ℕ → ℕ → ℕ → ℕ → ℕ
zero_from memory to start frame offset =
    if frame == to && leb start offset then 0 else memory frame offset

abbrev pub copy_from_slice : (ℕ → ℕ → ℕ) → ℕ → ℕ → List ℕ → ℕ → ℕ → ℕ
copy_from_slice memory to start src frame offset =
    if frame == to && (leb start offset && ltb offset (start + length src))
    then get_or src (offset - start) 0
    else memory frame offset

-- The offset in the frame, the number of bytes and the offset in the buffer that a page takes.
unfoldable pub page_span : ℕ → ℕ → ℕ → Outcome (ℕ × ℕ × ℕ)
page_span addr end_inclusive page = do
  let page_start = page * page_size
  let start_copy = max addr page_start
  let end_inclusive_copy = min end_inclusive (page_start + 4095)
  start_offset ← sub64 start_copy page_start
  end_inclusive_offset ← sub64 end_inclusive_copy page_start
  copied ← sub64 end_inclusive_offset start_offset
  start_in_buf ← sub64 start_copy addr
  done (start_offset, copied + 1, start_in_buf)

-- The flags of any page that is mapped, masked; no page is a panic.
abbrev pub masked : (PtFlags → PtFlags) → TranslateResult → Outcome PtFlags
masked mask (mapped frame flags) = done (mask flags)
masked mask (mapped_large flags) = done (mask flags)
masked mask not_mapped = panic

module _ {S : Type 0} (m : Mapper S) where
  abbrev pub with_table : AddrSpace S → Option S → Outcome (AddrSpace S)
  with_table st t = or_panic t >>= λ t'. done (record st { page_table = t' })

  -- `raw_map_to`, `raw_unmap`, `raw_update_flags` and `push_tracked_frame` of user_addr_space.rs
  pub raw_map_to : AddrSpace S → ℕ → ℕ → PtFlags → Outcome (AddrSpace S)
  raw_map_to st page frame flags =
      with_table st (m.map_to st.page_table page frame (record flags { user_accessible = true }))

  pub raw_unmap : AddrSpace S → ℕ → Outcome (AddrSpace S)
  raw_unmap st page = with_table st (m.unmap st.page_table page)

  pub raw_update_flags : AddrSpace S → ℕ → PtFlags → Outcome (AddrSpace S)
  raw_update_flags st page flags = with_table st (m.update_flags st.page_table page flags)

  abbrev pub push_tracked_frame : AddrSpace S → ℕ → AddrSpace S
  push_tracked_frame st frame = record st {
    tracked_large_buffers = st.tracked_large_buffers ++ frame ∷ [];
  }

  abbrev pub frame_alloc : AddrSpace S → Option ℕ × AddrSpace S
  frame_alloc st = let (f, t) = m.frame_alloc st.page_table in (f, record st { page_table = t })

  -- From the copy of the frame on.
  pub remap_copied : AddrSpace S → ℕ → ℕ → PtFlags → ℕ → Outcome (Option ℕ × AddrSpace S)
  remap_copied st page curr_frame flags new_frame = do
    let tracked = push_tracked_frame st new_frame
    let copied = record tracked { memory = copy_frame st.memory curr_frame new_frame }
    unmapped ← raw_unmap copied page
    st' ← raw_map_to unmapped page new_frame (record flags { bit_9 = true })
    done (some new_frame, st')

  abbrev pub copy_to_new :
      AddrSpace S → ℕ → ℕ → PtFlags → Option ℕ × AddrSpace S → Outcome (Option ℕ × AddrSpace S)
  copy_to_new st page curr_frame flags (none, st') = done (none, st')
  copy_to_new st page curr_frame flags (some new_frame, st') =
      remap_copied st' page curr_frame flags new_frame

  abbrev pub copy_translated : AddrSpace S → ℕ → TranslateResult → Outcome (Option ℕ × AddrSpace S)
  copy_translated st page not_mapped = done (none, st)
  copy_translated st page (mapped_large flags) = done (none, st)
  copy_translated st page (mapped curr_frame flags) =
      if flags.bit_9
      then done (some curr_frame, st)
      else copy_to_new st page curr_frame flags (frame_alloc st)

  pub copy_page_and_remap : AddrSpace S → ℕ → Outcome (Option ℕ × AddrSpace S)
  copy_page_and_remap st page = copy_translated st page (m.translate st.page_table page)

  -- One page of the loop of `copy_pages_and_write`.
  pub write_page : AddrSpace S → ℕ → ℕ → List ℕ → ℕ → Outcome (AddrSpace S)
  write_page st addr end_inclusive buf page = do
    (frame, st₁) ← copy_page_and_remap st page
    phys_addr ← or_panic frame
    (start_offset, copy_len, start_in_buf) ← page_span addr end_inclusive page
    assert (leb (start_in_buf + copy_len) (length buf))
    let src = take copy_len (drop start_in_buf buf)
    done (record st₁ { memory = copy_from_slice st₁.memory phys_addr start_offset src })

  -- The loop, over `n` pages.
  pub write_pages : AddrSpace S → ℕ → ℕ → List ℕ → ℕ → ℕ → Outcome (AddrSpace S)
  write_pages st addr end_inclusive buf page zero = done st
  write_pages st addr end_inclusive buf page (suc n) =
      write_page st addr end_inclusive buf page >>= λ st'.
      write_pages st' addr end_inclusive buf (page + 1) n

  pub copy_pages_and_write : AddrSpace S → ℕ → List ℕ → Outcome (AddrSpace S)
  copy_pages_and_write st addr buf = do
    rest ← sub64 (length buf) 1
    end_inclusive ← or_panic (m.forward_checked addr rest)
    let start_page = m.containing_address addr
    let end_page = m.containing_address end_inclusive
    write_pages st addr end_inclusive buf start_page (end_page + 1 - start_page)

  -- Over `n` pages; `mask` is the conjunction with the flags that are passed.
  pub update_page_flag : AddrSpace S → ℕ → ℕ → (PtFlags → PtFlags) → Outcome (AddrSpace S)
  update_page_flag st page zero mask = done st
  update_page_flag st page (suc n) mask = do
    flags ← masked mask (m.translate st.page_table page)
    st' ← raw_update_flags st page flags
    update_page_flag st' (page + 1) n mask
