-- ===== src/UserSpace/Alloc.antt =====
-- `UserAddrSpace::alloc` of kernel/src/mem/user_addr_space.rs: where a user's buffers are placed.
pub mod Overlap
pub mod Unused
mod Examples
use miniature.Base.{
  ℕ, zero, suc, ◌+◌, ◌-◌, ◌*◌, ◌/◌, Bool, true, false, List, [], ◌∷◌, ◌++◌, Option, none, some, ltb,
  leb, if◌then◌else◌, Outcome, done, spins, ◌>>=◌, ◌>>◌, or_panic, add64, mul64,
}
use miniature.UserSpace.{page_size, UserBuffer}

-- What the kernel's frame allocator and the page table of the x86_64 crate do to the rest of the
-- machine, `W`: `frame_alloc`, `VirtAddr::new`, whether `translate_addr` finds an address, and
-- `map_to` with the flags of a user's page, whose `none` is an error. The frames of lower tables
-- that `map_to` takes (`pte_frames`) belong to `W`.
pub record Machine (W : Type 0) : Type 0 where
  pub frame_alloc : W → Option ℕ × W
  pub virt_addr : ℕ → Outcome ℕ
  pub is_mapped : W → ℕ → Bool
  pub map_to : ℕ → ℕ → W → Option W

pub record TrackedPhysFrame : Type 0 where
  pub frame : ℕ
  pub index : ℕ

pub record UserAddrSpace (W : Type 0) : Type 0 where
  pub machine : W
  pub tracked_large_buffers : List ℕ
  pub tracked_medium_buffers : List TrackedPhysFrame
  pub medium_buffer_pointer : ℕ
  pub tracked_small_buffers : List TrackedPhysFrame
  pub small_buffer_pointer : ℕ
  pub consumed_page_count : ℕ
  pub base_address : ℕ

-- `slice::last`
unfoldable pub last : List TrackedPhysFrame → Option TrackedPhysFrame
last [] = none
last (t ∷ []) = some t
last (t ∷ u ∷ ts) = last (u ∷ ts)

module _ {W : Type 0} (m : Machine W) where
  -- `VirtAddr::new(self.base_address + index * PAGE_SIZE)`
  abbrev pub page_addr : UserAddrSpace W → ℕ → Outcome ℕ
  page_addr s index =
      mul64 index page_size >>= λ offset. add64 s.base_address offset >>= m.virt_addr

  -- `loop`, on fuel: it ends at the first page that is not mapped.
  pub next_page_unused : ℕ → UserAddrSpace W → Outcome (ℕ × UserAddrSpace W)
  next_page_unused zero s = spins
  next_page_unused (suc fuel) s = page_addr s s.consumed_page_count >>= λ virt_addr.
      elim (m.is_mapped s.machine virt_addr) [
        | false ↦ done (s.consumed_page_count, s)
        | true ↦ add64 s.consumed_page_count 1 >>= λ count.
            next_page_unused fuel (record s { consumed_page_count = count })
      ]

  abbrev pub take_frame : UserAddrSpace W → Outcome (ℕ × UserAddrSpace W)
  take_frame s =
      let (frame, w) = m.frame_alloc s.machine in
      or_panic frame >>= λ f. done (f, record s { machine = w })

  abbrev pub map_page : ℕ → ℕ → UserAddrSpace W → Outcome (UserAddrSpace W)
  map_page page frame s =
      or_panic (m.map_to page frame s.machine) >>= λ w. done (record s { machine = w })

  -- The new page of the branches for small and medium buffers, with its address.
  pub new_page : ℕ → UserAddrSpace W → Outcome (ℕ × TrackedPhysFrame × UserAddrSpace W)
  new_page fuel s = do
    (frame, s₁) ← take_frame s
    (index, s₂) ← next_page_unused fuel s₁
    virt_addr ← page_addr s₂ index
    s₃ ← map_page virt_addr frame s₂
    count ← add64 s₃.consumed_page_count 1
    done (
      virt_addr,
      record { frame = frame; index = index },
      record s₃ { consumed_page_count = count },
    )

  -- `for page in Page::range(start_page, start_page + required_pages)`
  pub map_range : ℕ → ℕ → UserAddrSpace W → Outcome (UserAddrSpace W)
  map_range page zero s = done s
  map_range page (suc n) s = do
    (frame, s₁) ← take_frame s
    s₂ ← map_page page frame s₁
    map_range (page + page_size) n
        (record s₂ { tracked_large_buffers = s₂.tracked_large_buffers ++ frame ∷ [] })

  pub alloc_small : ℕ → UserAddrSpace W → ℕ → Outcome (UserBuffer × UserAddrSpace W)
  alloc_small fuel s size = add64 size s.small_buffer_pointer >>= λ end.
      if ltb page_size end
      then (new_page fuel s >>= λ (virt_addr, frame, s'). done (
        record { base = virt_addr; len = size },
        record s' {
          tracked_small_buffers = s'.tracked_small_buffers ++ frame ∷ [];
          small_buffer_pointer = size;
        },
      ))
      else (or_panic (last s.tracked_small_buffers) >>= λ t. page_addr s t.index >>= λ virt_addr.
          done (record { base = virt_addr; len = size }, record s { small_buffer_pointer = end }))

  pub alloc_medium : ℕ → UserAddrSpace W → ℕ → Outcome (UserBuffer × UserAddrSpace W)
  alloc_medium fuel s size = add64 size s.medium_buffer_pointer >>= λ end.
      if ltb page_size end
      then (new_page fuel s >>= λ (virt_addr, frame, s'). done (
        record { base = virt_addr; len = size },
        record s' {
          tracked_medium_buffers = s'.tracked_medium_buffers ++ frame ∷ [];
          medium_buffer_pointer = size;
        },
      ))
      else (or_panic (last s.tracked_medium_buffers) >>= λ t. page_addr s t.index >>= λ virt_addr.
          done (record { base = virt_addr; len = size }, record s { medium_buffer_pointer = end }))

  pub alloc_large : ℕ → UserAddrSpace W → ℕ → Outcome (UserBuffer × UserAddrSpace W)
  alloc_large fuel s size = do
    let required_pages = (size + (page_size - 1)) / page_size
    (index, s₁) ← next_page_unused fuel s
    virt_addr ← page_addr s₁ index
    end ← add64 virt_addr (required_pages * page_size)
    checked ← m.virt_addr end
    s₂ ← map_range virt_addr required_pages s₁
    count ← add64 s₂.consumed_page_count required_pages
    done (record { base = virt_addr; len = size }, record s₂ { consumed_page_count = count })

  unfoldable pub alloc : ℕ → UserAddrSpace W → ℕ → Outcome (UserBuffer × UserAddrSpace W)
  alloc fuel s size =
      if leb size 64
      then alloc_small fuel s size
      else if leb size 512
      then alloc_medium fuel s size
      else alloc_large fuel s size
