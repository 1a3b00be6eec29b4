-- ===== src/BootFrames.antt =====
-- bootloader-efi/src/mem/frame_allocator.rs: the allocator of physical frames that the bootloader
-- runs on the firmware's memory map, before the kernel has its own.
pub mod Tries
pub mod Grants
pub mod Region
mod Examples
use miniature.Base.{
  ℕ, ◌+◌, Bool, true, false, List, [], ◌∷◌, Option, none, some, max, ltb, leb, if◌then◌else◌,
  Outcome, done, panic, ◌>>=◌, add64, sub64,
}
use miniature.Frames.{
  MemoryRegion, MemoryRegionKind, bootloader, usable, unknown_uefi, unknown_bios,
}

-- What `RTMemoryRegionDescriptor` tells of an entry of the memory map.
pub record Descriptor : Type 0 where
  pub start : ℕ
  pub len : ℕ
  pub kind : MemoryRegionKind

abbrev pub is_usable : MemoryRegionKind → Bool
is_usable usable = true
is_usable bootloader = false
is_usable (unknown_uefi tag) = false
is_usable (unknown_bios tag) = false

abbrev pub page_size : ℕ
page_size = 4096

-- A frame is its start address. `memory_map` is what the iterator has left.
pub record LinearIncFrameAllocator : Type 0 where
  pub original : List Descriptor
  pub memory_map : List Descriptor
  pub start_phys_addr : ℕ
  pub current_descriptor : Option Descriptor
  pub next_frame : ℕ

abbrev pub new_starting_at : ℕ → List Descriptor → LinearIncFrameAllocator
new_starting_at frame memory_map = record {
  original = memory_map;
  memory_map = memory_map;
  start_phys_addr = frame;
  current_descriptor = none;
  next_frame = frame;
}

-- `PhysAddr::new(start + len)` of the memory map, the largest of them; `unwrap` panics without one.
pub max_phys_addr : (ℕ → Outcome ℕ) → List Descriptor → Outcome ℕ
max_phys_addr address [] = panic
max_phys_addr address (d ∷ []) = add64 d.start d.len >>= address
max_phys_addr address (d ∷ e ∷ ds) = do
  sum ← add64 d.start d.len
  end ← address sum
  rest ← max_phys_addr address (e ∷ ds)
  done (max end rest)

unfoldable pub allocated_region : LinearIncFrameAllocator → Outcome MemoryRegion
allocated_region a = do
  length ← sub64 a.next_frame a.start_phys_addr
  done (record { start = a.start_phys_addr; length = length; kind = bootloader })

-- `PhysAddr::new` and `PhysFrame::containing_address` are code of the x86_64 crate.
module _ (address : ℕ → Outcome ℕ) (containing_address : ℕ → Outcome ℕ) where
  unfoldable pub new : List Descriptor → Outcome LinearIncFrameAllocator
  new memory_map = do
    start ← address 0x100000
    start_frame ← containing_address start
    done (new_starting_at start_frame memory_map)

  -- `next_frame += 1`
  abbrev pub following : ℕ → Outcome ℕ
  following frame = do sum ← add64 frame page_size; start ← address sum; containing_address start

  unfoldable pub allocate_frame_from_descriptor :
      LinearIncFrameAllocator → Descriptor → Outcome (Option ℕ × LinearIncFrameAllocator)
  allocate_frame_from_descriptor a d = do
    start_frame ← containing_address d.start
    sum ← add64 d.start d.len
    end_addr ← address sum
    before ← sub64 end_addr 1
    last_addr ← address before
    end_frame ← containing_address last_addr
    let next_frame = if ltb a.next_frame start_frame then start_frame else a.next_frame
    if leb next_frame end_frame
        then (do
          following_frame ← following next_frame
          done (some next_frame, record a { next_frame = following_frame }))
        else done (none, record a { next_frame = next_frame })

  -- `while let Some(descriptor) = self.memory_map.next()`
  unfoldable pub next_descriptor :
      LinearIncFrameAllocator → List Descriptor → Outcome (Option ℕ × LinearIncFrameAllocator)
  next_descriptor a [] = done (none, record a { memory_map = [] })
  next_descriptor a (d ∷ ds) = elim (is_usable d.kind) [
    | false ↦ next_descriptor a ds
    | true ↦ allocate_frame_from_descriptor a d >>= λ (r, a'). elim r [
      | some frame ↦ done (some frame, record a' { memory_map = ds; current_descriptor = some d })
      | none ↦ next_descriptor a' ds
    ]
  ]

  unfoldable pub allocate_frame :
      LinearIncFrameAllocator → Outcome (Option ℕ × LinearIncFrameAllocator)
  allocate_frame a = elim a.current_descriptor [
    | none ↦ next_descriptor a a.memory_map
    | some d ↦ allocate_frame_from_descriptor a d >>= λ (r, a'). elim r [
      | some frame ↦ done (some frame, a')
      | none ↦ next_descriptor (record a' { current_descriptor = none }) a'.memory_map
    ]
  ]
