-- ===== src/Frames.antt =====
-- kernel/src/mem/frame_allocator.rs: the allocator of physical frames, which walks upwards through
-- physical memory and steps over the unavailable regions that the bootloader reports.
pub mod Merge
pub mod Walk
pub mod Blocks
pub mod Grants
pub mod Total
mod Examples
use miniature.Base.{
  ℕ, zero, suc, ◌+◌, ◌-◌, ◌*◌, Bool, true, false, ◌&&◌, List, [], ◌∷◌, Option, none, some, length,
  get_elem?, drop, ltb, leb, if◌then◌else◌, Outcome, done, panic, spins, ◌>>=◌, ◌>>◌, assert, add64,
  mul64,
}
use mathlib.Core.List.{reverse}

-- `MemoryRegionKind` and `MemoryRegion` of shared/src/arg.rs.
pub data MemoryRegionKind : Type 0 where
  usable bootloader : MemoryRegionKind
  unknown_uefi unknown_bios : ℕ → MemoryRegionKind

pub record MemoryRegion : Type 0 where
  pub start : ℕ
  pub length : ℕ
  pub kind : MemoryRegionKind

-- `Range<u64>`: the end is exclusive.
pub record Range : Type 0 where
  pub start : ℕ
  pub end : ℕ

abbrev pub contains : Range → ℕ → Bool
contains r x = leb r.start x && ltb x r.end

abbrev pub max_range_count : ℕ
max_range_count = 512

-- `range_size` is the length of `ranges`; the entries of the array above it are not initialised.
pub record LinkedRangeIterator : Type 0 where
  pub ranges : List Range
  pub window : ℕ
  pub current_range_index : ℕ
  pub current_value : ℕ

-- One round of the merging loop, on the stack with its top first.
unfoldable pub merge_region : List Range → MemoryRegion → Outcome (List Range)
merge_region [] r = panic
merge_region (peek ∷ below) r = do
  r_end_ex ← add64 r.start r.length
  if ltb peek.end r.start
      then (do
        assert (ltb (length (peek ∷ below)) max_range_count)
        done (record { start = r.start; end = r_end_ex } ∷ peek ∷ below))
      else if ltb peek.end r_end_ex
      then done (record { start = peek.start; end = r_end_ex } ∷ below)
      else done (peek ∷ below)

unfoldable pub merge_regions : List Range → List MemoryRegion → Outcome (List Range)
merge_regions stack [] = done stack
merge_regions stack (r ∷ rs) = merge_region stack r >>= λ stack'. merge_regions stack' rs

-- The loop that copies the ranges, and notes the index after the last one that ends by `start`.
unfoldable pub initial_index : ℕ → ℕ → ℕ → List Range → ℕ
initial_index start curr_idx found [] = found
initial_index start curr_idx found (r ∷ rs) =
    initial_index start (curr_idx + 1) (if leb r.end start then curr_idx + 1 else found) rs

-- The first region is `regions[0]`, an index out of bounds if there is none.
unfoldable pub merged : List MemoryRegion → Outcome (List Range)
merged [] = panic
merged (r ∷ rs) = do
  r_end ← add64 r.start r.length
  stack ← merge_regions (record { start = r.start; end = r_end } ∷ []) rs
  done (reverse stack)

unfoldable pub from_memory_regions : ℕ → ℕ → List MemoryRegion → Outcome LinkedRangeIterator
from_memory_regions start window regions = do
  ranges ← merged regions
  done (record {
    ranges = ranges;
    window = window;
    current_range_index = initial_index start 0 0 ranges;
    current_value = start;
  })

-- `while current_range.contains(&curr) { curr += required_size; }`
unfoldable pub leave_range : ℕ → Range → ℕ → ℕ → Outcome ℕ
leave_range zero r required_size curr = spins
leave_range (suc fuel) r required_size curr = elim (contains r curr) [
  | true ↦ add64 curr required_size >>= λ curr'. leave_range fuel r required_size curr'
  | false ↦ done curr
]

-- Every round moves `curr` up, unless `required_size` is 0.
abbrev pub leave_fuel : Range → ℕ → ℕ
leave_fuel r curr = suc (r.end - curr)

-- The head of the ranges from an index on. At `range_size` the source reads an entry that is not
-- initialised, `uninit`; it panics where the index is out of the array.
abbrev pub head_or : Range → List Range → Range
head_or uninit [] = uninit
head_or uninit (r ∷ rs) = r

-- `while overlapped && self.current_range_index < self.range_size`, entered with `overlapped`; the
-- list is the ranges from `idx` on.
unfoldable pub pass_ranges : Range → ℕ → List Range → ℕ → ℕ → Outcome (ℕ × ℕ)
pass_ranges uninit required_size [] idx curr = done (idx, curr)
pass_ranges uninit required_size (r ∷ rest) idx curr =
    let next = pass_ranges uninit required_size rest in
    leave_range (leave_fuel r curr) r required_size curr >>= λ curr'.
    assert (ltb (idx + 1) max_range_count) >> elim (contains (head_or uninit rest) curr') [
      | true ↦ next (idx + 1) curr'
      | false ↦ done (idx + 1, curr')
    ]

-- `next_n`; the recursive call has moved `current_range_index` up.
unfoldable pub next_n_fuel : Range → ℕ → ℕ → LinkedRangeIterator → Outcome (ℕ × LinkedRangeIterator)
next_n_fuel uninit zero required_size it = spins
next_n_fuel uninit (suc fuel) required_size it = elim (drop it.current_range_index it.ranges) [
  | [] ↦ take_here
  | r ∷ rest ↦ add64 it.current_value required_size >>= λ curr. elim (leb curr r.start) [
    | true ↦ done (it.current_value, record it { current_value = curr })
    | false ↦
        pass_ranges uninit required_size (r ∷ rest) it.current_range_index curr >>= λ (idx, curr').
        next_n_fuel uninit fuel required_size
          (record it { current_range_index = idx; current_value = curr' })
  ]
]
  where
    take_here : Outcome (ℕ × LinkedRangeIterator)
    take_here = add64 it.current_value required_size >>= λ curr.
        done (it.current_value, record it { current_value = curr })

unfoldable pub next_n : Range → LinkedRangeIterator → ℕ → Outcome (ℕ × LinkedRangeIterator)
next_n uninit it count = mul64 it.window count >>= λ required_size.
    next_n_fuel uninit (suc (length it.ranges)) required_size it

pub record LinearIncFrameAllocator : Type 0 where
  pub range_iterator : LinkedRangeIterator
  pub base_address : ℕ
  pub phys_mem_right_boundary : ℕ
  pub window : ℕ

unfoldable pub new : ℕ → ℕ → ℕ → List MemoryRegion → Outcome LinearIncFrameAllocator
new phys_start_addr window phys_mem_size unav_regions = do
  iter ← from_memory_regions 0x100000 window unav_regions
  right ← add64 phys_start_addr phys_mem_size
  done (record {
    range_iterator = iter;
    base_address = phys_start_addr;
    phys_mem_right_boundary = right;
    window = window;
  })

-- `PhysFrame::containing_address(PhysAddr::new(·))` is code of the x86_64 crate.
module _ (containing_address : ℕ → Outcome ℕ) (uninit : Range) where
  -- `none` is the logged out-of-memory error; the iterator has moved on.
  unfoldable pub allocate_frames :
      LinearIncFrameAllocator → ℕ → Outcome (Option ℕ × LinearIncFrameAllocator)
  allocate_frames a count = do
    (phys_addr, it) ← next_n uninit a.range_iterator count
    size ← mul64 a.window count
    end ← add64 phys_addr size
    let a' = record a { range_iterator = it }
    if ltb a.phys_mem_right_boundary end then done (none, a') else (do
      addr ← add64 a.base_address phys_addr
      frame ← containing_address addr
      done (some frame, a'))

  -- `FrameAllocator::allocate_frame`
  pub allocate_frame : LinearIncFrameAllocator → Outcome (Option ℕ × LinearIncFrameAllocator)
  allocate_frame a = allocate_frames a 1
