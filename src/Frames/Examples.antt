-- ===== src/Frames/Examples.antt =====
-- Runs of the frame allocator, and its theorems at concrete regions.
use miniature.Base.{ℕ, ◌*◌, ◌/◌, ◌≡◌, refl, List, [], ◌∷◌, some, Outcome, done, arith, length}
use miniature.Frames.{
  MemoryRegion, bootloader, Range, LinkedRangeIterator, LinearIncFrameAllocator, merged,
  merge_regions, merge_region, from_memory_regions, initial_index, leave_range, pass_ranges,
  next_n_fuel, next_n, new, allocate_frames,
}
use miniature.Frames.Blocks.{IsValid}
use miniature.Frames.Grants.{
  page_size, grant_all, InMemory, new-grant_all-InMemory, IsReady, SameBounds, Answers,
  allocate_frames-Answers, new-IsReady,
}
use miniature.Frames.Total.{next_n_total}

abbrev region : ℕ → ℕ → MemoryRegion
region start length = record { start = start; length = length; kind = bootloader }

-- The real-mode memory, and two regions that touch.
abbrev regions : List MemoryRegion
regions = region 0 0x100000 ∷ region 0x102000 0x1800 ∷ region 0x103800 0x1000 ∷ []

abbrev nothing : Range
nothing = record { start = 0; end = 0 }

-- What the crate does with an address below its limit.
abbrev align_down : ℕ → Outcome ℕ
align_down a = done (a / 4096 * 4096)

aligns : (k f : ℕ) → align_down (page_size * k) ≡ done f → f ≡ page_size * k
aligns k f e = ground arith

abbrev ranges : List Range
ranges = record { start = 0; end = 0x100000 } ∷ record { start = 0x102000; end = 0x104800 } ∷ []

abbrev iterator : LinkedRangeIterator
iterator = record {
  ranges = ranges;
  window = 4096;
  current_range_index = 1;
  current_value = 0x100000;
}

abbrev allocator : LinearIncFrameAllocator
allocator = record {
  range_iterator = iterator;
  base_address = 0;
  phys_mem_right_boundary = 0x200000;
  window = 4096;
}

regions_merged : merged regions ≡ done ranges
unfolding merged merge_regions merge_region
regions_merged = refl

new_runs : new (page_size * 0) page_size 0x200000 regions ≡ done allocator
unfolding new from_memory_regions merged merge_regions merge_region initial_index
new_runs = refl

-- One page, then two that do not fit below the second range, then one.
grants_run :
    grant_all align_down nothing allocator (1 ∷ 2 ∷ 1 ∷ [])
    ≡ done ((0x100000, 1) ∷ (0x105000, 2) ∷ (0x107000, 1) ∷ [])
unfolding grant_all allocate_frames next_n next_n_fuel pass_ranges leave_range
grants_run = refl

new-grant_all-InMemory_example :
    InMemory regions 0x200000 0x100000 ((0x100000, 1) ∷ (0x105000, 2) ∷ (0x107000, 1) ∷ [])
new-grant_all-InMemory_example =
    new-grant_all-InMemory align_down aligns nothing regions 0x200000 (1 ∷ 2 ∷ 1 ∷ []) (omega arith)
      new_runs grants_run

-- A mapping at 0x1000 of 0x100000 bytes: the frame that is granted is past the memory.
past_run :
    (a : LinearIncFrameAllocator) × (new 0x1000 page_size 0x100000 regions ≡ done a)
    × (a' : LinearIncFrameAllocator) × (allocate_frames align_down nothing a 1
        ≡ done (some 0x101000, a'))
unfolding new from_memory_regions merged merge_regions merge_region initial_index allocate_frames
    next_n next_n_fuel
past_run = (_, refl, _, refl)

iterator-IsValid : IsValid iterator
iterator-IsValid = record { chain = omega arith; behind = (omega arith, tt) }

next_n_runs :
    next_n nothing iterator 1 ≡ done (0x100000, record iterator { current_value = 0x101000 })
unfolding next_n next_n_fuel
next_n_runs = refl

next_n_total_example : (out : ℕ × LinkedRangeIterator) × (next_n nothing iterator 3 ≡ done out)
next_n_total_example =
    next_n_total nothing iterator 3 0x104800 (omega arith) (omega arith) (omega arith) (omega arith)
      (omega arith)

allocator-IsReady : IsReady regions allocator
allocator-IsReady = (new-IsReady 0 0x200000 regions (omega arith) new_runs).0

allocate_runs :
    allocate_frames align_down nothing allocator 1
    ≡ done (
      some 0x100000,
      record allocator { range_iterator = record iterator { current_value = 0x101000 } },
    )
unfolding allocate_frames next_n next_n_fuel
allocate_runs = refl

allocate_frames-Answers_example :
    let a : LinearIncFrameAllocator = record allocator {
      range_iterator = record iterator { current_value = 0x101000 };
    } in
    IsReady regions a × SameBounds allocator a × Answers regions allocator 1 (some 0x100000) a
allocate_frames-Answers_example =
    allocate_frames-Answers align_down aligns nothing regions allocator 1 0 allocator-IsReady refl
      allocate_runs
