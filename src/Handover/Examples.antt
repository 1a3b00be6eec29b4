-- ===== src/Handover/Examples.antt =====
-- A small machine: the boot allocator hands out two frames, the kernel's grants two blocks.
use mathlib.Core.List.{Perm}
use mathlib.Core.List.Perm as Perm
use miniature.Base.{
  ℕ, ◌*◌, ◌/◌, ◌≤◌, ◌≡◌, refl, false, inl, inr, Bool-cases, List, [], ◌∷◌, none, some, Outcome,
  done, done-injective, All, leb, arith, if◌then◌else◌,
}
use miniature.Frames.{Range, MemoryRegion, bootloader, usable}
use miniature.Frames as Frames
use miniature.Frames.Merge.{SortedFrom, IsSorted, unavailable}
use miniature.Frames.Grants.{page_size, grant_all}
use miniature.BootFrames.{Descriptor, LinearIncFrameAllocator, allocated_region}
use miniature.BootFrames as BootFrames
use miniature.BootFrames.Grants.{Known}
use miniature.BootFrames.Region.{hand_out}
use miniature.Contexts.Context.{Slice}
use miniature.IoApic.{MadtIoApic}
use miniature.Handover.{
  MemoryDescriptor, conventional, boot_services_data, runtime_services_data, write, write_entries,
  write_io_apics, construct_unsafe_phys_mem_region_map, add_kernel_arg,
  usable_after_bootloader_exit,
}
use miniature.Handover.Regions.{
  Sorts, is_reserved, construct_unsafe_phys_mem_region_map-is_reserved,
}
use miniature.Handover.Handed.{Avoids, add_kernel_arg-Avoids}

-- An insertion sort in place of the core library's.
abbrev insert : MemoryRegion → List MemoryRegion → List MemoryRegion
insert r [] = r ∷ []
insert r (s ∷ rest) =
    let later = insert r rest in if leb r.start s.start then r ∷ s ∷ rest else s ∷ later

abbrev sort : List MemoryRegion → List MemoryRegion
sort [] = []
sort (r ∷ rest) = insert r (sort rest)

insert-IsSorted :
    (lo : ℕ) (r : MemoryRegion) (rs : List MemoryRegion)
    → lo ≤ r.start
    → SortedFrom lo rs
    → SortedFrom lo (insert r rs)
insert-IsSorted lo r [] le h = (le, tt)
insert-IsSorted lo r (s ∷ rest) le h = elim (Bool-cases (leb r.start s.start)) [
  | inl below ↦ rw below (le, (ground arith, h.1))
  | inr above ↦ rw above (h.0, insert-IsSorted s.start r rest (ground arith) h.1)
]

insert-Perm : (r : MemoryRegion) (rs : List MemoryRegion) → Perm (insert r rs) (r ∷ rs)
insert-Perm r [] = Perm.refl (r ∷ [])
insert-Perm r (s ∷ rest) = elim (Bool-cases (leb r.start s.start)) [
  | inl below ↦ rw below (Perm.refl (r ∷ s ∷ rest))
  | inr above ↦ rw above (Perm.trans (Perm.cons s (insert-Perm r rest)) (Perm.swap r s rest))
]

sort-IsSorted : (rs : List MemoryRegion) → IsSorted (sort rs)
sort-IsSorted [] = tt
sort-IsSorted (r ∷ rest) = insert-IsSorted 0 r (sort rest) (omega arith) (sort-IsSorted rest)

sort-Perm : (rs : List MemoryRegion) → Perm (sort rs) rs
sort-Perm [] = Perm.refl []
sort-Perm (r ∷ rest) = Perm.trans (insert-Perm r (sort rest)) (Perm.cons r (sort-Perm rest))

sort-Sorts : Sorts sort
sort-Sorts rs = (sort-IsSorted rs, sort-Perm rs)

abbrev address : ℕ → Outcome ℕ
address x = done x

abbrev align_down : ℕ → Outcome ℕ
align_down x = done (x / 4096 * 4096)

aligns : (k f : ℕ) → align_down (page_size * k) ≡ done f → f ≡ page_size * k
aligns k f e = ground arith

abbrev AnyEntry : Descriptor → Type 0
AnyEntry d = Unit

abbrev entry : Descriptor
entry = record { start = 0x100000; len = 0x4000; kind = usable }

entry-Known : All (Known AnyEntry) (entry ∷ [])
entry-Known = ((tt, record { first = 0x100; count = 4; start = refl; len = refl }), tt)

abbrev started : LinearIncFrameAllocator
started = record {
  original = entry ∷ [];
  memory_map = entry ∷ [];
  start_phys_addr = 0x100000;
  current_descriptor = none;
  next_frame = 0x100000;
}

abbrev after_two : LinearIncFrameAllocator
after_two = record {
  original = entry ∷ [];
  memory_map = [];
  start_phys_addr = 0x100000;
  current_descriptor = some entry;
  next_frame = 0x102000;
}

abbrev region : ℕ → ℕ → MemoryRegion
region start length = record { start = start; length = length; kind = bootloader }

abbrev nothing : Range
nothing = record { start = 0; end = 0 }

abbrev arg : Slice
arg = record { base = 0x200000; len = 0x100 }

abbrev regions : List MemoryRegion
regions = region 0 0x100000 ∷ []

abbrev handed_over : List MemoryRegion
handed_over = region 0 0x100000 ∷ region 0x100000 0x2000 ∷ region 0x200000 0x100 ∷ []

new_run : BootFrames.new address align_down (entry ∷ []) ≡ done started
unfolding BootFrames.new
new_run = refl

hand_out_run : hand_out address align_down started 2 ≡ done (0x100000 ∷ 0x101000 ∷ [], after_two)
unfolding hand_out BootFrames.allocate_frame BootFrames.next_descriptor
    BootFrames.allocate_frame_from_descriptor
hand_out_run = refl

region_run : allocated_region after_two ≡ done (region 0x100000 0x2000)
unfolding allocated_region
region_run = refl

add_kernel_arg_run : add_kernel_arg sort regions arg after_two ≡ done handed_over
unfolding add_kernel_arg write allocated_region
add_kernel_arg_run = refl

abbrev kernel : Frames.LinearIncFrameAllocator
kernel = record {
  range_iterator = record {
    ranges =
        record { start = 0; end = 0x102000 } ∷ record { start = 0x200000; end = 0x200100 } ∷ [];
    window = 4096;
    current_range_index = 0;
    current_value = 0x100000;
  };
  base_address = 0x1000000;
  phys_mem_right_boundary = 0x1200000;
  window = 4096;
}

kernel_run : Frames.new (page_size * 0x1000) page_size 0x200000 handed_over ≡ done kernel
unfolding Frames.new Frames.from_memory_regions Frames.merged Frames.merge_regions
    Frames.merge_region Frames.initial_index
kernel_run = refl

grants_run :
    grant_all align_down nothing kernel (1 ∷ 2 ∷ []) ≡ done ((0x1102000, 1) ∷ (0x1103000, 2) ∷ [])
unfolding grant_all Frames.allocate_frames Frames.next_n Frames.next_n_fuel Frames.pass_ranges
    Frames.leave_range
grants_run = refl

add_kernel_arg-Avoids_example :
    All
      (λ frame. All (Avoids (page_size * 0x1000) frame) ((0x1102000, 1) ∷ (0x1103000, 2) ∷ []))
      (0x100000 ∷ 0x101000 ∷ [])
add_kernel_arg-Avoids_example =
    add_kernel_arg-Avoids AnyEntry address align_down (λ x y e. omega (arith, done-injective e))
      (λ x f e. omega (arith, done-injective e)) aligns nothing (entry ∷ []) 2 sort regions arg
      0x200000 0x1000 (1 ∷ 2 ∷ []) entry-Known new_run hand_out_run sort-Sorts region_run
      add_kernel_arg_run kernel_run grants_run

abbrev firmware_map : List MemoryDescriptor
firmware_map =
    record { ty = conventional; phys_start = 0x100000; page_count = 4 }
    ∷ record { ty = runtime_services_data; phys_start = 0x104000; page_count = 2 }
    ∷ record { ty = boot_services_data; phys_start = 0x106000; page_count = 1 }
    ∷ []

abbrev io_apics : List MadtIoApic
io_apics = record { id = 0; address = 0xfec00000; gsi_base = 0 } ∷ []

abbrev reported : List MemoryRegion
reported =
    region 0x104000 0x2000
    ∷ region 0x100000 0x2000
    ∷ region 0x80000000 0x300000
    ∷ region 0x300000 0x5000
    ∷ region 0x400000 0x5000
    ∷ region 0xfee00000 0x1000
    ∷ region 0xfec00000 0x1000
    ∷ region 0x100000 0x1000
    ∷ region 0x101000 0x1000
    ∷ []

-- The bootstrap program is longer than the kernel, and its tail is not in the list.
reported_run :
    construct_unsafe_phys_mem_region_map firmware_map after_two
      (some (record { base = 0x80000000; len = 0x300000 }))
      (record { base = 0x300000; len = 0x5000 })
      (record { base = 0x400000; len = 0x9000 })
      0xfee00000
      io_apics
      0x100000
      0x101000
    ≡ done reported
unfolding construct_unsafe_phys_mem_region_map write write_entries write_io_apics allocated_region
    usable_after_bootloader_exit
reported_run = refl

reported_tail : unavailable reported 0x405000 ≡ false
reported_tail = refl

construct_unsafe_phys_mem_region_map-is_reserved_example :
    unavailable reported 0x405000
    ≡ is_reserved firmware_map
        (region 0x100000 0x2000)
        (some (record { base = 0x80000000; len = 0x300000 }))
        (record { base = 0x300000; len = 0x5000 })
        (record { base = 0x400000; len = 0x9000 })
        0xfee00000
        io_apics
        0x100000
        0x101000
        0x405000
construct_unsafe_phys_mem_region_map-is_reserved_example =
    construct_unsafe_phys_mem_region_map-is_reserved firmware_map after_two
      (some (record { base = 0x80000000; len = 0x300000 }))
      (record { base = 0x300000; len = 0x5000 }) (record { base = 0x400000; len = 0x9000 })
      0xfee00000 io_apics 0x100000 0x101000 0x405000 region_run reported_run
