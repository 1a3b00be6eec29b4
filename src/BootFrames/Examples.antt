-- ===== src/BootFrames/Examples.antt =====
-- A memory map with a reserved entry between two usable ones.
use miniature.Base.{
  ℕ, ◌+◌, ◌*◌, ◌/◌, ◌≡◌, refl, List, [], ◌∷◌, none, some, Outcome, done, done-injective, All, arith,
}
use miniature.Frames.{bootloader, usable, unknown_uefi}
use miniature.BootFrames.{
  Descriptor, LinearIncFrameAllocator, new, allocate_frame, allocated_region,
  allocate_frame_from_descriptor, next_descriptor,
}
use miniature.BootFrames.Grants.{Known}
use miniature.BootFrames.Region.{hand_out, HandedOut, new-hand_out-allocated_region}

abbrev address : ℕ → Outcome ℕ
address x = done x

abbrev containing_address : ℕ → Outcome ℕ
containing_address x = done (x / 4096 * 4096)

abbrev AnyEntry : Descriptor → Type 0
AnyEntry d = Unit

abbrev memory_map : List Descriptor
memory_map =
    record { start = 0xff000; len = 0x3000; kind = usable }
    ∷ record { start = 0x102000; len = 0x2000; kind = unknown_uefi 5 }
    ∷ record { start = 0x104000; len = 0x2000; kind = usable }
    ∷ []

memory_map-Known : All (Known AnyEntry) memory_map
memory_map-Known = (
  (tt, record { first = 0xff; count = 3; start = refl; len = refl }),
  (
    (tt, record { first = 0x102; count = 2; start = refl; len = refl }),
    ((tt, record { first = 0x104; count = 2; start = refl; len = refl }), tt),
  ),
)

abbrev started : LinearIncFrameAllocator
started = record {
  original = memory_map;
  memory_map = memory_map;
  start_phys_addr = 0x100000;
  current_descriptor = none;
  next_frame = 0x100000;
}

abbrev after_four : LinearIncFrameAllocator
after_four = record {
  original = memory_map;
  memory_map = [];
  start_phys_addr = 0x100000;
  current_descriptor = some (record { start = 0x104000; len = 0x2000; kind = usable });
  next_frame = 0x106000;
}

abbrev four_frames : List ℕ
four_frames = 0x100000 ∷ 0x101000 ∷ 0x104000 ∷ 0x105000 ∷ []

new_run : new address containing_address memory_map ≡ done started
unfolding new
new_run = refl

hand_out_run : hand_out address containing_address started 4 ≡ done (four_frames, after_four)
unfolding hand_out allocate_frame next_descriptor allocate_frame_from_descriptor
hand_out_run = refl

region_run :
    allocated_region after_four
    ≡ done (record { start = 0x100000; length = 0x6000; kind = bootloader })
unfolding allocated_region
region_run = refl

new-hand_out-allocated_region_example :
    (◌≡◌ {A = ℕ} 0x100000 0x100000) × HandedOut AnyEntry 0x100000 (0x100000 + 0x6000) four_frames
new-hand_out-allocated_region_example =
    new-hand_out-allocated_region AnyEntry address containing_address
      (λ x y e. omega (arith, done-injective e)) (λ x f e. omega (arith, done-injective e))
      memory_map 4 memory_map-Known new_run hand_out_run region_run

allocate_frame_run :
    allocate_frame address containing_address after_four
    ≡ done (none, record after_four { current_descriptor = none })
unfolding allocate_frame next_descriptor allocate_frame_from_descriptor
allocate_frame_run = refl
