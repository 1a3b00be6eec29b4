-- ===== src/Handover/Handed.antt =====
-- The bootloader's frame allocator and the kernel's, over the regions that are handed over.
use miniature.Base.{
  ℕ, ◌+◌, ◌*◌, ◌≤◌, ◌<◌, ◌≡◌, refl, sym, ap, ◌∙◌, Bool, true, false, ◌||◌, inl, inr, Bool-cases,
  List, [], ◌∷◌, Outcome, done, All, All-map, arith,
}
use mathlib.Core.Bool.{true≢false}
use miniature.Frames.{Range, MemoryRegion}
use miniature.Frames as Frames
use miniature.Frames.Merge.{unavailable}
use miniature.Frames.Grants.{page_size, AlignsDown, IsAvailable, Granted, grant_all, new-grant_all}
use miniature.BootFrames.{Descriptor, LinearIncFrameAllocator, allocated_region}
use miniature.BootFrames as BootFrames
use miniature.BootFrames.Tries.{Keeps}
use miniature.BootFrames.Grants.{Known}
use miniature.BootFrames.Tries as Boot
use miniature.BootFrames.Region.{hand_out, HandedOut, new-hand_out-allocated_region}
use miniature.Contexts.Context.{Slice}
use miniature.Handover.{add_kernel_arg}
use miniature.Handover.Regions.{within, Sorts, add_kernel_arg-unavailable}

abbrev IsInside : ℕ → ℕ → ℕ → Type 0
IsInside from to frame = (from ≤ frame) × (frame + page_size ≤ to)

HandedOut-le :
    (P : Descriptor → Type 0) (from to : ℕ) (frames : List ℕ)
    → HandedOut P from to frames
    → from ≤ to
HandedOut-le P from to [] h = h
HandedOut-le P from to (frame ∷ frames) h =
    omega (arith, h.0, HandedOut-le P (frame + page_size) to frames h.2)

HandedOut-IsInside :
    (P : Descriptor → Type 0) (from to : ℕ) (frames : List ℕ)
    → HandedOut P from to frames
    → All (IsInside from to) frames
HandedOut-IsInside P from to [] h = tt
HandedOut-IsInside P from to (frame ∷ frames) h = (
  (h.0, HandedOut-le P (frame + page_size) to frames h.2),
  All-map (IsInside (frame + page_size) to) (IsInside from to) frames
      (λ f i. (omega (arith, i.0, h.0), i.1))
      (HandedOut-IsInside P (frame + page_size) to frames h.2),
)

-- No byte of the frame is in a block that starts at the address in the mapping at `base`.
abbrev pub Avoids : ℕ → ℕ → ℕ × ℕ → Type 0
Avoids base frame (addr, count) =
    (x : ℕ) → frame ≤ x → x < frame + page_size → within addr (page_size * count) (base + x) ≡ false

bounds :
    (addr size start base x : ℕ)
    → addr ≡ base + start
    → within addr size (base + x) ≡ true
    → (start ≤ x) × (x < start + size)
bounds addr size start base x f h = ground arith

not-within :
    (regions : List MemoryRegion) (base addr size start x : ℕ)
    → addr ≡ base + start
    → IsAvailable regions start size
    → unavailable regions x ≡ true
    → within addr size (base + x) ≡ false
not-within regions base addr size start x f av u = elim (Bool-cases (within addr size (base + x))) [
  | inr out ↦ out
  | inl both ↦
      let (lo, hi) = bounds addr size start base x f both in
      absurd (true≢false (sym u ∙ av x lo hi))
]

Granted-Avoids :
    (regions : List MemoryRegion) (base right from frame : ℕ) (granted : List (ℕ × ℕ))
    → ((x : ℕ) → frame ≤ x → x < frame + page_size → unavailable regions x ≡ true)
    → Granted regions base right from granted
    → All (Avoids base frame) granted
Granted-Avoids regions base right from frame [] u g = tt
Granted-Avoids regions base right from frame ((addr, count) ∷ rest) u (start, f, le, w, av, g) = (
  λ x lo hi. not-within regions base addr (page_size * count) start x f av (u x lo hi),
  Granted-Avoids regions base right (start + page_size * count) frame rest u g,
)

within_block :
    (start length frame x : ℕ)
    → IsInside start (start + length) frame
    → frame ≤ x
    → x < frame + page_size
    → within start length x ≡ true
within_block start length frame x i lo hi = ground arith

or_true : (a : Bool) → a || true ≡ true
or_true true = refl
or_true false = refl

module _ (P : Descriptor → Type 0) (address containing_address : ℕ → Outcome ℕ)
    (keeps : Keeps address) (boot_aligns : Boot.AlignsDown containing_address)
    (aligns : AlignsDown containing_address) (uninit : Range) where
  -- From the firmware's memory map of whole pages, through any number of calls of the boot allocator,
  -- the regions reported with its last state, sorted as the core library documents, and any calls of
  -- the kernel's allocator over them, if all return: no byte of a frame that the bootloader has used
  -- is in a block that the kernel grants.
  pub add_kernel_arg-Avoids :
      (map : List Descriptor) (n : ℕ) (sort : List MemoryRegion → List MemoryRegion)
      (regions : List MemoryRegion) (arg : Slice) (size m : ℕ) (counts : List ℕ)
      {a a' : BootFrames.LinearIncFrameAllocator} {frames : List ℕ} {region : MemoryRegion}
      {out : List MemoryRegion} {kernel : Frames.LinearIncFrameAllocator} {granted : List (ℕ × ℕ)}
      → All (Known P) map
      → BootFrames.new address containing_address map ≡ done a
      → hand_out address containing_address a n ≡ done (frames, a')
      → Sorts sort
      → allocated_region a' ≡ done region
      → add_kernel_arg sort regions arg a' ≡ done out
      → Frames.new (page_size * m) page_size size out ≡ done kernel
      → grant_all containing_address uninit kernel counts ≡ done granted
      → All (λ frame. All (Avoids (page_size * m) frame) granted) frames
  add_kernel_arg-Avoids map n sort regions arg size m counts {a' = a'} {frames = frames}
        {region = region} {out = out} {granted = granted} known e₀ e₁ law e₂ e₃ e₄ e₅ =
      let (start, handed) =
        new-hand_out-allocated_region P address containing_address keeps boot_aligns map n known e₀
          e₁ e₂ in
      let (sorted, covered) = add_kernel_arg-unavailable sort regions arg a' law e₂ e₃ in
      let grants = new-grant_all containing_address aligns uninit out size m counts sorted e₄ e₅ in
      All-map (IsInside region.start (region.start + region.length))
        (λ frame. All (Avoids (page_size * m) frame) granted) frames
        (λ frame i.
          Granted-Avoids out (page_size * m) (page_size * m + size) 0x100000 frame granted
            (λ x lo hi.
              covered x
              ∙ ap (λ b. (unavailable regions x || within arg.base arg.len x) || b)
                  (within_block region.start region.length frame x i lo hi)
              ∙ or_true (unavailable regions x || within arg.base arg.len x))
            grants)
        (HandedOut-IsInside P region.start (region.start + region.length) frames handed)
