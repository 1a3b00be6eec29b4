-- ===== src/Frames/Grants.antt =====
-- `LinearIncFrameAllocator`: what the kernel gets from `frame_alloc` and `frame_alloc_n`.
use miniature.Base.{
  ℕ, ◌+◌, ◌*◌, ◌≤◌, ◌<◌, ◌≡◌, refl, sym, ap, ◌∙◌, subst, false, List, [], ◌∷◌, Option, none, some,
  ltb, ltb→lt, ltb→le, inl, inr, Bool-cases, Outcome, done, ◌>>=◌, >>=-eq-done, add64, add64-done,
  mul64, mul64-done, done-injective, arith,
}
use miniature.Frames.{
  Range, MemoryRegion, LinkedRangeIterator, next_n, LinearIncFrameAllocator, new,
  from_memory_regions, allocate_frames,
}
use miniature.Frames.Merge.{IsSorted, IsMerged, unavailable}
use miniature.Frames.Blocks.{
  IsValid, Takes, next_n-Takes, next_n_aligned, Takes-IsValid, from_memory_regions-IsValid,
  covers-IsFree,
}

abbrev pub page_size : ℕ
page_size = 4096

-- The allocator of `init_frame_allocator`, after any number of calls.
pub record IsReady (regions : List MemoryRegion) (a : LinearIncFrameAllocator) : Type 0 where
  pub valid : IsValid a.range_iterator
  pub merged : IsMerged regions a.range_iterator.ranges
  pub window : a.window ≡ page_size
  pub same : a.range_iterator.window ≡ page_size
  pub steps : ℕ
  pub aligned : a.range_iterator.current_value ≡ page_size * steps

abbrev pub position : LinearIncFrameAllocator → ℕ
position a = a.range_iterator.current_value

-- No address of the block is unavailable.
abbrev pub IsAvailable : List MemoryRegion → ℕ → ℕ → Type 0
IsAvailable regions p size = (x : ℕ) → p ≤ x → x < p + size → unavailable regions x ≡ false

-- A grant of `count` pages at `start`, an address relative to the mapping of the physical memory;
-- the frame is at the base of the mapping plus `start`, and `start` alone is compared with the end.
pub record Grants (regions : List MemoryRegion) (a : LinearIncFrameAllocator)
    (count start frame : ℕ) (a' : LinearIncFrameAllocator) : Type 0 where
  pub frame_is : frame ≡ a.base_address + start
  pub above : position a ≤ start
  pub moved : position a' ≡ start + page_size * count
  pub within : start + page_size * count ≤ a.phys_mem_right_boundary
  pub available : IsAvailable regions start (page_size * count)

pub new-IsReady :
    (base size : ℕ) (regions : List MemoryRegion) {a : LinearIncFrameAllocator}
    → IsSorted regions
    → new base page_size size regions ≡ done a
    → IsReady regions a
      × (a.base_address ≡ base)
      × (a.phys_mem_right_boundary ≡ base + size)
      × (position a ≡ 0x100000)
unfolding new
new-IsReady base size regions s e =
    let (it, e₁, e₂) = >>=-eq-done (from_memory_regions 0x100000 page_size regions) _ e in
    let (right, e₃, e₄) = >>=-eq-done (add64 base size) _ e₂ in
    let (v, m, start, win) = from_memory_regions-IsValid 0x100000 page_size regions s e₁ in
    subst
      (λ (a : LinearIncFrameAllocator).
        IsReady regions a
        × (a.base_address ≡ base)
        × (a.phys_mem_right_boundary ≡ base + size)
        × (position a ≡ 0x100000))
      (done-injective e₄)
      (
        record {
          valid = v;
          merged = m;
          window = refl;
          same = win;
          steps = 256;
          aligned = omega (arith, start);
        },
        refl,
        (add64-done base size e₃).0,
        start,
      )

-- The behaviour of the x86_64 crate that is relied on: an address that is a multiple of the page
-- size is the start of its frame.
abbrev pub AlignsDown : (ℕ → Outcome ℕ) → Type 0
AlignsDown containing_address =
    (k f : ℕ) → containing_address (page_size * k) ≡ done f → f ≡ page_size * k

-- What a call that returns has done; the cases are a grant, and out of memory.
abbrev pub Answers :
    List MemoryRegion → LinearIncFrameAllocator → ℕ → Option ℕ → LinearIncFrameAllocator → Type 0
Answers regions a count none a' =
    (position a ≤ position a') × (a.phys_mem_right_boundary < position a')
Answers regions a count (some frame) a' = (start : ℕ) × Grants regions a count start frame a'

-- The two addresses that stay for good.
abbrev pub SameBounds : LinearIncFrameAllocator → LinearIncFrameAllocator → Type 0
SameBounds a a' =
    (a'.base_address ≡ a.base_address) × (a'.phys_mem_right_boundary ≡ a.phys_mem_right_boundary)

moved-IsReady :
    (regions : List MemoryRegion) (a : LinearIncFrameAllocator) (count p j : ℕ)
    (it : LinkedRangeIterator)
    → IsReady regions a
    → Takes a.range_iterator (a.range_iterator.window * count) p it
    → p ≡ a.range_iterator.window * j
    → IsReady regions (record a { range_iterator = it })
moved-IsReady regions a count p j it h t al = record {
  valid = Takes-IsValid h.valid t;
  merged = subst (IsMerged regions) (sym t.ranges) h.merged;
  window = h.window;
  same = t.window ∙ h.same;
  steps = j + count;
  aligned = omega (arith, t.to, al, ap (λ (w : ℕ). w * count) h.same, ap (λ (w : ℕ). w * j) h.same);
}

module _ (containing_address : ℕ → Outcome ℕ) (aligns : AlignsDown containing_address)
    (uninit : Range) where
  -- A call of a ready allocator whose base is a page boundary, if it returns. It answers the frame at
  -- the base plus an offset: the offset is at or above the position, no address of the block of
  -- `count` pages from the offset on is unavailable, the end of that block is not above the boundary
  -- that the allocator keeps, and the position moves to it; the base is not counted in that
  -- comparison. Or it answers that there is no memory, and the position has passed the boundary. The
  -- allocator is ready for the next call.
  pub allocate_frames-Answers :
      (regions : List MemoryRegion) (a : LinearIncFrameAllocator) (count m : ℕ) {r : Option ℕ}
      {a' : LinearIncFrameAllocator}
      → IsReady regions a
      → a.base_address ≡ page_size * m
      → allocate_frames containing_address uninit a count ≡ done (r, a')
      → IsReady regions a' × SameBounds a a' × Answers regions a count r a'
  unfolding allocate_frames
  allocate_frames-Answers regions a count m {r} {a'} h b e =
      let ((p, it), e₁, e₂) = >>=-eq-done (next_n uninit a.range_iterator count) _ e in
      let t = next_n-Takes uninit a.range_iterator count h.valid e₁ in
      let (j, al) =
        next_n_aligned uninit a.range_iterator count h.steps h.valid
          (h.aligned ∙ ap (λ (w : ℕ). w * h.steps) (sym h.same)) e₁ in
      let ready = moved-IsReady regions a count p j it h t al in
      let a₁ : LinearIncFrameAllocator = record a { range_iterator = it } in
      let (size, e₃, e₄) = >>=-eq-done (mul64 a.window count) _ e₂ in
      let size_is : size ≡ page_size * count =
        (mul64-done a.window count e₃).0 ∙ ap (λ (w : ℕ). w * count) h.window in
      let block_is : a.range_iterator.window * count ≡ page_size * count =
        ap (λ (w : ℕ). w * count) h.same in
      let p_is : p ≡ page_size * j = al ∙ ap (λ (w : ℕ). w * j) h.same in
      let (end, e₅, e₆) = >>=-eq-done (add64 p size) _ e₄ in
      let end_is = (add64-done p size e₅).0 in
      elim (Bool-cases (ltb a.phys_mem_right_boundary end)) [
        | inl over ↦
            subst
              (λ (t : Option ℕ × LinearIncFrameAllocator).
                IsReady regions t.1 × SameBounds a t.1 × Answers regions a count t.0 t.1)
              (done-injective (rw over at e₆))
              (
                ready,
                (refl, refl),
                omega (
                  arith,
                  ltb→lt a.phys_mem_right_boundary end over,
                  t.from,
                  t.to,
                  end_is,
                  size_is,
                  block_is,
                ),
              )
        | inr inside ↦
            let (addr, e₇, e₈) = >>=-eq-done (add64 a.base_address p) _ (rw inside at e₆) in
            let addr_is = (add64-done a.base_address p e₇).0 in
            let (frame, e₉, e₀) = >>=-eq-done (containing_address addr) _ e₈ in
            subst
              (λ (t : Option ℕ × LinearIncFrameAllocator).
                IsReady regions t.1 × SameBounds a t.1 × Answers regions a count t.0 t.1)
              (done-injective e₀)
              (
                ready,
                (refl, refl),
                (
                  p,
                  record {
                    frame_is =
                        aligns (m + j) frame (
                          subst (λ x. containing_address x ≡ done frame)
                            (omega (arith, addr_is, b, p_is)) e₉)
                        ∙ omega (arith, b, p_is);
                    above = t.from;
                    moved = t.to ∙ ap (λ (n : ℕ). p + n) block_is;
                    within =
                        omega (arith, ltb→le a.phys_mem_right_boundary end inside, end_is, size_is);
                    available = λ x lo hi.
                        sym (h.merged.same x)
                        ∙ covers-IsFree p (a.range_iterator.window * count) x
                            a.range_iterator.ranges t.free lo (omega (arith, block_is));
                  },
                ),
              )
      ]

-- A run of calls, with the frames that were granted and how many pages each got.
unfoldable pub grant_all :
    (ℕ → Outcome ℕ) → Range → LinearIncFrameAllocator → List ℕ → Outcome (List (ℕ × ℕ))
grant_all containing_address uninit a [] = done []
grant_all containing_address uninit a (count ∷ counts) = do
  (r, a') ← allocate_frames containing_address uninit a count
  rest ← grant_all containing_address uninit a' counts
  done (elim r [ none ↦ rest | some frame ↦ (frame, count) ∷ rest ])

-- Each block starts at an offset from the base at or above the end of the block before it; the
-- addresses from the offset on are available, and end at or below `right`.
abbrev pub Granted : List MemoryRegion → ℕ → ℕ → ℕ → List (ℕ × ℕ) → Type 0
Granted regions base right from [] = Unit
Granted regions base right from ((frame, count) ∷ rest) =
    (start : ℕ) × (frame ≡ base + start)
    × (from ≤ start)
    × (start + page_size * count ≤ right)
    × IsAvailable regions start (page_size * count)
    × Granted regions base right (start + page_size * count) rest

Granted-mono :
    (regions : List MemoryRegion) (base right from lower : ℕ) (bs : List (ℕ × ℕ))
    → lower ≤ from
    → Granted regions base right from bs
    → Granted regions base right lower bs
Granted-mono regions base right from lower [] h g = tt
Granted-mono regions base right from lower ((frame, count) ∷ bs) h (start, f, le, w, av, rest) =
    (start, f, omega arith, w, av, rest)

extend :
    (regions : List MemoryRegion) (base right : ℕ) (a : LinearIncFrameAllocator) (count : ℕ)
    (r : Option ℕ) (a' : LinearIncFrameAllocator) (rest : List (ℕ × ℕ))
    → a.base_address ≡ base
    → a.phys_mem_right_boundary ≡ right
    → Answers regions a count r a'
    → Granted regions base right (position a') rest
    → Granted regions base right (position a) (elim r [ none ↦ rest | some f ↦ (f, count) ∷ rest ])
extend regions base right a count none a' rest eb er h g =
    Granted-mono regions base right (position a') (position a) rest h.0 g
extend regions base right a count (some frame) a' rest eb er (start, h) g = (
  start,
  h.frame_is ∙ ap (λ (b : ℕ). b + start) eb,
  h.above,
  omega (arith, h.within, er),
  h.available,
  subst (λ n. Granted regions base right n rest) h.moved g,
)

module _ (containing_address : ℕ → Outcome ℕ) (aligns : AlignsDown containing_address)
    (uninit : Range) where
  pub grant_all-Granted :
      (regions : List MemoryRegion) (a : LinearIncFrameAllocator) (counts : List ℕ)
      (m base right : ℕ) {granted : List (ℕ × ℕ)}
      → IsReady regions a
      → base ≡ page_size * m
      → a.base_address ≡ base
      → a.phys_mem_right_boundary ≡ right
      → grant_all containing_address uninit a counts ≡ done granted
      → Granted regions base right (position a) granted
  unfolding grant_all
  grant_all-Granted regions a [] m base right h b eb er e =
      subst (Granted regions base right (position a)) (done-injective e) tt
  grant_all-Granted regions a (count ∷ counts) m base right h b eb er e =
      let ((r, a'), e₁, e₂) = >>=-eq-done (allocate_frames containing_address uninit a count) _ e in
      let (rest, e₃, e₄) = >>=-eq-done (grant_all containing_address uninit a' counts) _ e₂ in
      let (ready, bounds, answer) =
        allocate_frames-Answers containing_address aligns uninit regions a count m h (eb ∙ b) e₁ in
      let ih =
        grant_all-Granted regions a' counts m base right ready b (bounds.0 ∙ eb) (bounds.1 ∙ er)
          e₃ in
      subst (Granted regions base right (position a)) (done-injective e₄)
        (extend regions base right a count r a' rest eb er answer ih)

  pub new-grant_all :
      (regions : List MemoryRegion) (size m : ℕ) (counts : List ℕ) {a : LinearIncFrameAllocator}
      {granted : List (ℕ × ℕ)}
      → IsSorted regions
      → new (page_size * m) page_size size regions ≡ done a
      → grant_all containing_address uninit a counts ≡ done granted
      → Granted regions (page_size * m) (page_size * m + size) 0x100000 granted
  new-grant_all regions size m counts {granted = granted} s e g =
      let (ready, base, right, at) = new-IsReady (page_size * m) size regions s e in
      subst (λ p. Granted regions (page_size * m) (page_size * m + size) p granted) at
        (grant_all-Granted regions _ counts m (page_size * m) (page_size * m + size) ready refl base
          right g)

-- Blocks of physical memory of `size` bytes, each above the one before it, from `from` on.
abbrev pub InMemory : List MemoryRegion → ℕ → ℕ → List (ℕ × ℕ) → Type 0
InMemory regions size from [] = Unit
InMemory regions size from ((frame, count) ∷ rest) =
    (from ≤ frame)
    × (frame + page_size * count ≤ size)
    × IsAvailable regions frame (page_size * count)
    × InMemory regions size (frame + page_size * count) rest

Granted-InMemory :
    (regions : List MemoryRegion) (size from : ℕ) (bs : List (ℕ × ℕ))
    → Granted regions 0 size from bs
    → InMemory regions size from bs
Granted-InMemory regions size from [] g = tt
Granted-InMemory regions size from ((frame, count) ∷ bs) (start, at, le, within, available, rest) =
    let same : start ≡ frame = omega (arith, at) in
    subst
      (λ x.
        (from ≤ x)
        × (x + page_size * count ≤ size)
        × IsAvailable regions x (page_size * count)
        × InMemory regions size (x + page_size * count) bs)
      same
      (le, within, available, Granted-InMemory regions size (start + page_size * count) bs rest)

module _ (containing_address : ℕ → Outcome ℕ) (aligns : AlignsDown containing_address)
    (uninit : Range) where
  -- The physical memory is mapped at address 0, and the regions are in the order of their starts:
  -- over any calls for any numbers of pages that all return, the blocks that the allocator of
  -- `init_frame_allocator` grants lie each above the one before it, at or above 0x100000, inside of
  -- the physical memory, and hold no unavailable address.
  pub new-grant_all-InMemory :
      (regions : List MemoryRegion) (size : ℕ) (counts : List ℕ) {a : LinearIncFrameAllocator}
      {granted : List (ℕ × ℕ)}
      → IsSorted regions
      → new 0 page_size size regions ≡ done a
      → grant_all containing_address uninit a counts ≡ done granted
      → InMemory regions size 0x100000 granted
  new-grant_all-InMemory regions size counts {granted = granted} s e g =
      Granted-InMemory regions size 0x100000 granted (
        subst (λ right. Granted regions 0 right 0x100000 granted) (omega arith)
          (new-grant_all containing_address aligns uninit regions size 0 counts s e g))
