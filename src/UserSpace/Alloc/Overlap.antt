-- ===== src/UserSpace/Alloc/Overlap.antt =====
-- Where two small buffers of one page are placed.
use miniature.Base.{
  ℕ, ◌+◌, ◌*◌, ◌≤◌, ◌<◌, ◌≡◌, refl, true, some, leb, le→ltb, done, add64_fits, mul64_fits, word,
  arith,
}
use miniature.UserSpace.{page_size}
use miniature.UserSpace.Alloc.{Machine, TrackedPhysFrame, UserAddrSpace, last, alloc, alloc_small}

module _ {W : Type 0} (m : Machine W) (fuel : ℕ) where
  -- The address of the page that small buffers are placed in.
  abbrev pub small_page : UserAddrSpace W → TrackedPhysFrame → ℕ
  small_page s t = s.base_address + t.index * page_size

  alloc_small_again :
      (s : UserAddrSpace W) (t : TrackedPhysFrame) (size : ℕ)
      → last s.tracked_small_buffers ≡ some t
      → small_page s t < word
      → m.virt_addr (small_page s t) ≡ done (small_page s t)
      → size ≤ 64
      → size + s.small_buffer_pointer ≤ page_size
      → alloc_small m fuel s size
        ≡ done (
          record { base = small_page s t; len = size },
          record s { small_buffer_pointer = size + s.small_buffer_pointer },
        )
  unfolding alloc_small
  alloc_small_again s t size l w v small fits =
      rw
        (
          alloc_small,
          add64_fits size s.small_buffer_pointer (omega arith),
          le→ltb page_size (size + s.small_buffer_pointer) fits,
          l,
          mul64_fits t.index page_size (omega arith),
          add64_fits s.base_address (t.index * page_size) w,
          v,
        )
        refl

  alloc_again :
      (s : UserAddrSpace W) (t : TrackedPhysFrame) (size : ℕ)
      → last s.tracked_small_buffers ≡ some t
      → small_page s t < word
      → m.virt_addr (small_page s t) ≡ done (small_page s t)
      → size ≤ 64
      → size + s.small_buffer_pointer ≤ page_size
      → alloc m fuel s size
        ≡ done (
          record { base = small_page s t; len = size },
          record s { small_buffer_pointer = size + s.small_buffer_pointer },
        )
  unfolding alloc
  alloc_again s t size l w v small fits =
      rw (alloc, le size small) (alloc_small_again s t size l w v small fits)
    where
      le : (size : ℕ) → size ≤ 64 → leb size 64 ≡ true
      le size h = ground arith

  -- Two small buffers that fit into the page that is in use are given the same address, the start
  -- of the page.
  pub alloc-same :
      (s : UserAddrSpace W) (t : TrackedPhysFrame) (first second : ℕ)
      → last s.tracked_small_buffers ≡ some t
      → small_page s t < word
      → m.virt_addr (small_page s t) ≡ done (small_page s t)
      → first ≤ 64
      → second ≤ 64
      → second + (first + s.small_buffer_pointer) ≤ page_size
      → (s₁ : UserAddrSpace W) × (s₂ : UserAddrSpace W) × (alloc m fuel s first
          ≡ done (record { base = small_page s t; len = first }, s₁))
        × (alloc m fuel s₁ second ≡ done (record { base = small_page s t; len = second }, s₂))
  alloc-same s t first second l w v a b fits =
      let s₁ : UserAddrSpace W = record s {
        small_buffer_pointer = first + s.small_buffer_pointer;
      } in
      (
        s₁,
        record s₁ { small_buffer_pointer = second + s₁.small_buffer_pointer },
        alloc_again s t first l w v a (omega arith),
        alloc_again s₁ t second l w v b fits,
      )
