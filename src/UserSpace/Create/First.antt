-- ===== src/UserSpace/Create/First.antt =====
-- The first buffers of a new address space.
use miniature.Base.{
  ℕ, ◌+◌, ◌*◌, ◌%◌, ◌≤◌, ◌<◌, ◌≡◌, refl, sym, subst, some, ◌==◌, done, or_panic, assert,
  >>=-eq-done, done-injective, add64, mul64, word, arith,
}
use miniature.UserSpace.{page_size}
use miniature.UserSpace.Alloc.{Machine, UserAddrSpace, TrackedPhysFrame, last, take_frame, alloc}
use miniature.UserSpace.Alloc.Overlap.{alloc-same}
use miniature.UserSpace.Create.{bare, map_initial, new}

module _ {W : Type 0} (m : Machine W) (write_table : ℕ → W → W) (containing_address : ℕ → ℕ) where
  -- The base address and the position of small buffers.
  abbrev Starts : ℕ → UserAddrSpace W → Type 0
  Starts base s = (s.base_address ≡ base) × (s.small_buffer_pointer ≡ 0)

  take_frame-Starts :
      (base : ℕ) (s : UserAddrSpace W) {r : ℕ × UserAddrSpace W}
      → Starts base s
      → take_frame m s ≡ done r
      → Starts base r.1
  take_frame-Starts base s h e =
      let (f, e₁, f₁) = >>=-eq-done (or_panic (m.frame_alloc s.machine).0) _ e in
      subst (λ (r : ℕ × UserAddrSpace W). Starts base r.1) (done-injective f₁) h

  map_initial-Starts :
      (base index frame : ℕ) (s : UserAddrSpace W) {s' : UserAddrSpace W}
      → Starts base s
      → map_initial m write_table containing_address index frame s ≡ done s'
      → Starts base s'
  map_initial-Starts base index frame s h e =
      let (offset, e₁, f₁) = >>=-eq-done (mul64 index page_size) _ e in
      let (addr, e₂, f₂) = >>=-eq-done (add64 s.base_address offset) _ f₁ in
      let (virt_addr, e₃, f₃) = >>=-eq-done (m.virt_addr addr) _ f₂ in
      let (w, e₄, f₄) =
        >>=-eq-done (or_panic (m.map_to (containing_address virt_addr) frame s.machine)) _ f₃ in
      subst (Starts base) (done-injective f₄) h

  new-Starts :
      (w : W) (base : ℕ) {s : UserAddrSpace W}
      → new m write_table containing_address w base ≡ done s
      → Starts base s
        × ((frame : ℕ) × (last s.tracked_small_buffers
              ≡ some (record { frame = frame; index = 0 })))
  unfolding new last
  new-Starts w base e =
      let (u, e₀, f₀) = >>=-eq-done (assert (base % page_size == 0)) _ e in
      let ((pml4_frame, s₀), e₁, f₁) = >>=-eq-done (take_frame m (bare w base)) _ f₀ in
      let written = record s₀ { machine = write_table pml4_frame s₀.machine } in
      let ((small, s₁), e₂, f₂) = >>=-eq-done (take_frame m written) _ f₁ in
      let ((medium, s₂), e₃, f₃) = >>=-eq-done (take_frame m s₁) _ f₂ in
      let (s₃, e₄, f₄) =
        >>=-eq-done (map_initial m write_table containing_address 0 small s₂) _ f₃ in
      let (s₄, e₅, f₅) =
        >>=-eq-done (map_initial m write_table containing_address 1 medium s₃) _ f₄ in
      let h₀ = take_frame-Starts base (bare w base) (refl, refl) e₁ in
      let h₂ = take_frame-Starts base s₁ (take_frame-Starts base written h₀ e₂) e₃ in
      let h₄ = map_initial-Starts base 1 medium s₃ (map_initial-Starts base 0 small s₂ h₂ e₄) e₅ in
      subst
        (λ (s : UserAddrSpace W).
          Starts base s
          × ((frame : ℕ) × (last s.tracked_small_buffers
                ≡ some (record { frame = frame; index = 0 }))))
        (done-injective f₅) (h₄, (small, refl))

  -- The first two small buffers of a new address space whose base is a valid address: both are
  -- placed at the base, so that they overlap.
  pub new-alloc :
      (w : W) (base fuel first second : ℕ) {s : UserAddrSpace W}
      → base < word
      → m.virt_addr base ≡ done base
      → first ≤ 64
      → second ≤ 64
      → new m write_table containing_address w base ≡ done s
      → (s₁ : UserAddrSpace W) × (s₂ : UserAddrSpace W) × (alloc m fuel s first
          ≡ done (record { base = base; len = first }, s₁))
        × (alloc m fuel s₁ second ≡ done (record { base = base; len = second }, s₂))
  new-alloc w base fuel first second {s} lt valid a b e =
      let ((at, pointer), (frame, l)) = new-Starts w base e in
      let t : TrackedPhysFrame = record { frame = frame; index = 0 } in
      let page : s.base_address + 0 * page_size ≡ base = omega (arith, at) in
      let (s₁, s₂, x, y) =
        alloc-same m fuel s t first second l (omega (arith, page, lt))
          (subst (λ a. m.virt_addr a ≡ done a) (sym page) valid) a b (omega (arith, pointer)) in
      (
        s₁,
        s₂,
        subst (λ a. alloc m fuel s first ≡ done (record { base = a; len = first }, s₁)) page x,
        subst (λ a. alloc m fuel s₁ second ≡ done (record { base = a; len = second }, s₂)) page y,
      )
