-- ===== src/BootFrames/Tries.antt =====
-- One try of the bootloader's frame allocator on one entry of the memory map.
use miniature.Base.{
  suc, ℕ, ◌+◌, ◌-◌, ◌*◌, ◌/◌, ◌≤◌, ◌≡◌, refl, ap, ◌∙◌, subst, true, inl, inr, Bool-cases, Option,
  none, some, ltb, leb, if◌then◌else◌, Outcome, done, ◌>>=◌, >>=-eq-done, done-injective, add64,
  sub64, add64-done, arith, leb→le, ltb→lt, ltb→le,
}
use miniature.BootFrames.{
  Descriptor, LinearIncFrameAllocator, is_usable, page_size, following,
  allocate_frame_from_descriptor,
}

-- The behaviour of the x86_64 crate that is relied on: an address is its number, and a frame
-- starts at the multiple of the page size at or below the address.
abbrev pub Keeps : (ℕ → Outcome ℕ) → Type 0
Keeps address = (x y : ℕ) → address x ≡ done y → y ≡ x

abbrev pub AlignsDown : (ℕ → Outcome ℕ) → Type 0
AlignsDown containing_address =
    (x f : ℕ) → containing_address x ≡ done f → f ≡ x / page_size * page_size

-- The firmware reports whole pages.
pub record IsWhole (d : Descriptor) : Type 0 where
  pub first : ℕ
  pub count : ℕ
  pub start : d.start ≡ first * page_size
  pub len : d.len ≡ count * page_size

-- The frame lies inside of a usable entry of which `P` holds.
pub record IsUsable (P : Descriptor → Type 0) (frame : ℕ) : Type 0 where
  pub descriptor : Descriptor
  pub known : P descriptor
  pub kind : is_usable descriptor.kind ≡ true
  pub above : descriptor.start ≤ frame
  pub within : frame + page_size ≤ descriptor.start + descriptor.len

pub sub64-done : (a b : ℕ) {c : ℕ} → sub64 a b ≡ done c → (c ≡ a - b) × (b ≤ a)
sub64-done a b h = ground arith

abbrev pub IsAligned : ℕ → Type 0
IsAligned frame = (k : ℕ) × (frame ≡ k * page_size)

-- One try on an entry, which moves the next frame from `next` to `moved`.
abbrev pub Tried : Descriptor → ℕ → Option ℕ → ℕ → Type 0
Tried d next none moved = (next ≤ moved) × IsAligned moved
Tried d next (some frame) moved =
    (next ≤ frame)
    × (moved ≡ frame + page_size)
    × (d.start ≤ frame)
    × (frame + page_size ≤ d.start + d.len)
    × IsAligned moved

module _ (address containing_address : ℕ → Outcome ℕ) (keeps : Keeps address)
    (aligns : AlignsDown containing_address) where
  following-done :
      (frame : ℕ) {f : ℕ}
      → following address containing_address frame ≡ done f
      → (f ≡ (frame + page_size) / page_size * page_size)
  following-done frame e =
      let (sum, e₁, e₂) = >>=-eq-done (add64 frame page_size) _ e in
      let (start, e₃, e₄) = >>=-eq-done (address sum) _ e₂ in
      aligns start _ e₄
      ∙ ap (λ (x : ℕ). x / page_size * page_size)
          (keeps sum start e₃ ∙ (add64-done frame page_size e₁).0)

  abbrev raised : ℕ → ℕ → ℕ
  raised next start = if ltb next start then start else next

  raised-IsAligned :
      (next start : ℕ)
      → IsAligned next
      → IsAligned start
      → (next ≤ raised next start) × (start ≤ raised next start) × IsAligned (raised next start)
  raised-IsAligned next start (k, n) (j, s) = elim (Bool-cases (ltb next start)) [
    | inl up ↦ rw up (omega (arith, ltb→lt next start up), omega arith, (j, s))
    | inr stays ↦ rw stays (omega arith, ltb→le next start stays, (k, n))
  ]

  whole_start :
      (x first f : ℕ)
      → x ≡ first * page_size
      → f ≡ x / page_size * page_size
      → f ≡ first * page_size
  whole_start x first f e h = omega arith

  abbrev rest_of_try :
      LinearIncFrameAllocator → ℕ → ℕ → Outcome (Option ℕ × LinearIncFrameAllocator)
  rest_of_try a next_frame end_frame =
      if leb next_frame end_frame
      then (following address containing_address next_frame >>= λ f.
          done (some next_frame, record a { next_frame = f }))
      else done (none, record a { next_frame = next_frame })

  abbrev pub Moves :
      LinearIncFrameAllocator → Descriptor → Option ℕ × LinearIncFrameAllocator → Type 0
  Moves a d (r, a') =
      (moved : ℕ) × (a' ≡ record a { next_frame = moved }) × Tried d a.next_frame r moved

  -- The frame that is reached, between the frames of the first and of the last byte of the entry.
  finish :
      (a : LinearIncFrameAllocator) (d : Descriptor) (start end_frame : ℕ)
      {out : Option ℕ × LinearIncFrameAllocator}
      → IsAligned a.next_frame
      → IsAligned start
      → d.start ≤ start
      → end_frame + page_size ≤ d.start + d.len
      → rest_of_try a (raised a.next_frame start) end_frame ≡ done out
      → Moves a d out
  finish a d start end_frame n s above within e =
      let next_frame = raised a.next_frame start in
      let (up, from, (k, at)) = raised-IsAligned a.next_frame start n s in
      elim (Bool-cases (leb next_frame end_frame)) [
        | inl fits ↦
            let (f, e₁, e₂) =
              >>=-eq-done (following address containing_address next_frame) _ (rw fits at e) in
            let moved : f ≡ next_frame + page_size =
              omega (arith, following-done next_frame e₁, at) in
            subst (Moves a d) (done-injective e₂) (
              f,
              refl,
              (
                up,
                moved,
                omega arith,
                omega (arith, leb→le next_frame end_frame fits),
                (suc k, omega arith),
              ),
            )
        | inr over ↦
            subst (Moves a d) (done-injective (rw over at e)) (next_frame, refl, (up, (k, at)))
      ]

  pub try-Tried :
      (a : LinearIncFrameAllocator) (d : Descriptor) {out : Option ℕ × LinearIncFrameAllocator}
      → IsWhole d
      → IsAligned a.next_frame
      → allocate_frame_from_descriptor address containing_address a d ≡ done out
      → Moves a d out
  unfolding allocate_frame_from_descriptor
  try-Tried a d w n e =
      let (start, e₁, e₂) = >>=-eq-done (containing_address d.start) _ e in
      let (sum, e₃, e₄) = >>=-eq-done (add64 d.start d.len) _ e₂ in
      let (end, e₅, e₆) = >>=-eq-done (address sum) _ e₄ in
      let (before, e₇, e₈) = >>=-eq-done (sub64 end 1) _ e₆ in
      let (last, e₉, e₁₀) = >>=-eq-done (address before) _ e₈ in
      let (end_frame, e₁₁, e₁₂) = >>=-eq-done (containing_address last) _ e₁₀ in
      let at : start ≡ w.first * page_size =
        whole_start d.start w.first start w.start (aligns d.start start e₁) in
      finish a d start end_frame n (w.first, at) (omega (arith, at, w.start))
        (whole_end d w.first w.count sum end before last end_frame w.start w.len
          (add64-done d.start d.len e₃).0 (keeps sum end e₅) (sub64-done end 1 e₇)
          (keeps before last e₉) (aligns last end_frame e₁₁))
        e₁₂
    where
      whole_end :
          (d : Descriptor) (first count sum end before last end_frame : ℕ)
          → d.start ≡ first * page_size
          → d.len ≡ count * page_size
          → sum ≡ d.start + d.len
          → end ≡ sum
          → (before ≡ end - 1) × (1 ≤ end)
          → last ≡ before
          → end_frame ≡ last / page_size * page_size
          → end_frame + page_size ≤ d.start + d.len
      whole_end d first count sum end before last end_frame s l a b c e f = omega arith
