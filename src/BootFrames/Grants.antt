-- ===== src/BootFrames/Grants.antt =====
-- What the bootloader's frame allocator hands out.
use miniature.Base.{
  ℕ, ◌+◌, ◌≤◌, ◌≡◌, refl, sym, ap, ◌∙◌, subst, true, inl, inr, Bool-cases, List, [], ◌∷◌, Option,
  none, some, Outcome, done, >>=-eq-done, done-injective, All, arith,
}
use miniature.BootFrames.{
  Descriptor, LinearIncFrameAllocator, is_usable, page_size, allocate_frame_from_descriptor,
  next_descriptor, allocate_frame,
}
use miniature.BootFrames.Tries.{Keeps, AlignsDown, IsWhole, IsUsable, IsAligned, Tried, try-Tried}

module _ (P : Descriptor → Type 0) where
  abbrev pub Known : Descriptor → Type 0
  Known d = P d × IsWhole d

  abbrev pub Current : Option Descriptor → Type 0
  Current none = Unit
  Current (some d) = Known d × (is_usable d.kind ≡ true)

  -- An allocator on a map of whole entries of which `P` holds, between two calls.
  pub record IsReady (a : LinearIncFrameAllocator) : Type 0 where
    pub aligned : IsAligned a.next_frame
    pub rest : All Known a.memory_map
    pub current : Current a.current_descriptor
    pub start : a.start_phys_addr ≤ a.next_frame

  -- What a call that returns has done: a frame of a usable entry at or above the next frame, which
  -- moves past it, or none.
  abbrev pub Grants : LinearIncFrameAllocator → Option ℕ → LinearIncFrameAllocator → Type 0
  Grants a none a' = a.next_frame ≤ a'.next_frame
  Grants a (some frame) a' =
      (a.next_frame ≤ frame) × (a'.next_frame ≡ frame + page_size) × IsUsable P frame

  abbrev pub Answers : LinearIncFrameAllocator → Option ℕ × LinearIncFrameAllocator → Type 0
  Answers a (r, a') = IsReady a' × (a'.start_phys_addr ≡ a.start_phys_addr) × Grants a r a'

  module _ (address containing_address : ℕ → Outcome ℕ) (keeps : Keeps address)
      (aligns : AlignsDown containing_address) where
    lift-Grants :
        (a b : LinearIncFrameAllocator) (r : Option ℕ) (a' : LinearIncFrameAllocator)
        → a.next_frame ≤ b.next_frame
        → Grants b r a'
        → Grants a r a'
    lift-Grants a b none a' le g = omega arith
    lift-Grants a b (some frame) a' le g = (omega (arith, g.0), g.1, g.2)

    abbrev Scans : List Descriptor → Option ℕ × LinearIncFrameAllocator → Type 0
    Scans ds out =
        (b : LinearIncFrameAllocator)
        → IsAligned b.next_frame
        → b.start_phys_addr ≤ b.next_frame
        → Current b.current_descriptor
        → next_descriptor address containing_address b ds ≡ done out
        → Answers b out

    -- After a try on the first entry: its frame, or the scan of the others.
    after_try :
        (a : LinearIncFrameAllocator) (d : Descriptor) (ds : List Descriptor) (r : Option ℕ)
        (moved : ℕ) (a' : LinearIncFrameAllocator) {out : Option ℕ × LinearIncFrameAllocator}
        → IsAligned a.next_frame
        → a.start_phys_addr ≤ a.next_frame
        → Current a.current_descriptor
        → Known d
        → is_usable d.kind ≡ true
        → All Known ds
        → a' ≡ record a { next_frame = moved }
        → Tried d a.next_frame r moved
        → elim r [
          | some frame ↦
              done (some frame, record a' { memory_map = ds; current_descriptor = some d })
          | none ↦ next_descriptor address containing_address a' ds
        ]
          ≡ done out
        → Scans ds out
        → Answers a out
    after_try a d ds none moved a' {out} n s c kd ok ks q t e scan =
        let e' = subst (λ b. next_descriptor address containing_address b ds ≡ done out) q e in
        let (ready, start, grants) =
          scan (record a { next_frame = moved }) t.1 (omega (arith, t.0)) c e' in
        (ready, start, lift-Grants a (record a { next_frame = moved }) out.0 out.1 t.0 grants)
    after_try a d ds (some frame) moved a' n s c kd ok ks q t e scan =
        subst (Answers a)
          (ap (λ b. (some frame, record b { memory_map = ds; current_descriptor = some d })) (sym q)
            ∙ done-injective e)
          (
            record {
              aligned = t.4;
              rest = ks;
              current = (kd, ok);
              start = omega (arith, t.0, t.1);
            },
            refl,
            (
              t.0,
              t.1,
              record { descriptor = d; known = kd.0; kind = ok; above = t.2; within = t.3 },
            ),
          )

    next_descriptor-Answers :
        (a : LinearIncFrameAllocator) (ds : List Descriptor)
        {out : Option ℕ × LinearIncFrameAllocator}
        → IsAligned a.next_frame
        → a.start_phys_addr ≤ a.next_frame
        → Current a.current_descriptor
        → All Known ds
        → next_descriptor address containing_address a ds ≡ done out
        → Answers a out
    unfolding next_descriptor
    next_descriptor-Answers a [] n s c k e =
        subst (Answers a) (done-injective e)
          (record { aligned = n; rest = tt; current = c; start = s }, refl, omega arith)
    next_descriptor-Answers a (d ∷ ds) n s c (kd, ks) e = elim (Bool-cases (is_usable d.kind)) [
      | inr reserved ↦ next_descriptor-Answers a ds n s c ks (rw (next_descriptor, reserved) at e)
      | inl ok ↦
          let ((r, a'), e₁, e₂) =
            >>=-eq-done (allocate_frame_from_descriptor address containing_address a d) _
              (rw (next_descriptor, ok) at e) in
          let (moved, q, t) = try-Tried address containing_address keeps aligns a d kd.1 n e₁ in
          after_try a d ds r moved a' n s c kd ok ks q t e₂
            (λ b n' s' c' e'. next_descriptor-Answers b ds n' s' c' ks e')
    ]

    after_current :
        (a : LinearIncFrameAllocator) (d : Descriptor) (r : Option ℕ) (moved : ℕ)
        (a' : LinearIncFrameAllocator) {out : Option ℕ × LinearIncFrameAllocator}
        → IsReady a
        → Known d
        → is_usable d.kind ≡ true
        → a.current_descriptor ≡ some d
        → a' ≡ record a { next_frame = moved }
        → Tried d a.next_frame r moved
        → elim r [
          | some frame ↦ done (some frame, a')
          | none ↦
              next_descriptor address containing_address
                (record a' { current_descriptor = none })
                a'.memory_map
        ]
          ≡ done out
        → Answers a out
    after_current a d none moved a' {out} h kd ok c q t e =
        let a'' : LinearIncFrameAllocator = record a {
          next_frame = moved;
          current_descriptor = none;
        } in
        let e' : next_descriptor address containing_address a'' a.memory_map ≡ done out =
          subst
            (λ b.
              next_descriptor address containing_address (record b { current_descriptor = none })
                b.memory_map
              ≡ done out)
            q e in
        let (ready, start, grants) =
          next_descriptor-Answers a'' a.memory_map t.1 (omega (arith, t.0, h.start)) tt h.rest e' in
        (ready, start, lift-Grants a a'' out.0 out.1 t.0 grants)
    after_current a d (some frame) moved a' h kd ok c q t e =
        subst (Answers a) (ap (λ b. (some frame, b)) (sym q) ∙ done-injective e) (
          record {
            aligned = t.4;
            rest = h.rest;
            current = h.current;
            start = omega (arith, t.0, t.1, h.start);
          },
          refl,
          (t.0, t.1, record { descriptor = d; known = kd.0; kind = ok; above = t.2; within = t.3 }),
        )

    -- A call of a ready allocator, if it returns: the frame is new, whole and inside of a usable
    -- entry of the memory map, or there is none; the allocator is ready for the next call.
    pub allocate_frame-Answers :
        (a : LinearIncFrameAllocator) {out : Option ℕ × LinearIncFrameAllocator}
        → IsReady a
        → allocate_frame address containing_address a ≡ done out
        → Answers a out
    unfolding allocate_frame
    allocate_frame-Answers a {out} h e = go a.current_descriptor refl
      where
        go : (o : Option Descriptor) → a.current_descriptor ≡ o → Answers a out
        go none q =
            next_descriptor-Answers a a.memory_map h.aligned h.start h.current h.rest
              (rw (allocate_frame, q) at e)
        go (some d) q =
            let (kd, ok) : Current (some d) = subst Current q h.current in
            let ((r, a'), e₁, e₂) =
              >>=-eq-done (allocate_frame_from_descriptor address containing_address a d) _
                (rw (allocate_frame, q) at e) in
            let (moved, s, t) =
              try-Tried address containing_address keeps aligns a d kd.1 h.aligned e₁ in
            after_current a d r moved a' h kd ok q s t e₂
