-- ===== src/BootFrames/Region.antt =====
-- The frames that the bootloader's allocator has handed out lie in the region that it reports.
use miniature.Base.{
  ℕ, zero, suc, ◌+◌, sub64, ◌≤◌, ◌≡◌, refl, sym, ◌∙◌, subst, List, [], ◌∷◌, Option, none, some,
  Outcome, done, ◌>>=◌, >>=-eq-done, done-injective, All, arith,
}
use miniature.Frames.{MemoryRegion}
use miniature.BootFrames.{
  Descriptor, LinearIncFrameAllocator, page_size, new_starting_at, new, allocate_frame,
  allocated_region,
}
use miniature.BootFrames.Tries.{Keeps, AlignsDown, IsUsable, sub64-done}
use miniature.BootFrames.Grants.{Known, IsReady, Answers, allocate_frame-Answers}

-- A number of calls, with the frames that were handed out.
unfoldable pub hand_out :
    (ℕ → Outcome ℕ)
    → (ℕ → Outcome ℕ)
    → LinearIncFrameAllocator
    → ℕ
    → Outcome (List ℕ × LinearIncFrameAllocator)
hand_out address containing_address a zero = done ([], a)
hand_out address containing_address a (suc n) = do
  (r, a') ← allocate_frame address containing_address a
  (frames, a'') ← hand_out address containing_address a' n
  done (elim r [ none ↦ frames | some frame ↦ frame ∷ frames ], a'')

module _ (P : Descriptor → Type 0) where
  -- The frames follow each other without overlap between two addresses, each in a usable entry.
  abbrev pub HandedOut : ℕ → ℕ → List ℕ → Type 0
  HandedOut from to [] = from ≤ to
  HandedOut from to (frame ∷ frames) =
      (from ≤ frame) × IsUsable P frame × HandedOut (frame + page_size) to frames

  HandedOut-mono :
      (lower from to : ℕ) (frames : List ℕ)
      → lower ≤ from
      → HandedOut from to frames
      → HandedOut lower to frames
  HandedOut-mono lower from to [] le h = omega arith
  HandedOut-mono lower from to (frame ∷ frames) le h = (omega (arith, h.0), h.1, h.2)

  join :
      (a : LinearIncFrameAllocator) (r : Option ℕ) (a' : LinearIncFrameAllocator) (to : ℕ)
      (frames : List ℕ)
      → Answers P a (r, a')
      → HandedOut a'.next_frame to frames
      → HandedOut a.next_frame to (elim r [ none ↦ frames | some frame ↦ frame ∷ frames ])
  join a none a' to frames g h = HandedOut-mono a.next_frame a'.next_frame to frames g.2 h
  join a (some frame) a' to frames (ready, start, (up, moved, usable)) h =
      (up, usable, subst (λ n. HandedOut n to frames) moved h)

  module _ (address containing_address : ℕ → Outcome ℕ) (keeps : Keeps address)
      (aligns : AlignsDown containing_address) where
    hand_out-HandedOut :
        (a : LinearIncFrameAllocator) (n : ℕ) {out : List ℕ × LinearIncFrameAllocator}
        → IsReady P a
        → hand_out address containing_address a n ≡ done out
        → HandedOut a.next_frame out.1.next_frame out.0
          × (out.1.start_phys_addr ≡ a.start_phys_addr)
          × IsReady P out.1
    unfolding hand_out
    hand_out-HandedOut a zero h e =
        subst
          (λ out.
            HandedOut a.next_frame out.1.next_frame out.0
            × (out.1.start_phys_addr ≡ a.start_phys_addr)
            × IsReady P out.1)
          (done-injective e) (omega arith, refl, h)
    hand_out-HandedOut a (suc n) h e =
        let ((r, a'), e₁, e₂) = >>=-eq-done (allocate_frame address containing_address a) _ e in
        let ((frames, a''), e₃, e₄) = >>=-eq-done (hand_out address containing_address a' n) _ e₂ in
        let g = allocate_frame-Answers P address containing_address keeps aligns a h e₁ in
        let (handed, start, ready) = hand_out-HandedOut a' n g.0 e₃ in
        subst
          (λ out.
            HandedOut a.next_frame out.1.next_frame out.0
            × (out.1.start_phys_addr ≡ a.start_phys_addr)
            × IsReady P out.1)
          (done-injective e₄) (join a r a' a''.next_frame frames g handed, start ∙ g.1, ready)

    -- From a new allocator on a memory map of whole pages, after any number of calls that return:
    -- the frames that were handed out do not overlap, each lies inside of a usable entry of the map
    -- (one with any property `P` that all entries have), and all lie in the region that the bootloader reports to the kernel as its own, which starts
    -- at the first megabyte.
    pub new-hand_out-allocated_region :
        (map : List Descriptor) (n : ℕ) {a a' : LinearIncFrameAllocator} {frames : List ℕ}
        {region : MemoryRegion}
        → All (Known P) map
        → new address containing_address map ≡ done a
        → hand_out address containing_address a n ≡ done (frames, a')
        → allocated_region a' ≡ done region
        → (region.start ≡ 0x100000) × HandedOut region.start (region.start + region.length) frames
    unfolding new allocated_region
    new-hand_out-allocated_region map n {a} {a'} {frames} {region} k e h r =
        let (start, e₁, e₂) = >>=-eq-done (address 0x100000) _ e in
        let (frame, e₃, e₄) = >>=-eq-done (containing_address start) _ e₂ in
        let at : frame ≡ 0x100000 = omega (arith, keeps _ _ e₁, aligns _ _ e₃) in
        let ready : IsReady P (new_starting_at frame map) = record {
          aligned = (256, at);
          rest = k;
          current = tt;
          start = omega arith;
        } in
        let (handed, from, ready') = hand_out-HandedOut (new_starting_at frame map) n ready (
          subst (λ b. hand_out address containing_address b n ≡ done (frames, a'))
            (sym (done-injective e₄)) h) in
        let (length, e₅, e₆) = >>=-eq-done (sub64 a'.next_frame a'.start_phys_addr) _ r in
        let size = sub64-done a'.next_frame a'.start_phys_addr e₅ in
        subst (λ g. (g.start ≡ 0x100000) × HandedOut g.start (g.start + g.length) frames)
          (done-injective e₆)
          (
            from ∙ at,
            subst (λ to. HandedOut a'.start_phys_addr to frames) (omega (arith, size))
                (subst (λ s. HandedOut s a'.next_frame frames) (sym from) handed),
          )
