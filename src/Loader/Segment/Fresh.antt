-- ===== src/Loader/Segment/Fresh.antt =====
-- What a page shows that is mapped to a new frame, and the pages of a range.
use miniature.Base.{
  ℕ, suc, ◌+◌, ◌≤◌, ◌<◌, ◌≡◌, ◌≢◌, refl, sym, ap, ◌∙◌, subst, Bool, true, false, ◌&&◌, inl, inr,
  List, some, Option-cases, ltb, leb, done, done-injective, arith,
}
use mathlib.Core.Bool.{true≢false}
use miniature.Loader.{
  PtFlags, TranslateResult, mapped, mapped_large, not_mapped, Mapper, AddrSpace, copy_frame,
  zero_from, raw_map_to, push_tracked_frame,
}
use miniature.Loader.Remap.{IsMapper, shown, view, MarksOwn, ==_self, ==_ne, same_or_ne}
use miniature.Loader.Segment.{map_new}

-- The change of the memory is in one frame.
abbrev pub FillsOnly : ((ℕ → ℕ → ℕ) → ℕ → ℕ → ℕ → ℕ) → Type 0
FillsOnly fill =
    (memory : ℕ → ℕ → ℕ) (new frame offset : ℕ)
    → frame ≢ new
    → fill memory new frame offset ≡ memory frame offset

pub copy_frame-FillsOnly : (from : ℕ) → FillsOnly (λ memory frame. copy_frame memory from frame)
copy_frame-FillsOnly from memory new frame offset ne = rw (==_ne frame new ne) refl

pub zero_from-FillsOnly : (start : ℕ) → FillsOnly (λ memory frame. zero_from memory frame start)
zero_from-FillsOnly start memory new frame offset ne = rw (==_ne frame new ne) refl

pub shown-fill :
    (fill : (ℕ → ℕ → ℕ) → ℕ → ℕ → ℕ → ℕ) (memory : ℕ → ℕ → ℕ) (new offset : ℕ) (t : TranslateResult)
    → FillsOnly fill
    → ((g : ℕ) (fl : PtFlags) → t ≡ mapped g fl → g ≢ new)
    → shown (fill memory new) t offset ≡ shown memory t offset
shown-fill fill memory new offset (mapped g fl) only ne =
    ap some (only memory new g offset (ne g fl refl))
shown-fill fill memory new offset (mapped_large fl) only ne = refl
shown-fill fill memory new offset not_mapped only ne = refl

module _ {S : Type 0} (m : Mapper S) where
  pub record Maps (st : AddrSpace S) (page : ℕ) (fill : (ℕ → ℕ → ℕ) → ℕ → ℕ → ℕ → ℕ)
      (st' : AddrSpace S) : Type 0 where
    pub marks : MarksOwn m st'
    pub frame : ℕ
    pub source : S
    pub is_new : (m.frame_alloc source).0 ≡ some frame
    pub memory : (f offset : ℕ) → st'.memory f offset ≡ fill st.memory frame f offset
    pub here : (offset : ℕ) → view m st' page offset ≡ some (fill st.memory frame frame offset)
    pub other : (q offset : ℕ) → q ≢ page → view m st' q offset ≡ view m st q offset

module _ {S : Type 0} (m : Mapper S) (law : IsMapper m) where
  frame_of :
      (t : TranslateResult) {f g : ℕ} {fl fl' : PtFlags}
      → t ≡ mapped f fl
      → t ≡ mapped g fl'
      → (f ≡ g) × (fl ≡ fl')
  frame_of t e h = (cc, cc)

  map_new-done :
      (st : AddrSpace S) (page : ℕ) (flags : PtFlags) (fill : (ℕ → ℕ → ℕ) → ℕ → ℕ → ℕ → ℕ)
      {st' : AddrSpace S}
      → map_new m st page flags fill ≡ done st'
      → (frame : ℕ) × (t : S) × ((m.frame_alloc st.page_table).0 ≡ some frame)
        × (m.map_to
              ((m.frame_alloc st.page_table).1)
              page
              frame
              (record flags { user_accessible = true })
            ≡ some t)
        × (record (push_tracked_frame m st frame) { page_table = t; memory = fill st.memory frame }
            ≡ st')
  unfolding map_new raw_map_to
  map_new-done st page flags fill e = elim (Option-cases (m.frame_alloc st.page_table).0) [
    | inl u₁ ↦ let h = rw u₁ at e in cc
    | inr (frame, u₁) ↦
        elim (Option-cases (
          m.map_to ((m.frame_alloc st.page_table).1) page frame
            (record flags { user_accessible = true }))) [
              | inl u₂ ↦ let h = rw (u₁, u₂) at e in cc
              | inr (t, u₂) ↦ (frame, t, u₁, u₂, done-injective (rw (u₁, u₂) at e))
            ]
  ]

  -- A page that is mapped to a new frame, which is filled.
  pub filled-Maps :
      (st : AddrSpace S) (page frame : ℕ) (flags : PtFlags) (fill : (ℕ → ℕ → ℕ) → ℕ → ℕ → ℕ → ℕ)
      (t : S) (tracked : List ℕ)
      → FillsOnly fill
      → flags.bit_9 ≡ false
      → MarksOwn m st
      → (m.frame_alloc st.page_table).0 ≡ some frame
      → m.map_to ((m.frame_alloc st.page_table).1) page frame flags ≡ some t
      → Maps m st page fill (record {
        page_table = t;
        memory = fill st.memory frame;
        tracked_large_buffers = tracked;
      })
  filled-Maps st page frame flags fill t tracked only plain own u₁ u₂ =
      let s₁ = (m.frame_alloc st.page_table).1 in
      let there : (q : ℕ) → q ≢ page → m.translate t q ≡ m.translate st.page_table q =
        λ q ne. law.map-other s₁ t page q frame _ u₂ ne ∙ law.alloc-keeps st.page_table q in
      let at = law.map-same s₁ t page frame _ u₂ in
      record {
        marks = λ p f fl h b q g fl' ne h'. elim (same_or_ne p page) [
          | inl same ↦
              let is = (frame_of (m.translate t p) h (ap (m.translate t) same ∙ at)).1 in
              absurd (true≢false (sym b ∙ ap PtFlags.bit_9 is ∙ plain))
          | inr apart ↦ elim (same_or_ne q page) [
            | inl same ↦
                let is_new = (frame_of (m.translate t q) h' (ap (m.translate t) same ∙ at)).0 in
                λ both.
                  law.alloc-new st.page_table p frame f fl u₁ (sym (there p apart) ∙ h)
                    (sym both ∙ is_new)
            | inr away ↦ own p f fl (sym (there p apart) ∙ h) b q g fl' ne (sym (there q away) ∙ h')
          ]
        ];
        frame = frame;
        source = st.page_table;
        is_new = u₁;
        memory = λ f offset. refl;
        here = λ offset. rw at refl;
        other = λ q offset ne.
            shown-fill fill st.memory frame offset (m.translate t q) only
              (λ g fl h. law.alloc-new st.page_table q frame g fl u₁ (sym (there q ne) ∙ h))
            ∙ ap (λ t. shown st.memory t offset) (there q ne);
      }

  pub map_new-Maps :
      (st : AddrSpace S) (page : ℕ) (flags : PtFlags) (fill : (ℕ → ℕ → ℕ) → ℕ → ℕ → ℕ → ℕ)
      {st' : AddrSpace S}
      → FillsOnly fill
      → flags.bit_9 ≡ false
      → MarksOwn m st
      → map_new m st page flags fill ≡ done st'
      → Maps m st page fill st'
  map_new-Maps st page flags fill only plain own e =
      let (frame, t, u₁, u₂, is) = map_new-done st page flags fill e in
      subst (Maps m st page fill) is (
        filled-Maps st page frame (record flags { user_accessible = true }) fill t _ only plain own
          u₁ u₂)

pub zeroed : (memory : ℕ → ℕ → ℕ) (to offset : ℕ) → zero_from memory to 0 to offset ≡ 0
zeroed memory to offset = rw (==_self to, at_least offset) refl
  where
    at_least : (offset : ℕ) → leb 0 offset ≡ true
    at_least offset = ground arith

-- The page is one of `n` from `page` on.
abbrev pub among : ℕ → ℕ → ℕ → Bool
among page n q = leb page q && ltb q (page + n)

pub among-next : (page n q : ℕ) → q ≢ page → among (page + 1) n q ≡ among page (suc n) q
among-next page n q ne = ground arith

pub among-first :
    (page n : ℕ) → (among (page + 1) n page ≡ false) × (among page (suc n) page ≡ true)
among-first page n = (ground arith, ground arith)

pub among-none : (page q : ℕ) → among page 0 q ≡ false
among-none page q = ground arith

pub among-bounds : (page n q : ℕ) → among page n q ≡ true → (page ≤ q) × (q < page + n)
among-bounds page n q h = (ground arith, ground arith)
