-- ===== src/Loader/Remap.antt =====
-- What a page shows does not change when its frame is copied.
use miniature.Base.{
  ℕ, ◌+◌, ◌/◌, ◌≡◌, ◌≢◌, refl, sym, ap, ◌∙◌, subst, true, false, inl, inr, Bool-cases, Option-cases,
  List, Option, none, some, ◌==◌, ==_iff, ◌⊎◌, done, done-injective, arith,
}
use mathlib.Core.Option.{some-injective}
use miniature.Loader.{
  PtFlags, TranslateResult, mapped, mapped_large, not_mapped, Mapper, AddrSpace, copy_frame,
  push_tracked_frame, raw_map_to, raw_unmap, frame_alloc, remap_copied, copy_to_new,
  copy_translated, copy_page_and_remap,
}

-- The documented behaviour of a page table and of an allocator whose frames are new.
pub record IsMapper {S : Type 0} (m : Mapper S) : Type 0 where
  pub containing_address : (a : ℕ) → m.containing_address a ≡ a / 4096
  pub forward : (a n e : ℕ) → m.forward_checked a n ≡ some e → e ≡ a + n
  pub map-same :
      (s s' : S) (p f : ℕ) (fl : PtFlags)
      → m.map_to s p f fl ≡ some s'
      → m.translate s' p ≡ mapped f fl
  pub map-other :
      (s s' : S) (p q f : ℕ) (fl : PtFlags)
      → m.map_to s p f fl ≡ some s'
      → q ≢ p
      → m.translate s' q ≡ m.translate s q
  pub unmap-other :
      (s s' : S) (p q : ℕ) → m.unmap s p ≡ some s' → q ≢ p → m.translate s' q ≡ m.translate s q
  pub update-same :
      (s s' : S) (p f : ℕ) (fl fl' : PtFlags)
      → m.update_flags s p fl' ≡ some s'
      → m.translate s p ≡ mapped f fl
      → m.translate s' p ≡ mapped f fl'
  pub update-large :
      (s : S) (p : ℕ) (fl fl' : PtFlags)
      → m.translate s p ≡ mapped_large fl
      → m.update_flags s p fl' ≡ none
  pub update-other :
      (s s' : S) (p q : ℕ) (fl' : PtFlags)
      → m.update_flags s p fl' ≡ some s'
      → q ≢ p
      → m.translate s' q ≡ m.translate s q
  pub alloc-keeps : (s : S) (q : ℕ) → m.translate ((m.frame_alloc s).1) q ≡ m.translate s q
  pub alloc-new :
      (s : S) (p f g : ℕ) (fl : PtFlags)
      → (m.frame_alloc s).0 ≡ some f
      → m.translate s p ≡ mapped g fl
      → g ≢ f

abbrev pub shown : (ℕ → ℕ → ℕ) → TranslateResult → ℕ → Option ℕ
shown memory (mapped frame flags) offset = some (memory frame offset)
shown memory (mapped_large flags) offset = none
shown memory not_mapped offset = none

module _ {S : Type 0} (m : Mapper S) where
  -- The byte of a page that the program sees.
  abbrev pub view : AddrSpace S → ℕ → ℕ → Option ℕ
  view st page offset = shown st.memory (m.translate st.page_table page) offset

  -- No other page is mapped to the frame.
  abbrev pub Owns : AddrSpace S → ℕ → ℕ → Type 0
  Owns st page frame =
      (q g : ℕ) (fl : PtFlags) → q ≢ page → m.translate st.page_table q ≡ mapped g fl → g ≢ frame

  -- A page that has the mark owns its frame.
  abbrev pub MarksOwn : AddrSpace S → Type 0
  MarksOwn st =
      (p f : ℕ) (fl : PtFlags)
      → m.translate st.page_table p ≡ mapped f fl
      → fl.bit_9 ≡ true
      → Owns st p f

  pub record Remaps (st : AddrSpace S) (page frame : ℕ) (st' : AddrSpace S) : Type 0 where
    pub marks : MarksOwn st'
    pub owns : Owns st' page frame
    pub flags : PtFlags
    pub at : m.translate st'.page_table page ≡ mapped frame flags
    pub other : (q : ℕ) → q ≢ page → m.translate st'.page_table q ≡ m.translate st.page_table q
    pub views : (q offset : ℕ) → view st' q offset ≡ view st q offset

pub ==_self : (a : ℕ) → (a == a) ≡ true
==_self a = ground arith

pub ==_ne : (a b : ℕ) → a ≢ b → (a == b) ≡ false
==_ne a b ne = elim (Bool-cases (a == b)) [
  | inl same ↦ absurd (ne ((==_iff a b).0 same))
  | inr apart ↦ apart
]

pub same_or_ne : (a b : ℕ) → (a ≡ b) ⊎ (a ≢ b)
same_or_ne a b = ground arith

module _ {S : Type 0} (m : Mapper S) (law : IsMapper m) where
  frame-same :
      (t : TranslateResult) {f g : ℕ} {fl fl' : PtFlags}
      → t ≡ mapped f fl
      → t ≡ mapped g fl'
      → f ≡ g
  frame-same t e h = cc

  -- The flags of a page whose frame has been copied.
  abbrev remapped : PtFlags → PtFlags
  remapped flags = record flags { user_accessible = true; bit_9 = true }

  abbrev after_copy : AddrSpace S → ℕ → ℕ → S → AddrSpace S
  after_copy st curr new t = record (push_tracked_frame m st new) {
    page_table = t;
    memory = copy_frame st.memory curr new;
  }

  remap_copied-done :
      (st : AddrSpace S) (page curr new : ℕ) (flags : PtFlags) {r : Option ℕ} {st' : AddrSpace S}
      → remap_copied m st page curr flags new ≡ done (r, st')
      → (t₁ : S) × (t₂ : S) × (m.unmap st.page_table page ≡ some t₁)
        × (m.map_to t₁ page new (remapped flags) ≡ some t₂)
        × (r ≡ some new)
        × (after_copy st curr new t₂ ≡ st')
  unfolding remap_copied raw_unmap raw_map_to
  remap_copied-done st page curr new flags e = elim (Option-cases (m.unmap st.page_table page)) [
    | inl u₁ ↦ let h = rw u₁ at e in cc
    | inr (t₁, u₁) ↦ elim (Option-cases (m.map_to t₁ page new (remapped flags))) [
      | inl u₂ ↦ let h = rw (u₁, u₂) at e in cc
      | inr (t₂, u₂) ↦
          let h = done-injective (rw (u₁, u₂) at e) in
          (
            t₁,
            t₂,
            u₁,
            u₂,
            sym (ap (λ (p : Option ℕ × AddrSpace S). p.0) h),
            ap (λ (p : Option ℕ × AddrSpace S). p.1) h,
          )
    ]
  ]

  shown-copy :
      (memory : ℕ → ℕ → ℕ) (from to offset : ℕ) (t : TranslateResult)
      → ((g : ℕ) (fl : PtFlags) → t ≡ mapped g fl → g ≢ to)
      → shown (copy_frame memory from to) t offset ≡ shown memory t offset
  shown-copy memory from to offset (mapped g fl) ne = rw (==_ne g to (ne g fl refl)) refl
  shown-copy memory from to offset (mapped_large fl) ne = refl
  shown-copy memory from to offset not_mapped ne = refl

  -- A page that is mapped to a new frame with a copy of its bytes. The tables are the one after the
  -- allocation, the one without the page and the last.
  pub copied-Remaps :
      (st : AddrSpace S) (t₀ t₁ t₂ : S) (page curr new : ℕ) (flags flags' : PtFlags)
      (tracked : List ℕ)
      → MarksOwn m st
      → m.translate st.page_table page ≡ mapped curr flags
      → ((q : ℕ) → m.translate t₀ q ≡ m.translate st.page_table q)
      → ((q g : ℕ) (fl : PtFlags) → m.translate st.page_table q ≡ mapped g fl → g ≢ new)
      → m.unmap t₀ page ≡ some t₁
      → m.map_to t₁ page new flags' ≡ some t₂
      → Remaps m st page new (record {
        page_table = t₂;
        memory = copy_frame st.memory curr new;
        tracked_large_buffers = tracked;
      })
  copied-Remaps st t₀ t₁ t₂ page curr new flags flags' tracked own at keeps fresh u₁ u₂ =
      let here : m.translate t₂ page ≡ mapped new flags' = law.map-same t₁ t₂ page new flags' u₂ in
      let there : (q : ℕ) → q ≢ page → m.translate t₂ q ≡ m.translate st.page_table q = λ q ne.
        law.map-other t₁ t₂ page q new flags' u₂ ne
        ∙ law.unmap-other t₀ t₁ page q u₁ ne
        ∙ keeps q in
      let owned : (q g : ℕ) (fl : PtFlags) → q ≢ page → m.translate t₂ q ≡ mapped g fl → g ≢ new =
        λ q g fl ne t. fresh q g fl (sym (there q ne) ∙ t) in
      record {
        marks = λ p f fl t b q g fl' ne t'. elim (same_or_ne p page) [
          | inl same ↦
              let is_new = frame-same (m.translate t₂ p) t (ap (m.translate t₂) same ∙ here) in
              λ both. owned q g fl' (λ at_page. ne (at_page ∙ sym same)) t' (both ∙ is_new)
          | inr apart ↦ elim (same_or_ne q page) [
            | inl same ↦
                let is_new = frame-same (m.translate t₂ q) t' (ap (m.translate t₂) same ∙ here) in
                λ both. owned p f fl apart t (sym both ∙ is_new)
            | inr away ↦ own p f fl (sym (there p apart) ∙ t) b q g fl' ne (sym (there q away) ∙ t')
          ]
        ];
        owns = owned;
        flags = flags';
        at = here;
        other = there;
        views = λ q offset. elim (same_or_ne q page) [
          | inl same ↦
              subst
                (λ q.
                  shown (copy_frame st.memory curr new) (m.translate t₂ q) offset
                  ≡ shown st.memory (m.translate st.page_table q) offset)
                (sym same) (rw (here, at, ==_self new) refl)
          | inr apart ↦
              shown-copy st.memory curr new offset (m.translate t₂ q)
                (λ g fl t. owned q g fl apart t)
              ∙ ap (λ t. shown st.memory t offset) (there q apart)
        ];
      }

  abbrev allocated : AddrSpace S → AddrSpace S
  allocated st = (frame_alloc m st).1

  copy_to_new-Remaps :
      (st : AddrSpace S) (page curr frame : ℕ) (flags : PtFlags) (r : Option ℕ) {st' : AddrSpace S}
      → MarksOwn m st
      → m.translate st.page_table page ≡ mapped curr flags
      → (m.frame_alloc st.page_table).0 ≡ r
      → copy_to_new m st page curr flags (r, allocated st) ≡ done (some frame, st')
      → Remaps m st page frame st'
  copy_to_new-Remaps st page curr frame flags none own at a e = cc
  copy_to_new-Remaps st page curr frame flags (some new) {st'} own at a e =
      let (t₁, t₂, u₁, u₂, answer, is) = remap_copied-done (allocated st) page curr new flags e in
      subst (Remaps m st page frame) is (
        subst (λ f. Remaps m st page f (after_copy (allocated st) curr new t₂))
          (some-injective new frame (sym answer))
          (copied-Remaps st (allocated st).page_table t₁ t₂ page curr new flags (remapped flags) _
            own at (λ q. law.alloc-keeps st.page_table q)
            (λ q g fl t. law.alloc-new st.page_table q new g fl a t) u₁ u₂))

  -- A page whose frame has been copied, or that has the mark, owns the frame that is answered; it and
  -- every other page show the same bytes as before, and the other pages keep their frames.
  pub copy_page_and_remap-Remaps :
      (st : AddrSpace S) (page frame : ℕ) {st' : AddrSpace S}
      → MarksOwn m st
      → copy_page_and_remap m st page ≡ done (some frame, st')
      → Remaps m st page frame st'
  unfolding copy_page_and_remap remap_copied
  copy_page_and_remap-Remaps st page frame {st'} own e =
      by_translation (m.translate st.page_table page) refl e
    where
      by_translation :
          (t : TranslateResult)
          → m.translate st.page_table page ≡ t
          → copy_translated m st page t ≡ done (some frame, st')
          → Remaps m st page frame st'
      by_translation not_mapped at h = cc
      by_translation (mapped_large flags) at h = cc
      by_translation (mapped curr flags) at h = elim (Bool-cases flags.bit_9) [
        | inl marked ↦
            let is = done-injective (rw marked at h) in
            let same : curr ≡ frame =
              some-injective curr frame (ap (λ (p : Option ℕ × AddrSpace S). p.0) is) in
            subst (Remaps m st page frame) (ap (λ (p : Option ℕ × AddrSpace S). p.1) is) (
              subst (λ f. Remaps m st page f st) same
                (record {
                  marks = own;
                  owns = own page curr flags at marked;
                  flags = flags;
                  at = at;
                  other = λ q ne. refl;
                  views = λ q offset. refl;
                }))
        | inr shared ↦
            copy_to_new-Remaps st page curr frame flags (m.frame_alloc st.page_table).0 own at refl
              (rw shared at h)
      ]
