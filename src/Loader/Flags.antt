-- ===== src/Loader/Flags.antt =====
-- The flags of a range of pages are changed, and nothing else.
use miniature.Base.{
  ℕ, zero, suc, ◌+◌, ◌≡◌, refl, sym, ap, ◌∙◌, subst, false, inl, inr, some, Option-cases,
  if◌then◌else◌, done, >>=-eq-done, done-injective,
}
use mathlib.Core.Bool.{true≢false}
use miniature.Loader.{
  TranslateResult, not_mapped, mapped_large, PtFlags, mapped, Mapper, AddrSpace, masked,
  raw_update_flags, update_page_flag,
}
use miniature.Loader.Remap.{IsMapper, view, shown, same_or_ne}
use miniature.Loader.Segment.Fresh.{among, among-next, among-first, among-none}

module _ {S : Type 0} (m : Mapper S) (law : IsMapper m) where
  pub record Masks (st : AddrSpace S) (page n : ℕ) (mask : PtFlags → PtFlags) (st' : AddrSpace S)
      : Type 0 where
    pub memory : st'.memory ≡ st.memory
    pub masked :
        (q f : ℕ) (fl : PtFlags)
        → m.translate st.page_table q ≡ mapped f fl
        → m.translate st'.page_table q ≡ mapped f (if among page n q then mask fl else fl)
    pub others :
        (q : ℕ)
        → among page n q ≡ false
        → m.translate st'.page_table q ≡ m.translate st.page_table q

  pub update_one-done :
      (st : AddrSpace S) (page : ℕ) (flags : PtFlags) {st' : AddrSpace S}
      → raw_update_flags m st page flags ≡ done st'
      → (t : S) × (m.update_flags st.page_table page flags ≡ some t)
        × (record st { page_table = t } ≡ st')
  unfolding raw_update_flags
  update_one-done st page flags e = elim (Option-cases (m.update_flags st.page_table page flags)) [
    | inl u ↦ let h = rw u at e in cc
    | inr (t, u) ↦ (t, u, done-injective (rw u at e))
  ]

  -- The first page, then the others.
  Masks-next :
      (st : AddrSpace S) (page n : ℕ) (mask : PtFlags → PtFlags) (new : PtFlags) (t : S)
      (st' : AddrSpace S)
      → masked mask (m.translate st.page_table page) ≡ done new
      → m.update_flags st.page_table page new ≡ some t
      → Masks (record st { page_table = t }) (page + 1) n mask st'
      → Masks st page (suc n) mask st'
  Masks-next st page n mask new t st' e u h = record {
    memory = h.memory;
    masked = λ q f fl at. elim (same_or_ne q page) [
      | inl same ↦
          let at_page = ap (m.translate st.page_table) (sym same) ∙ at in
          let new_is : new ≡ mask fl = done-injective (sym (rw at_page at e)) in
          subst
            (λ q.
              m.translate st'.page_table q
              ≡ mapped f (if among page (suc n) q then mask fl else fl))
            (sym same)
            (rw (among-first page n).1 (
              h.masked page f new (law.update-same st.page_table t page f fl new u at_page)
              ∙ rw (among-first page n).0 (ap (mapped f) new_is)))
      | inr apart ↦
          rw (sym (among-next page n q apart))
            (h.masked q f fl (law.update-other st.page_table t page q new u apart ∙ at))
    ];
    others = λ q out. elim (same_or_ne q page) [
      | inl same ↦
          absurd
            (true≢false (sym (among-first page n).1 ∙ ap (among page (suc n)) (sym same) ∙ out))
      | inr apart ↦
          h.others q (among-next page n q apart ∙ out)
          ∙ law.update-other st.page_table t page q new u apart
    ];
  }

  -- When it returns: the pages of the range that are mapped to a frame keep it, with the flags
  -- masked; the other pages and the memory are as they were.
  pub update_page_flag-Masks :
      (st : AddrSpace S) (page n : ℕ) (mask : PtFlags → PtFlags) {st' : AddrSpace S}
      → update_page_flag m st page n mask ≡ done st'
      → Masks st page n mask st'
  unfolding update_page_flag
  update_page_flag-Masks st page zero mask e =
      subst (Masks st page 0 mask) (done-injective e) (record {
        memory = refl;
        masked = λ q f fl at. rw (among-none page q) at;
        others = λ q out. refl;
      })
  update_page_flag-Masks st page (suc n) mask {st'} e =
      let (new, e₁, f₁) = >>=-eq-done (masked mask (m.translate st.page_table page)) _ e in
      let (st₁, e₂, f₂) = >>=-eq-done (raw_update_flags m st page new) _ f₁ in
      let (t, u, is) = update_one-done st page new e₂ in
      Masks-next st page n mask new t st' e₁ u (
        update_page_flag-Masks (record st { page_table = t }) (page + 1) n mask
          (subst (λ s. update_page_flag m s (page + 1) n mask ≡ done st') (sym is) f₂))

  -- One page shows the same bytes with its new flags.
  view_one :
      (st : AddrSpace S) (page : ℕ) (mask : PtFlags → PtFlags) (new : PtFlags) (t : S)
      → masked mask (m.translate st.page_table page) ≡ done new
      → m.update_flags st.page_table page new ≡ some t
      → (q offset : ℕ) → view m (record st { page_table = t }) q offset ≡ view m st q offset
  view_one st page mask new t e u q offset = elim (same_or_ne q page) [
    | inr apart ↦
        ap (λ r. shown st.memory r offset) (law.update-other st.page_table t page q new u apart)
    | inl same ↦
        subst (λ q. view m (record st { page_table = t }) q offset ≡ view m st q offset) (sym same)
          (by_old (m.translate st.page_table page) refl)
  ]
    where
      by_old :
          (r : TranslateResult)
          → m.translate st.page_table page ≡ r
          → shown st.memory (m.translate t page) offset
            ≡ shown st.memory (m.translate st.page_table page) offset
      by_old not_mapped is = let h = rw is at e in cc
      by_old (mapped_large old) is = let h = law.update-large st.page_table page old new is in cc
      by_old (mapped f old) is =
          ap (λ r. shown st.memory r offset) (law.update-same st.page_table t page f old new u is)
          ∙ sym (ap (λ r. shown st.memory r offset) is)

  -- When it returns, every page shows the bytes that it showed.
  pub update_page_flag-view :
      (st : AddrSpace S) (page n : ℕ) (mask : PtFlags → PtFlags) {st' : AddrSpace S}
      → update_page_flag m st page n mask ≡ done st'
      → (q offset : ℕ) → view m st' q offset ≡ view m st q offset
  unfolding update_page_flag
  update_page_flag-view st page zero mask e q offset =
      ap (λ s. view m s q offset) (sym (done-injective e))
  update_page_flag-view st page (suc n) mask {st'} e q offset =
      let (new, e₁, f₁) = >>=-eq-done (masked mask (m.translate st.page_table page)) _ e in
      let (st₁, e₂, f₂) = >>=-eq-done (raw_update_flags m st page new) _ f₁ in
      let (t, u, is) = update_one-done st page new e₂ in
      update_page_flag-view st₁ (page + 1) n mask f₂ q offset
      ∙ ap (λ s. view m s q offset) (sym is)
      ∙ view_one st page mask new t e₁ u q offset
