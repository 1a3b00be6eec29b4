-- ===== src/KernelLoader/Pages.antt =====
-- What the kernel's pages show that are mapped to the frames of its file, and to new ones.
use miniature.Base.{
  ℕ, zero, suc, ◌+◌, ◌-◌, ◌≡◌, ◌≢◌, refl, sym, ap, ◌∙◌, subst, true, false, inl, inr, [], some,
  done, or_panic, >>=-eq-done, done-injective, arith,
}
use mathlib.Core.Bool.{true≢false}
use miniature.Loader.{PtFlags, TranslateResult, mapped, Mapper, zero_from}
use miniature.Loader.Remap.{IsMapper, shown, same_or_ne}
use miniature.Loader.Bytes.{or_panic-done}
use miniature.Loader.Segment.Fresh.{
  zero_from-FillsOnly, among, among-none, among-bounds, zeroed, Maps, filled-Maps,
}
use miniature.Loader.Segment.Pages.{next_index, KeepsOut, Shows, Shows-first, Shows-next}
use miniature.KernelLoader.{Image, with_page_table, map_file_frames, map_zeroed, map_bss_pages}
use miniature.KernelLoader.Files.{space, Intact, out, Intact-fill, with_page_table-done}

module _ {S : Type 0} (m : Mapper S) (law : IsMapper m) (first n : ℕ) (bytes : ℕ → ℕ → ℕ) where
  -- A page without the mark is mapped to any frame.
  mapped-Intact :
      (im : Image S) (page frame : ℕ) (flags : PtFlags) (s t : S)
      → flags.bit_9 ≡ false
      → ((q : ℕ) → m.translate s q ≡ m.translate im.page_table q)
      → ((p f : ℕ) (fl : PtFlags)
          → m.translate im.page_table p ≡ mapped f fl
          → fl.bit_9 ≡ true
          → f ≢ frame)
      → m.map_to s page frame flags ≡ some t
      → Intact m first n bytes im
      → Intact m first n bytes (record im { page_table = t })
  mapped-Intact im page frame flags s t plain same_table apart u h =
      let at = law.map-same s t page frame flags u in
      let there : (q : ℕ) → q ≢ page → m.translate t q ≡ m.translate im.page_table q =
        λ q ne. law.map-other s t page q frame flags u ne ∙ same_table q in
      let old : (p f : ℕ) (fl : PtFlags)
          → m.translate t p ≡ mapped f fl
          → fl.bit_9 ≡ true
          → (p ≢ page) =
        λ p f fl is b same. unmarked (m.translate t p) is (ap (m.translate t) same ∙ at) b plain in
      record {
        owns = λ p f fl is b q g fl' ne is'. elim (same_or_ne q page) [
          | inl same ↦ λ both.
              apart p f fl (sym (there p (old p f fl is b)) ∙ is) b
                (sym both ∙ frame_is (m.translate t q) is' (ap (m.translate t) same ∙ at))
          | inr away ↦
              h.owns p f fl (sym (there p (old p f fl is b)) ∙ is) b q g fl' ne
                (sym (there q away) ∙ is')
        ];
        outside = λ p f fl is b. h.outside p f fl (sym (there p (old p f fl is b)) ∙ is) b;
        kept = h.kept;
      }
    where
      unmarked :
          (r : TranslateResult) {f g : ℕ} {fl fl' : PtFlags}
          → r ≡ mapped f fl
          → r ≡ mapped g fl'
          → fl.bit_9 ≡ true
          → fl'.bit_9 ≡ false
          → ⊥
      unmarked r {fl = fl} {fl' = fl'} is is' b b' =
          let same : fl ≡ fl' = cc in true≢false (sym b ∙ ap PtFlags.bit_9 same ∙ b')

      frame_is :
          (r : TranslateResult) {f g : ℕ} {fl fl' : PtFlags}
          → r ≡ mapped f fl
          → r ≡ mapped g fl'
          → f ≡ g
      frame_is r is is' = cc

  -- The frames that are mapped are the file's.
  pub map_file_frames-Shows :
      (im : Image S) (page frame count : ℕ) (flags : PtFlags) {im' : Image S}
      → flags.bit_9 ≡ false
      → ((f : ℕ) → among frame count f ≡ true → among first n f ≡ true)
      → Intact m first n bytes im
      → map_file_frames m im page frame flags count ≡ done im'
      → Intact m first n bytes im'
        × Shows m law
            (space im)
            page
            count
            (λ q offset. im.memory (frame + (q - page)) offset)
            (space im')
  unfolding map_file_frames
  map_file_frames-Shows im page frame zero flags {im'} plain in_file h e =
      let is = done-injective e in
      (
        subst (Intact m first n bytes) is h,
        subst
            (λ im'.
              Shows m law (space im) page 0 (λ q offset. im.memory (frame + (q - page)) offset)
                (space im'))
            is (h.owns, λ q offset. rw (among-none page q) refl),
      )
  map_file_frames-Shows im page frame (suc count) flags {im'} plain in_file h e =
      let (im₁, e₁, f₁) =
        >>=-eq-done (with_page_table m im (m.map_to im.page_table page frame flags)) _ e in
      let (t, u, is) = with_page_table-done m im (m.map_to im.page_table page frame flags) e₁ in
      let h₁ =
        mapped-Intact im page frame flags im.page_table t plain (λ q. refl)
          (λ p f fl at b same. true≢false (
            sym (in_file frame (starts frame count))
            ∙ ap (among first n) (sym same)
            ∙ h.outside p f fl at b))
          u h in
      let (h', shows) =
        map_file_frames-Shows (record im { page_table = t }) (page + 1) (frame + 1) count flags
          plain (λ f a. in_file f (later frame count f a)) h₁
          (subst (λ s. map_file_frames m s (page + 1) (frame + 1) flags count ≡ done im') (sym is)
            f₁) in
      (
        h',
        Shows-first m law (space im) (space (record im { page_table = t })) (space im') page count _
            _
            (λ offset.
              rw (law.map-same im.page_table t page frame flags u)
                (ap (λ f. some (im.memory f offset)) (first_frame frame page)))
            (λ q offset ne.
              ap (λ r. shown im.memory r offset)
                (law.map-other im.page_table t page q frame flags u ne))
            (λ q offset a.
              ap (λ f. im.memory f offset) (next_index frame page q (among-bounds _ _ q a).0))
            shows,
      )
    where
      starts : (frame count : ℕ) → among frame (suc count) frame ≡ true
      starts frame count = ground arith

      later :
          (frame count f : ℕ) → among (frame + 1) count f ≡ true → among frame (suc count) f ≡ true
      later frame count f a = ground arith

      first_frame : (frame page : ℕ) → frame ≡ frame + (page - page)
      first_frame frame page = omega arith

  map_zeroed-Maps :
      (im : Image S) (page : ℕ) (flags : PtFlags) {im' : Image S}
      → flags.bit_9 ≡ false
      → KeepsOut m law first n
      → Intact m first n bytes im
      → map_zeroed m im page flags ≡ done im'
      → Intact m first n bytes im'
        × Maps m (space im) page (λ memory frame. zero_from memory frame 0) (space im')
  unfolding map_zeroed
  map_zeroed-Maps im page flags {im'} plain keeps h e =
      let (frame, e₁, f₁) = >>=-eq-done (or_panic (m.frame_alloc im.page_table).0) _ e in
      let a = or_panic-done (m.frame_alloc im.page_table).0 e₁ in
      let s = (m.frame_alloc im.page_table).1 in
      let (t, u, is) =
        with_page_table-done m (record im { page_table = s; memory = zero_from im.memory frame 0 })
          (m.map_to s page frame flags) f₁ in
      let h₁ =
        mapped-Intact im page frame flags s t plain (λ q. law.alloc-keeps im.page_table q)
          (λ p f fl at b. law.alloc-new im.page_table p frame f fl a at) u h in
      (
        subst (Intact m first n bytes) is (
            Intact-fill m law first n bytes (record im { page_table = t })
              (λ memory frame. zero_from memory frame 0) frame (zero_from-FillsOnly 0)
              (out m law first n bytes frame (keeps im.page_table frame a)) h₁),
        subst (λ im'. Maps m (space im) page (λ memory frame. zero_from memory frame 0) (space im'))
            is
            (filled-Maps m law (space im) page frame flags
              (λ memory frame. zero_from memory frame 0) t [] (zero_from-FillsOnly 0) plain h.owns a
              u),
      )

  pub map_bss_pages-Shows :
      (im : Image S) (page count : ℕ) (flags : PtFlags) {im' : Image S}
      → flags.bit_9 ≡ false
      → KeepsOut m law first n
      → Intact m first n bytes im
      → map_bss_pages m im page flags count ≡ done im'
      → Intact m first n bytes im' × Shows m law (space im) page count (λ q offset. 0) (space im')
  unfolding map_bss_pages
  map_bss_pages-Shows im page zero flags plain keeps h e =
      let is = done-injective e in
      (
        subst (Intact m first n bytes) is h,
        subst (λ im'. Shows m law (space im) page 0 (λ q offset. 0) (space im')) is
            (h.owns, λ q offset. rw (among-none page q) refl),
      )
  map_bss_pages-Shows im page (suc count) flags {im'} plain keeps h e =
      let (im₁, e₁, f₁) = >>=-eq-done (map_zeroed m im page flags) _ e in
      let (h₁, maps) = map_zeroed-Maps im page flags plain keeps h e₁ in
      let (h', shows) = map_bss_pages-Shows im₁ (page + 1) count flags plain keeps h₁ f₁ in
      (
        h',
        Shows-next m law (space im) page count (λ memory frame. zero_from memory frame 0)
            (space im₁) (space im') (λ q offset. 0) (λ q offset. 0) maps
            (λ offset. zeroed im.memory maps.frame offset) (λ q offset a. refl) shows,
      )
