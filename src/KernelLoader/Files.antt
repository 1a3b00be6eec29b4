-- ===== src/KernelLoader/Files.antt =====
-- The frames of the kernel's file are mapped, but never written: what a page is written through is a copy.
use miniature.Base.{
  ℕ, zero, suc, ◌+◌, ◌<◌, ◌≤◌, ◌≡◌, ◌≢◌, refl, sym, ap, ◌∙◌, subst, true, false, inl, inr, ◌⊎◌,
  Bool-cases, [], Option, none, some, done, >>=-eq-done, done-injective, arith,
}
use mathlib.Core.Option.{some-injective}
use mathlib.Core.Bool.{true≢false}
use miniature.Loader.{
  PtFlags, TranslateResult, mapped, mapped_large, not_mapped, Mapper, AddrSpace, copy_frame, masked,
}
use miniature.Loader.Remap.{IsMapper, MarksOwn, Remaps, copied-Remaps, same_or_ne}
use miniature.Loader.Segment.Fresh.{FillsOnly, copy_frame-FillsOnly, among}
use miniature.Loader.Segment.Pages.{KeepsOut}
use miniature.Loader.Program.Marks.{KeepsMarks, update_one, update_one-MarksOwn}
use miniature.KernelLoader.{
  Image, with_page_table, remap_to_copy, allocate_copy, copy_mapped, copy_page_and_remap,
  update_page_flag,
}

-- The kernel's table and memory, as the loader of programs has them.
abbrev pub space : {S : Type 0} → Image S → AddrSpace S
space im = record { page_table = im.page_table; memory = im.memory; tracked_large_buffers = [] }

module _ {S : Type 0} (m : Mapper S) where
  -- `bytes` is what the frames of the file, `n` from `first` on, have to keep.
  pub record Intact (first n : ℕ) (bytes : ℕ → ℕ → ℕ) (im : Image S) : Type 0 where
    pub owns : MarksOwn m (space im)
    pub outside :
        (p f : ℕ) (fl : PtFlags)
        → m.translate im.page_table p ≡ mapped f fl
        → fl.bit_9 ≡ true
        → among first n f ≡ false
    pub kept : (f offset : ℕ) → among first n f ≡ true → im.memory f offset ≡ bytes f offset

  -- A page whose frame has been copied, if need be.
  pub record Copied (first n : ℕ) (bytes : ℕ → ℕ → ℕ) (im : Image S) (page frame : ℕ)
      (im' : Image S) : Type 0 where
    pub remaps : Remaps m (space im) page frame (space im')
    pub intact : Intact first n bytes im'
    pub apart : among first n frame ≡ false

module _ {S : Type 0} (m : Mapper S) where
  pub with_page_table-done :
      (im : Image S) (t : Option S) {im' : Image S}
      → with_page_table m im t ≡ done im'
      → (t' : S) × (t ≡ some t') × (record im { page_table = t' } ≡ im')
  with_page_table-done im none e = cc
  with_page_table-done im (some t) e = (t, refl, done-injective e)

module _ {S : Type 0} (m : Mapper S) (law : IsMapper m) (first n : ℕ) (bytes : ℕ → ℕ → ℕ) where
  pub out : (f : ℕ) → (f < first) ⊎ (first + n ≤ f) → among first n f ≡ false
  out f h = ground arith

  -- A write outside of the file.
  pub Intact-fill :
      (im : Image S) (fill : (ℕ → ℕ → ℕ) → ℕ → ℕ → ℕ → ℕ) (frame : ℕ)
      → FillsOnly fill
      → among first n frame ≡ false
      → Intact m first n bytes im
      → Intact m first n bytes (record im { memory = fill im.memory frame })
  Intact-fill im fill frame only apart h = record {
    owns = h.owns;
    outside = h.outside;
    kept = λ f offset a.
        only im.memory frame f offset (λ same. true≢false (sym a ∙ ap (among first n) same ∙ apart))
        ∙ h.kept f offset a;
  }

  remap_to_copy-done :
      (im : Image S) (page curr new : ℕ) (flags : PtFlags) {r : Option ℕ} {im' : Image S}
      → remap_to_copy m im page curr flags new ≡ done (r, im')
      → (t₁ : S) × (t₂ : S) × (m.unmap im.page_table page ≡ some t₁)
        × (m.map_to t₁ page new (record flags { bit_9 = true }) ≡ some t₂)
        × (r ≡ some new)
        × (record im { page_table = t₂; memory = copy_frame im.memory curr new } ≡ im')
  unfolding remap_to_copy
  remap_to_copy-done im page curr new flags e =
      let copied = record im { memory = copy_frame im.memory curr new } in
      let (a, e₁, f₁) = >>=-eq-done (with_page_table m copied (m.unmap im.page_table page)) _ e in
      let (t₁, u₁, is₁) = with_page_table-done m copied (m.unmap im.page_table page) e₁ in
      let (b, e₂, f₂) =
        >>=-eq-done
          (with_page_table m a (m.map_to a.page_table page new (record flags { bit_9 = true }))) _
          f₁ in
      let (t₂, u₂, is₂) =
        with_page_table-done m a (m.map_to a.page_table page new (record flags { bit_9 = true }))
          e₂ in
      let is = done-injective f₂ in
      (
        t₁,
        t₂,
        u₁,
        subst (λ t. m.map_to t page new (record flags { bit_9 = true }) ≡ some t₂)
            (sym (ap Image.page_table is₁)) u₂,
        sym (ap (λ (p : Option ℕ × Image S). p.0) is),
        ap (λ (a : Image S). record a { page_table = t₂ }) is₁
            ∙ is₂
            ∙ ap (λ (p : Option ℕ × Image S). p.1) is,
      )

  -- The mark is on a page whose frame is outside.
  Intact-remapped :
      (im : Image S) (t₂ : S) (page curr new : ℕ) (flags' : PtFlags)
      → among first n new ≡ false
      → m.translate t₂ page ≡ mapped new flags'
      → ((q : ℕ) → q ≢ page → m.translate t₂ q ≡ m.translate im.page_table q)
      → MarksOwn m (space (record im { page_table = t₂; memory = copy_frame im.memory curr new }))
      → Intact m first n bytes im
      → Intact m first n bytes
          (record im { page_table = t₂; memory = copy_frame im.memory curr new })
  Intact-remapped im t₂ page curr new flags' apart here other marks h = record {
    owns = marks;
    outside = λ p f fl at b. elim (same_or_ne p page) [
      | inl same ↦
          let is_new = mapped-frame (m.translate t₂ p) at (ap (m.translate t₂) same ∙ here) in
          ap (among first n) is_new ∙ apart
      | inr away ↦ h.outside p f fl (sym (other p away) ∙ at) b
    ];
    kept = λ f offset a.
        copy_frame-FillsOnly curr im.memory new f offset
          (λ same. true≢false (sym a ∙ ap (among first n) same ∙ apart))
        ∙ h.kept f offset a;
  }
    where
      mapped-frame :
          (t : TranslateResult) {f g : ℕ} {fl fl' : PtFlags}
          → t ≡ mapped f fl
          → t ≡ mapped g fl'
          → f ≡ g
      mapped-frame t e e' = cc

  allocate_copy-Copied :
      (im : Image S) (page curr frame : ℕ) (flags : PtFlags) (r : Option ℕ) {im' : Image S}
      → KeepsOut m law first n
      → Intact m first n bytes im
      → m.translate im.page_table page ≡ mapped curr flags
      → (m.frame_alloc im.page_table).0 ≡ r
      → allocate_copy m im page curr flags (r, (m.frame_alloc im.page_table).1)
        ≡ done (some frame, im')
      → Copied m first n bytes im page frame im'
  allocate_copy-Copied im page curr frame flags none keeps h at a e = cc
  allocate_copy-Copied im page curr frame flags (some new) keeps h at a e =
      let t₀ = (m.frame_alloc im.page_table).1 in
      let (t₁, t₂, u₁, u₂, answer, is) =
        remap_to_copy-done (record im { page_table = t₀ }) page curr new flags e in
      let apart = out new (keeps im.page_table new a) in
      let r =
        copied-Remaps m law (space im) t₀ t₁ t₂ page curr new flags (record flags { bit_9 = true })
          [] h.owns at (λ q. law.alloc-keeps im.page_table q)
          (λ q g fl t. law.alloc-new im.page_table q new g fl a t) u₁ u₂ in
      subst (Copied m first n bytes im page frame) is (
        subst
          (λ f.
            Copied m first n bytes im page f
              (record im { page_table = t₂; memory = copy_frame im.memory curr new }))
          (some-injective new frame (sym answer))
          (record {
            remaps = r;
            intact = Intact-remapped im t₂ page curr new r.flags apart r.at r.other r.marks h;
            apart = apart;
          }))

  -- The frame that is answered is the page's own and none of the file's; all pages show what they
  -- did, and the file is intact.
  pub copy_page_and_remap-Copied :
      (im : Image S) (page frame : ℕ) {im' : Image S}
      → KeepsOut m law first n
      → Intact m first n bytes im
      → copy_page_and_remap m im page ≡ done (some frame, im')
      → Copied m first n bytes im page frame im'
  unfolding copy_page_and_remap remap_to_copy
  copy_page_and_remap-Copied im page frame {im'} keeps h e =
      by_translation (m.translate im.page_table page) refl e
    where
      by_translation :
          (t : TranslateResult)
          → m.translate im.page_table page ≡ t
          → copy_mapped m im page t ≡ done (some frame, im')
          → Copied m first n bytes im page frame im'
      by_translation not_mapped at h' = cc
      by_translation (mapped_large flags) at h' = cc
      by_translation (mapped curr flags) at h' = elim (Bool-cases flags.bit_9) [
        | inl marked ↦
            let is = done-injective (rw marked at h') in
            let same : curr ≡ frame =
              some-injective curr frame (ap (λ (p : Option ℕ × Image S). p.0) is) in
            subst (Copied m first n bytes im page frame) (ap (λ (p : Option ℕ × Image S). p.1) is) (
              subst (λ f. Copied m first n bytes im page f im) same
                (record {
                  remaps = record {
                    marks = h.owns;
                    owns = h.owns page curr flags at marked;
                    flags = flags;
                    at = at;
                    other = λ q ne. refl;
                    views = λ q offset. refl;
                  };
                  intact = h;
                  apart = h.outside page curr flags at marked;
                }))
        | inr shared ↦
            allocate_copy-Copied im page curr frame flags (m.frame_alloc im.page_table).0 keeps h at
              refl (rw shared at h')
      ]

  update_one-Intact :
      (im : Image S) (page : ℕ) (mask : PtFlags → PtFlags) (new : PtFlags) (t : S)
      → KeepsMarks mask
      → masked mask (m.translate im.page_table page) ≡ done new
      → m.update_flags im.page_table page new ≡ some t
      → Intact m first n bytes im
      → Intact m first n bytes (record im { page_table = t })
  update_one-Intact im page mask new t keeps e u h = record {
    owns = update_one-MarksOwn m law (space im) page mask new t keeps e u h.owns;
    outside = λ p f fl at b.
        let (old, is, from) = update_one m law (space im) page mask new t e u p f fl at in
        h.outside p f old is (elim from [
          | inl same ↦ ap PtFlags.bit_9 (sym same) ∙ b
          | inr same ↦ keeps old (ap PtFlags.bit_9 (sym same) ∙ b)
        ]);
    kept = h.kept;
  }

  pub update_page_flag-Intact :
      (im : Image S) (page count : ℕ) (mask : PtFlags → PtFlags) {im' : Image S}
      → KeepsMarks mask
      → Intact m first n bytes im
      → update_page_flag m im page count mask ≡ done im'
      → Intact m first n bytes im'
  unfolding update_page_flag
  update_page_flag-Intact im page zero mask keeps h e =
      subst (Intact m first n bytes) (done-injective e) h
  update_page_flag-Intact im page (suc count) mask {im'} keeps h e =
      let (new, e₁, f₁) = >>=-eq-done (masked mask (m.translate im.page_table page)) _ e in
      let (im₁, e₂, f₂) =
        >>=-eq-done (with_page_table m im (m.update_flags im.page_table page new)) _ f₁ in
      let (t, u, is) = with_page_table-done m im (m.update_flags im.page_table page new) e₂ in
      update_page_flag-Intact im₁ (page + 1) count mask keeps
        (subst (Intact m first n bytes) is (update_one-Intact im page mask new t keeps e₁ u h)) f₂
