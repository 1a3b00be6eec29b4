-- ===== src/Loader/Program/Cleared.antt =====
-- After the loading of a file no page of its loadable segments has the mark.
use miniature.Base.{
  ℕ, zero, suc, ◌+◌, ◌-◌, ◌/◌, ◌≡◌, ◌⊎◌, refl, sym, ap, ◌∙◌, subst, Bool, true, false, inl, inr,
  Bool-cases, List, [], ◌∷◌, All, ◌==◌, if◌then◌else◌, done, >>=-eq-done, sub64, add64, add64-done,
  done-injective, arith,
}
use mathlib.Core.Bool.{true≢false}
use miniature.Loader.{
  PtFlags, mapped, Mapper, AddrSpace, masked, raw_update_flags, update_page_flag,
}
use miniature.Loader.Remap.{IsMapper, MarksOwn, view}
use miniature.Loader.Bytes.{sub64-sum}
use miniature.Loader.Flags.{update_one-done, update_page_flag-Masks, update_page_flag-view}
use miniature.Loader.Segment.{ProgramHeader}
use miniature.Loader.Segment.Fresh.{among}
use miniature.Loader.Segment.Loaded.{page_count}
use miniature.Loader.Program.{
  ElfFile, is_load, virt_space, mask_segment, load_headers, clear_marks, elf_copy_to_addrsp,
  not_bit_9,
}
use miniature.Loader.Program.Marks.{update_one, load_headers-MarksOwn}

module _ {S : Type 0} (m : Mapper S) (law : IsMapper m) where
  -- If the page is mapped to a frame, it is without the mark.
  abbrev pub IsClear : AddrSpace S → ℕ → Type 0
  IsClear st q =
      (f : ℕ) (fl : PtFlags) → m.translate st.page_table q ≡ mapped f fl → fl.bit_9 ≡ false

  -- Every page of the segment is clear.
  abbrev pub IsClearSegment : AddrSpace S → ProgramHeader → Type 0
  IsClearSegment st ph =
      is_load ph.ty ≡ true
      → (ph.mem_size == 0) ≡ false
      → (q : ℕ) → among (ph.virtual_addr / 4096) (page_count ph.virtual_addr ph.mem_size) q ≡ true
      → IsClear st q

  was_mapped :
      (st : AddrSpace S) (page n : ℕ) (mask : PtFlags → PtFlags) {st' : AddrSpace S}
      → update_page_flag m st page n mask ≡ done st'
      → (q f : ℕ) (fl : PtFlags) → m.translate st'.page_table q ≡ mapped f fl
      → (old : PtFlags) × (m.translate st.page_table q ≡ mapped f old)
  unfolding update_page_flag
  was_mapped st page zero mask e q f fl at = (
    fl,
    subst (λ (s : AddrSpace S). m.translate s.page_table q ≡ mapped f fl) (sym (done-injective e))
        at,
  )
  was_mapped st page (suc n) mask e q f fl at =
      let (new, e₁, f₁) = >>=-eq-done (masked mask (m.translate st.page_table page)) _ e in
      let (st₁, e₂, f₂) = >>=-eq-done (raw_update_flags m st page new) _ f₁ in
      let (t, u, is) = update_one-done m law st page new e₂ in
      let (old, at₁) = was_mapped st₁ (page + 1) n mask f₂ q f fl at in
      let at₂ =
        subst (λ (s : AddrSpace S). m.translate s.page_table q ≡ mapped f old) (sym is) at₁ in
      let (older, at₃, how) = update_one m law st page mask new t e₁ u q f old at₂ in (older, at₃)

  flags_of :
      (st : AddrSpace S) (page n : ℕ) {st' : AddrSpace S}
      → update_page_flag m st page n not_bit_9 ≡ done st'
      → (q : ℕ) → (IsClear st q) ⊎ (among page n q ≡ true)
      → IsClear st' q
  flags_of st page n {st'} e q before f fl at =
      let (old, was) = was_mapped st page n not_bit_9 e q f fl at in
      let now = (update_page_flag-Masks m law st page n not_bit_9 e).masked q f old was in
      let flags = same_flags st' q f fl (if among page n q then not_bit_9 old else old) at now in
      ap PtFlags.bit_9 flags ∙ cleared (among page n q) old (either before old was)
    where
      same_flags :
          (st' : AddrSpace S) (q f : ℕ) (a b : PtFlags)
          → m.translate st'.page_table q ≡ mapped f a
          → m.translate st'.page_table q ≡ mapped f b
          → a ≡ b
      same_flags st' q f a b h k = cc

      either :
          (IsClear st q) ⊎ (among page n q ≡ true)
          → (old : PtFlags) → m.translate st.page_table q ≡ mapped f old
          → (old.bit_9 ≡ false) ⊎ (among page n q ≡ true)
      either (inl c) old was = inl (c f old was)
      either (inr a) old was = inr a

      cleared :
          (b : Bool) (old : PtFlags)
          → (old.bit_9 ≡ false) ⊎ (b ≡ true)
          → (if b then not_bit_9 old else old).bit_9 ≡ false
      cleared true old h = refl
      cleared false old (inl h) = h
      cleared false old (inr h) = cc

  module _ (align_up : ℕ → ℕ) (elf : ElfFile) where
    mask_segment-IsClear :
        (st : AddrSpace S) (ph : ProgramHeader) {st' : AddrSpace S}
        → mask_segment m align_up elf st ph not_bit_9 ≡ done st'
        → (q : ℕ)
        → (IsClear st q)
          ⊎ (among (ph.virtual_addr / 4096) (page_count ph.virtual_addr ph.mem_size) q ≡ true)
        → IsClear st' q
    unfolding mask_segment
    mask_segment-IsClear st ph {st'} e q before =
        let (end, e₁, f₁) = >>=-eq-done (add64 ph.virtual_addr ph.mem_size) _ e in
        let (last, e₂, f₂) = >>=-eq-done (sub64 end 1) _ f₁ in
        pages last
          (last_byte end ph.virtual_addr ph.mem_size last
            (add64-done ph.virtual_addr ph.mem_size e₁).0 (sub64-sum end 1 e₂))
          f₂
      where
        last_byte : (end va size last : ℕ) → end ≡ va + size → last + 1 ≡ end → last ≡ va + size - 1
        last_byte end va size last e h = omega arith

        pages :
            (last : ℕ)
            → last ≡ ph.virtual_addr + ph.mem_size - 1
            → update_page_flag m st
                (m.containing_address ph.virtual_addr)
                (m.containing_address last + 1 - m.containing_address ph.virtual_addr)
                not_bit_9
              ≡ done st'
            → IsClear st' q
        pages last is h =
            flags_of st (ph.virtual_addr / 4096) (page_count ph.virtual_addr ph.mem_size)
              (rw
                (
                  is,
                  law.containing_address ph.virtual_addr,
                  law.containing_address (ph.virtual_addr + ph.mem_size - 1),
                )
                at h)
              q before

    -- One header of the loop.
    IsClear-one :
        (st : AddrSpace S) (ph : ProgramHeader) {st₁ : AddrSpace S}
        → (if ph.mem_size == 0
            then done st
            else if is_load ph.ty
            then mask_segment m align_up elf st ph not_bit_9
            else done st)
          ≡ done st₁
        → ((q : ℕ) → IsClear st q → IsClear st₁ q) × IsClearSegment st₁ ph
    IsClear-one st ph {st₁} e = elim (Bool-cases (ph.mem_size == 0)) [
      | inl gone ↦
          let same = done-injective (rw gone at e) in
          (
            λ q. subst (λ s. IsClear st q → IsClear s q) same (λ c. c),
            λ l here q a. absurd (true≢false (sym gone ∙ here)),
          )
      | inr there ↦ elim (Bool-cases (is_load ph.ty)) [
        | inl loaded ↦
            let h = mask_segment-IsClear st ph (rw (there, loaded) at e) in
            (λ q c. h q (inl c), λ l here q a. h q (inr a))
        | inr other ↦
            let same = done-injective (rw (there, other) at e) in
            (
              λ q. subst (λ s. IsClear st q → IsClear s q) same (λ c. c),
              λ l here q a. absurd (true≢false (sym l ∙ other)),
            )
      ]
    ]

    clear_marks-IsClearSegment :
        (st : AddrSpace S) (phs : List ProgramHeader) {st' : AddrSpace S}
        → clear_marks m align_up elf st phs ≡ done st'
        → ((q : ℕ) → IsClear st q → IsClear st' q) × All (IsClearSegment st') phs
    unfolding clear_marks
    clear_marks-IsClearSegment st [] e =
        (λ q. subst (λ s. IsClear st q → IsClear s q) (done-injective e) (λ c. c), tt)
    clear_marks-IsClearSegment st (ph ∷ phs) {st'} e =
        let (st₁, e₁, e₂) =
          >>=-eq-done
            (if ph.mem_size == 0
              then done st
              else if is_load ph.ty
              then mask_segment m align_up elf st ph not_bit_9
              else done st)
            _ e in
        let (one, here) = IsClear-one st ph e₁ in
        let (more, rest) = clear_marks-IsClearSegment st₁ phs e₂ in
        (λ q c. more q (one q c), (λ l some_there q a. more q (here l some_there q a), rest))

    mask_segment-view :
        (st : AddrSpace S) (ph : ProgramHeader) {st' : AddrSpace S}
        → mask_segment m align_up elf st ph not_bit_9 ≡ done st'
        → (q offset : ℕ) → view m st' q offset ≡ view m st q offset
    unfolding mask_segment
    mask_segment-view st ph e =
        let (end, e₁, f₁) = >>=-eq-done (add64 ph.virtual_addr ph.mem_size) _ e in
        let (last, e₂, f₂) = >>=-eq-done (sub64 end 1) _ f₁ in
        update_page_flag-view m law st _ _ not_bit_9 f₂

    -- The removal of the marks changes no byte that a page shows.
    clear_marks-view :
        (st : AddrSpace S) (phs : List ProgramHeader) {st' : AddrSpace S}
        → clear_marks m align_up elf st phs ≡ done st'
        → (q offset : ℕ) → view m st' q offset ≡ view m st q offset
    unfolding clear_marks
    clear_marks-view st [] e q offset = ap (λ s. view m s q offset) (sym (done-injective e))
    clear_marks-view st (ph ∷ phs) {st'} e q offset =
        let (st₁, e₁, e₂) =
          >>=-eq-done
            (if ph.mem_size == 0
              then done st
              else if is_load ph.ty
              then mask_segment m align_up elf st ph not_bit_9
              else done st)
            _ e in
        clear_marks-view st₁ phs e₂ q offset ∙ one st₁ e₁
      where
        one :
            (st₁ : AddrSpace S)
            → (if ph.mem_size == 0
                then done st
                else if is_load ph.ty
                then mask_segment m align_up elf st ph not_bit_9
                else done st)
              ≡ done st₁
            → view m st₁ q offset ≡ view m st q offset
        one st₁ e₁ = elim (Bool-cases (ph.mem_size == 0)) [
          | inl gone ↦ ap (λ s. view m s q offset) (sym (done-injective (rw gone at e₁)))
          | inr there ↦ elim (Bool-cases (is_load ph.ty)) [
            | inl loaded ↦ mask_segment-view st ph (rw (there, loaded) at e₁) q offset
            | inr other ↦
                ap (λ s. view m s q offset) (sym (done-injective (rw (there, other) at e₁)))
          ]
        ]

    -- The space that `load_headers` leaves for the program at its computed start, and what the end of
    -- the loading makes of it.
    pub record Cleared (st st' : AddrSpace S) : Type 0 where
      pub start : ℕ
      pub size : ℕ
      pub loaded : AddrSpace S
      pub space : virt_space elf.program_headers ≡ done (start, size)
      pub loads : load_headers m align_up elf st start elf.program_headers ≡ done loaded
      pub owns : MarksOwn m loaded
      pub views : (q offset : ℕ) → view m st' q offset ≡ view m loaded q offset
      pub clear : All (IsClearSegment st') elf.program_headers

    -- From a space in which a marked page owns its frame, when the call returns: it answers the entry
    -- point of the file; the headers have been loaded, and in the space that this gave every marked
    -- page owned its frame; every page shows what it showed there, and no page of a loadable segment
    -- is marked any more.
    pub elf_copy_to_addrsp-IsClearSegment :
        (st : AddrSpace S) {entry : ℕ} {st' : AddrSpace S}
        → MarksOwn m st
        → elf_copy_to_addrsp m align_up elf st ≡ done (entry, st')
        → (entry ≡ elf.entry_point) × Cleared st st'
    unfolding elf_copy_to_addrsp
    elf_copy_to_addrsp-IsClearSegment st {entry} {st'} own e =
        let ((start, size), e₁, f₁) = >>=-eq-done (virt_space elf.program_headers) _ e in
        let (st₁, e₂, f₂) =
          >>=-eq-done (load_headers m align_up elf st start elf.program_headers) _ f₁ in
        let (st₂, e₃, f₃) = >>=-eq-done (clear_marks m align_up elf st₁ elf.program_headers) _ f₂ in
        let same : st₂ ≡ st' = ap (λ (p : ℕ × AddrSpace S). p.1) (done-injective f₃) in
        (
          sym (ap (λ (p : ℕ × AddrSpace S). p.0) (done-injective f₃)),
          subst (Cleared st) same (record {
            start = start;
            size = size;
            loaded = st₁;
            space = e₁;
            loads = e₂;
            owns = load_headers-MarksOwn m law align_up elf st start elf.program_headers own e₂;
            views = clear_marks-view st₁ elf.program_headers e₃;
            clear = (clear_marks-IsClearSegment st₁ elf.program_headers e₃).1;
          }),
        )
