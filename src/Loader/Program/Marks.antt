-- ===== src/Loader/Program/Marks.antt =====
-- A page that has the mark owns its frame, throughout the loading of a file.
use miniature.Base.{
  ℕ, zero, suc, ◌+◌, ◌/◌, ◌≡◌, ◌⊎◌, refl, sym, ap, ◌∙◌, subst, true, false, inl, inr, Bool-cases,
  List, [], ◌∷◌, Option, none, some, ltb, leb, ◌==◌, if◌then◌else◌, done, assert, or_panic,
  >>=-eq-done, sub64, add64, mul64, done-injective,
}
use miniature.Loader.{
  PtFlags, TranslateResult, mapped, mapped_large, not_mapped, Mapper, AddrSpace, masked, copy_frame,
  raw_update_flags, update_page_flag,
}
use miniature.Loader.Remap.{IsMapper, MarksOwn, same_or_ne}
use miniature.Loader.Write.{copy_pages_and_write-written}
use miniature.Loader.Flags.{update_one-done}
use miniature.Loader.Segment.{
  ShType, load, dynamic, gnu_relro, tls, null, ProgramHeader, seg_flags, map_new, map_file_pages,
  clear_file_end, clear_bss, map_segment, load_segment,
}
use miniature.Loader.Segment.Fresh.{copy_frame-FillsOnly, map_new-Maps}
use miniature.Loader.Segment.Pages.{map_bss_pages-Shows}
use miniature.Loader.Segment.Contents.{clear_file_end-Zeros}
use miniature.Loader.Program.{
  ElfFile, DynamicSection, no_dynamic, read_dynamic, Rela, apply_rela, apply_relas, relocate,
  load_dynamic, mask_segment, load_header, load_headers, not_writable, le_bytes, rela_bytes,
  relative,
}

-- A mask sets no mark.
abbrev pub KeepsMarks : (PtFlags → PtFlags) → Type 0
KeepsMarks mask = (fl : PtFlags) → (mask fl).bit_9 ≡ true → fl.bit_9 ≡ true

module _ {S : Type 0} (m : Mapper S) (law : IsMapper m) where
  -- What the new page shows after its flags are changed, for any page.
  pub update_one :
      (st : AddrSpace S) (page : ℕ) (mask : PtFlags → PtFlags) (new : PtFlags) (t : S)
      → masked mask (m.translate st.page_table page) ≡ done new
      → m.update_flags st.page_table page new ≡ some t
      → (q f : ℕ) (fl : PtFlags) → m.translate t q ≡ mapped f fl
      → (old : PtFlags) × (m.translate st.page_table q ≡ mapped f old)
        × ((fl ≡ old) ⊎ (fl ≡ mask old))
  update_one st page mask new t e u q f fl at = elim (same_or_ne q page) [
    | inr apart ↦ (fl, sym (law.update-other st.page_table t page q new u apart) ∙ at, inl refl)
    | inl same ↦
        subst
          (λ q.
            m.translate t q ≡ mapped f fl
            → (old : PtFlags) × (m.translate st.page_table q ≡ mapped f old)
              × ((fl ≡ old) ⊎ (fl ≡ mask old)))
          (sym same) (λ at'. by_old (m.translate st.page_table page) refl at') at
  ]
    where
      by_old :
          (r : TranslateResult)
          → m.translate st.page_table page ≡ r
          → m.translate t page ≡ mapped f fl
          → (old : PtFlags) × (m.translate st.page_table page ≡ mapped f old)
            × ((fl ≡ old) ⊎ (fl ≡ mask old))
      by_old not_mapped is at' = let h = rw is at e in cc
      by_old (mapped_large old) is at' =
          let h = law.update-large st.page_table page old new is in cc
      by_old (mapped g old) is at' =
          let new_is : mask old ≡ new = done-injective (rw is at e) in
          let now = law.update-same st.page_table t page g old new u is in
          let frame : g ≡ f = cc in
          let flags : fl ≡ new = cc in
          (old, is ∙ ap (λ g. mapped g old) frame, inr (flags ∙ sym new_is))

  pub update_one-MarksOwn :
      (st : AddrSpace S) (page : ℕ) (mask : PtFlags → PtFlags) (new : PtFlags) (t : S)
      → KeepsMarks mask
      → masked mask (m.translate st.page_table page) ≡ done new
      → m.update_flags st.page_table page new ≡ some t
      → MarksOwn m st
      → MarksOwn m (record st { page_table = t })
  update_one-MarksOwn st page mask new t keeps e u own p f fl at b q g fl' ne at' =
      let (old, is, from) = update_one st page mask new t e u p f fl at in
      let (old', is', from') = update_one st page mask new t e u q g fl' at' in
      own p f old is (marked old fl from b) q g old' ne is'
    where
      marked :
          (old fl : PtFlags) → (fl ≡ old) ⊎ (fl ≡ mask old) → fl.bit_9 ≡ true → old.bit_9 ≡ true
      marked old fl (inl same) b = ap PtFlags.bit_9 (sym same) ∙ b
      marked old fl (inr same) b = keeps old (ap PtFlags.bit_9 (sym same) ∙ b)

  update_page_flag-MarksOwn :
      (st : AddrSpace S) (page n : ℕ) (mask : PtFlags → PtFlags) {st' : AddrSpace S}
      → KeepsMarks mask
      → MarksOwn m st
      → update_page_flag m st page n mask ≡ done st'
      → MarksOwn m st'
  unfolding update_page_flag
  update_page_flag-MarksOwn st page zero mask keeps own e =
      subst (MarksOwn m) (done-injective e) own
  update_page_flag-MarksOwn st page (suc n) mask {st'} keeps own e =
      let (new, e₁, f₁) = >>=-eq-done (masked mask (m.translate st.page_table page)) _ e in
      let (st₁, e₂, f₂) = >>=-eq-done (raw_update_flags m st page new) _ f₁ in
      let (t, u, is) = update_one-done m law st page new e₂ in
      update_page_flag-MarksOwn st₁ (page + 1) n mask keeps
        (subst (MarksOwn m) is (update_one-MarksOwn st page mask new t keeps e₁ u own)) f₂

  map_file_pages-MarksOwn :
      (st : AddrSpace S) (page original_frame n : ℕ) (flags : PtFlags) {st' : AddrSpace S}
      → flags.bit_9 ≡ false
      → MarksOwn m st
      → map_file_pages m st page original_frame flags n ≡ done st'
      → MarksOwn m st'
  unfolding map_file_pages
  map_file_pages-MarksOwn st page original_frame zero flags plain own e =
      subst (MarksOwn m) (done-injective e) own
  map_file_pages-MarksOwn st page original_frame (suc n) flags plain own e =
      let (st₁, e₁, e₂) =
        >>=-eq-done
          (map_new m st page flags (λ memory frame. copy_frame memory original_frame frame)) _ e in
      let h =
        map_new-Maps m law st page flags (λ memory frame. copy_frame memory original_frame frame)
          (copy_frame-FillsOnly original_frame) plain own e₁ in
      map_file_pages-MarksOwn st₁ (page + 1) (original_frame + 1) n flags plain h.marks e₂

  module _ (align_up : ℕ → ℕ) where
    clear_bss-MarksOwn :
        (st : AddrSpace S) (bss end : ℕ) (flags : PtFlags) {st' : AddrSpace S}
        → flags.bit_9 ≡ false
        → MarksOwn m st
        → clear_bss m align_up st bss end flags ≡ done st'
        → MarksOwn m st'
    unfolding clear_bss
    clear_bss-MarksOwn st bss end flags plain own e =
        let (st₁, e₁, f₁) = >>=-eq-done (clear_file_end m st bss) _ e in
        let (last, e₂, f₂) = >>=-eq-done (sub64 end 1) _ f₁ in
        (map_bss_pages-Shows m law st₁ _ _ flags plain (clear_file_end-Zeros m law st bss own e₁).0
          f₂).0

    map_segment-MarksOwn :
        (st : AddrSpace S) (ph : ProgramHeader) (x last file_end mem_end : ℕ) {st' : AddrSpace S}
        → MarksOwn m st
        → map_segment m align_up st ph x last file_end mem_end ≡ done st'
        → MarksOwn m st'
    unfolding map_segment
    map_segment-MarksOwn st ph x last file_end mem_end own e =
        let (st₁, e₁, f₁) = >>=-eq-done (map_file_pages m st _ _ (seg_flags ph) _) _ e in
        let own₁ = map_file_pages-MarksOwn st _ _ _ (seg_flags ph) refl own e₁ in
        elim (Bool-cases (leb ph.mem_size ph.file_size)) [
          | inl small ↦ subst (MarksOwn m) (done-injective (rw small at f₁)) own₁
          | inr large ↦
              clear_bss-MarksOwn st₁ file_end mem_end (seg_flags ph) refl own₁ (rw large at f₁)
        ]

    load_segment-MarksOwn :
        (st : AddrSpace S) (elf_bytes : ℕ) (ph : ProgramHeader) {st' : AddrSpace S}
        → MarksOwn m st
        → load_segment m align_up st elf_bytes ph ≡ done st'
        → MarksOwn m st'
    unfolding load_segment
    load_segment-MarksOwn st elf_bytes ph own e =
        let (start, e₁, f₁) = >>=-eq-done (add64 elf_bytes ph.offset) _ e in
        let (mem_end, e₂, f₂) = >>=-eq-done (add64 ph.virtual_addr ph.mem_size) _ f₁ in
        let (file_end, e₃, f₃) = >>=-eq-done (add64 ph.virtual_addr ph.file_size) _ f₂ in
        let (bytes_end, e₄, f₄) = >>=-eq-done (add64 start ph.file_size) _ f₃ in
        let (last, e₅, f₅) = >>=-eq-done (sub64 bytes_end 1) _ f₄ in
        map_segment-MarksOwn st ph start last file_end mem_end own f₅

    module _ (elf : ElfFile) where
      apply_rela-MarksOwn :
          (st : AddrSpace S) (r : Rela) {st' : AddrSpace S}
          → MarksOwn m st
          → apply_rela m align_up elf st r ≡ done st'
          → MarksOwn m st'
      unfolding apply_rela
      apply_rela-MarksOwn st r own e =
          let (u, e₁, f₁) = >>=-eq-done (assert (r.symbol_table_index == 0)) _ e in
          let (v, e₂, f₂) = >>=-eq-done (assert (r.ty == relative)) _ f₁ in
          (copy_pages_and_write-written m law st r.offset (le_bytes 8 r.addend) own f₂).0

      apply_relas-MarksOwn :
          (st : AddrSpace S) (elf_start rela_ptr idx n : ℕ) {st' : AddrSpace S}
          → MarksOwn m st
          → apply_relas m align_up elf st elf_start rela_ptr idx n ≡ done st'
          → MarksOwn m st'
      unfolding apply_relas
      apply_relas-MarksOwn st elf_start rela_ptr idx zero own e =
          subst (MarksOwn m) (done-injective e) own
      apply_relas-MarksOwn st elf_start rela_ptr idx (suc n) own e =
          let (base, e₁, f₁) = >>=-eq-done (sub64 rela_ptr elf_start) _ e in
          let (place, e₂, f₂) = >>=-eq-done (mul64 idx rela_bytes) _ f₁ in
          let (index, e₃, f₃) = >>=-eq-done (add64 base place) _ f₂ in
          let (u, e₄, f₄) = >>=-eq-done (assert (ltb index elf.len)) _ f₃ in
          let (st₁, e₅, f₅) = >>=-eq-done (apply_rela m align_up elf st (elf.rela_at index)) _ f₄ in
          apply_relas-MarksOwn st₁ elf_start rela_ptr (idx + 1) n
            (apply_rela-MarksOwn st (elf.rela_at index) own e₅) f₅

      relocate-MarksOwn :
          (st : AddrSpace S) (elf_start : ℕ) (d : DynamicSection) (p : Option ℕ) {st' : AddrSpace S}
          → MarksOwn m st
          → relocate m align_up elf st elf_start d p ≡ done st'
          → MarksOwn m st'
      relocate-MarksOwn st elf_start d none own e = subst (MarksOwn m) (done-injective e) own
      relocate-MarksOwn st elf_start d (some ptr) own e =
          let (total, e₁, f₁) = >>=-eq-done (or_panic d.size) _ e in
          let (entry, e₂, f₂) = >>=-eq-done (or_panic d.ent) _ f₁ in
          let (u, e₃, f₃) = >>=-eq-done (assert (entry == rela_bytes)) _ f₂ in
          apply_relas-MarksOwn st elf_start ptr 0 (total / entry) own f₃

      mask_segment-MarksOwn :
          (st : AddrSpace S) (ph : ProgramHeader) (mask : PtFlags → PtFlags) {st' : AddrSpace S}
          → KeepsMarks mask
          → MarksOwn m st
          → mask_segment m align_up elf st ph mask ≡ done st'
          → MarksOwn m st'
      unfolding mask_segment
      mask_segment-MarksOwn st ph mask keeps own e =
          let (end, e₁, f₁) = >>=-eq-done (add64 ph.virtual_addr ph.mem_size) _ e in
          let (last, e₂, f₂) = >>=-eq-done (sub64 end 1) _ f₁ in
          update_page_flag-MarksOwn st _ _ mask keeps own f₂

      load_header-MarksOwn :
          (st : AddrSpace S) (elf_start : ℕ) (ph : ProgramHeader) (ty : ShType) {st' : AddrSpace S}
          → MarksOwn m st
          → load_header m align_up elf st elf_start ph ty ≡ done st'
          → MarksOwn m st'
      unfolding load_dynamic
      load_header-MarksOwn st elf_start ph load own e =
          load_segment-MarksOwn st elf.phys_addr ph own e
      load_header-MarksOwn st elf_start ph dynamic own e =
          let (d, e₁, f₁) = >>=-eq-done (read_dynamic no_dynamic elf.entries) _ e in
          relocate-MarksOwn st elf_start d d.rela_ptr own f₁
      load_header-MarksOwn st elf_start ph gnu_relro own e =
          mask_segment-MarksOwn st ph not_writable (λ fl b. b) own e
      load_header-MarksOwn st elf_start ph tls own e = subst (MarksOwn m) (done-injective e) own
      load_header-MarksOwn st elf_start ph null own e = subst (MarksOwn m) (done-injective e) own

      pub load_headers-MarksOwn :
          (st : AddrSpace S) (elf_start : ℕ) (phs : List ProgramHeader) {st' : AddrSpace S}
          → MarksOwn m st
          → load_headers m align_up elf st elf_start phs ≡ done st'
          → MarksOwn m st'
      unfolding load_headers
      load_headers-MarksOwn st elf_start [] own e = subst (MarksOwn m) (done-injective e) own
      load_headers-MarksOwn st elf_start (ph ∷ phs) own e =
          let (st₁, e₁, f₁) =
            >>=-eq-done
              (if ph.mem_size == 0
                then done st
                else load_header m align_up elf st elf_start ph ph.ty)
              _ e in
          load_headers-MarksOwn st₁ elf_start phs
            (elim (Bool-cases (ph.mem_size == 0)) [
              | inl none_there ↦ subst (MarksOwn m) (done-injective (rw none_there at e₁)) own
              | inr some_there ↦
                  load_header-MarksOwn st elf_start ph ph.ty own (rw some_there at e₁)
            ])
            f₁
