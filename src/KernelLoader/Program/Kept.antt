-- ===== src/KernelLoader/Program/Kept.antt =====
-- The file of the kernel is as it was when the kernel has been loaded from it.
use miniature.Base.{
  ℕ, ◌+◌, ◌/◌, ◌≤◌, ◌≡◌, refl, sym, ap, ◌∙◌, subst, Bool, true, false, inl, inr, Bool-cases, List,
  [], ◌∷◌, Option, none, ◌==◌, if◌then◌else◌, done, assert, or_panic, >>=-eq-done, done-injective,
}
use mathlib.Core.Bool.{true≢false}
use miniature.Paging.Tracked.{mark_range_as_used}
use miniature.Paging.Layout.{kernel_bytes_p4, take_p4}
use miniature.Loader.{PtFlags, mapped, Mapper}
use miniature.Loader.Remap.{IsMapper}
use miniature.Loader.Segment.{ShType, load, dynamic, gnu_relro, tls, null, ProgramHeader}
use miniature.Loader.Segment.Fresh.{among}
use miniature.Loader.Segment.Pages.{KeepsOut}
use miniature.Loader.Segment.Loaded.{page_count}
use miniature.Loader.Program.{
  ElfFile, is_load, virt_space, no_dynamic, read_dynamic, not_writable, not_bit_9,
}
use miniature.KernelLoader.{Image, Addresses, Placed, shifted, place_segment}
use miniature.KernelLoader.Program.{
  TlsTemplate, LoadKernel, KernelFile, has_space, load_dynamic, mark_placed, load_by_type,
  load_header, load_headers, clear_mark, clear_marks, load_at, load_kernel_to_virt_mem,
}
use miniature.KernelLoader.Segments.{AreAddresses, Places, place_segment-Places}
use miniature.KernelLoader.Program.Parts.{
  InFile, FileIntact, mask_range-FileIntact, load_placed-FileIntact, relocate-FileIntact,
}

module _ {S : Type 0} (m : Mapper S) (law : IsMapper m) (x : Addresses) (sums : AreAddresses x)
    (elf : ElfFile) (bytes : ℕ → ℕ → ℕ) (filled : 1 ≤ elf.len)
    (keeps : KeepsOut m law (elf.phys_addr / 4096) (page_count elf.phys_addr elf.len)) where
  abbrev Kept : Image S → Type 0
  Kept = FileIntact m law x sums elf bytes filled keeps

  module _ (start defined_start : ℕ) where
    load_by_type-FileIntact :
        (im : Image S) (ph : ProgramHeader) (at : Placed) (ty : ShType) {im' : Image S}
        → ph.offset + ph.file_size ≤ elf.len
        → Places elf.phys_addr start defined_start ph at
        → Kept im
        → load_by_type m x elf start defined_start im ph at ty ≡ done im'
        → Kept im'
    unfolding load_dynamic
    load_by_type-FileIntact im ph at load fits p h e =
        load_placed-FileIntact m law x sums elf bytes filled keeps im ph at fits p h e
    load_by_type-FileIntact im ph at dynamic fits p h e =
        let (d, e₁, f₁) = >>=-eq-done (read_dynamic no_dynamic elf.entries) _ e in
        relocate-FileIntact m law x sums elf bytes filled keeps start defined_start im d d.rela_ptr
          h f₁
    load_by_type-FileIntact im ph at gnu_relro fits p h e =
        mask_range-FileIntact m law x sums elf bytes filled keeps im at.seg_start at.mem_last
          not_writable (λ fl b. b) h e
    load_by_type-FileIntact im ph at tls fits p h e = subst Kept (done-injective e) h
    load_by_type-FileIntact im ph at null fits p h e = subst Kept (done-injective e) h

    mark_placed-FileIntact :
        (im : Image S) (at : Placed) {im' : Image S}
        → Kept im
        → mark_placed m x elf start defined_start im at ≡ done im'
        → Kept im'
    unfolding mark_placed
    mark_placed-FileIntact im at h e =
        let ((marked, t), e₁, f₁) =
          >>=-eq-done (mark_range_as_used x.pt_index x.virt_sub im.tracked at.seg_start at.mem_end)
            _ e in
        subst Kept (done-injective f₁)
          (record { owns = h.owns; outside = h.outside; kept = h.kept })

    load_header-FileIntact :
        (im : Image S) (template : Option TlsTemplate) (ph : ProgramHeader)
        {r : Option TlsTemplate × Image S}
        → ph.offset + ph.file_size ≤ elf.len
        → Kept im
        → load_header m x elf start defined_start im template ph ≡ done r
        → Kept r.1
    unfolding load_header
    load_header-FileIntact im template ph fits h e =
        let (at, e₁, f₁) = >>=-eq-done (place_segment x elf.phys_addr start defined_start ph) _ e in
        let (im₁, e₂, f₂) = >>=-eq-done (mark_placed m x elf start defined_start im at) _ f₁ in
        let (im₂, e₃, f₃) =
          >>=-eq-done (load_by_type m x elf start defined_start im₁ ph at ph.ty) _ f₂ in
        subst (λ (r : Option TlsTemplate × Image S). Kept r.1) (done-injective f₃)
          (load_by_type-FileIntact im₁ ph at ph.ty fits
            (place_segment-Places x sums elf.phys_addr start defined_start ph e₁)
            (mark_placed-FileIntact im at h e₂) e₃)

    load_headers-FileIntact :
        (im : Image S) (template : Option TlsTemplate) (phs : List ProgramHeader)
        {r : Option TlsTemplate × Image S}
        → InFile elf.len phs
        → Kept im
        → load_headers m x elf start defined_start im template phs ≡ done r
        → Kept r.1
    unfolding load_headers
    load_headers-FileIntact im template [] fits h e =
        subst (λ (r : Option TlsTemplate × Image S). Kept r.1) (done-injective e) h
    load_headers-FileIntact im template (ph ∷ phs) (fit, fits) h e =
        let ((template', im₁), e₁, f₁) =
          >>=-eq-done
            (if ph.mem_size == 0
              then done (template, im)
              else load_header m x elf start defined_start im template ph)
            _ e in
        load_headers-FileIntact im₁ template' phs fits
          (elim (Bool-cases (ph.mem_size == 0)) [
            | inl none_there ↦
                subst (λ (r : Option TlsTemplate × Image S). Kept r.1)
                  (done-injective (rw none_there at e₁)) h
            | inr some_there ↦ load_header-FileIntact im template ph fit h (rw some_there at e₁)
          ])
          f₁

    clear_mark-FileIntact :
        (im : Image S) (ph : ProgramHeader) {im' : Image S}
        → Kept im
        → clear_mark m x elf start defined_start im ph ≡ done im'
        → Kept im'
    unfolding clear_mark
    clear_mark-FileIntact im ph h e =
        let (seg_start, e₁, f₁) = >>=-eq-done (shifted x start defined_start ph.virtual_addr) _ e in
        let (mem_end, e₂, f₂) = >>=-eq-done (or_panic (x.virt_add seg_start ph.mem_size)) _ f₁ in
        let (mem_last, e₃, f₃) = >>=-eq-done (or_panic (x.virt_sub mem_end 1)) _ f₂ in
        mask_range-FileIntact m law x sums elf bytes filled keeps im seg_start mem_last not_bit_9
          (λ fl b. absurd (true≢false (sym b))) h f₃

    clear_marks-FileIntact :
        (im : Image S) (phs : List ProgramHeader) {im' : Image S}
        → Kept im
        → clear_marks m x elf start defined_start im phs ≡ done im'
        → Kept im'
    unfolding clear_marks
    clear_marks-FileIntact im [] h e = subst Kept (done-injective e) h
    clear_marks-FileIntact im (ph ∷ phs) h e =
        let (im₁, e₁, f₁) =
          >>=-eq-done
            (if ph.mem_size == 0
              then done im
              else if is_load ph.ty
              then clear_mark m x elf start defined_start im ph
              else done im)
            _ e in
        clear_marks-FileIntact im₁ phs
          (elim (Bool-cases (ph.mem_size == 0)) [
            | inl none_there ↦ subst Kept (done-injective (rw none_there at e₁)) h
            | inr some_there ↦ elim (Bool-cases (is_load ph.ty)) [
              | inl loaded ↦ clear_mark-FileIntact im ph h (rw (some_there, loaded) at e₁)
              | inr other ↦ subst Kept (done-injective (rw (some_there, other) at e₁)) h
            ]
          ])
          f₁

module _ {S : Type 0} (m : Mapper S) (law : IsMapper m) (x : Addresses) (sums : AreAddresses x)
    (file : KernelFile) where
  -- A file that is not empty, whose headers the check of xmas_elf finds inside of it, loaded into a
  -- table without marks, from an allocator that does not answer the frames of the file: when the
  -- call returns, these frames have the bytes that they had.
  pub load_kernel_to_virt_mem-keeps :
      (im : Image S) (f offset : ℕ) {r : LoadKernel} {im' : Image S}
      → among (file.elf.phys_addr / 4096) (page_count file.elf.phys_addr file.elf.len) f ≡ true
      → 1 ≤ file.elf.len
      → (file.is_sane ≡ true → InFile file.elf.len file.elf.program_headers)
      → KeepsOut m law (file.elf.phys_addr / 4096) (page_count file.elf.phys_addr file.elf.len)
      → ((p f : ℕ) (fl : PtFlags) → m.translate im.page_table p ≡ mapped f fl → fl.bit_9 ≡ false)
      → load_kernel_to_virt_mem m x file im ≡ done (r, im')
      → im'.memory f offset ≡ im.memory f offset
  unfolding load_kernel_to_virt_mem load_at
  load_kernel_to_virt_mem-keeps im f offset a filled sane keeps plain e =
      let (u, e₁, f₁) = >>=-eq-done (assert file.is_sane) _ e in
      let (v, e₂, f₂) = >>=-eq-done (assert (has_space file.ty)) _ f₁ in
      let ((defined_start, size), e₃, f₃) =
        >>=-eq-done (virt_space file.elf.program_headers) _ f₂ in
      let (t, e₄, f₄) = >>=-eq-done (take_p4 im.tracked size kernel_bytes_p4) _ f₃ in
      let start = x.p4_start kernel_bytes_p4 in
      let ((template, im₁), e₅, f₅) =
        >>=-eq-done
          (load_headers m x file.elf start defined_start (record im { tracked = t }) none
            file.elf.program_headers)
          _ f₄ in
      let (im₂, e₆, f₆) =
        >>=-eq-done (clear_marks m x file.elf start defined_start im₁ file.elf.program_headers) _
          f₅ in
      let (entry, e₇, f₇) = >>=-eq-done (shifted x start defined_start file.elf.entry_point) _ f₆ in
      let h₁ =
        load_headers-FileIntact m law x sums file.elf im.memory filled keeps start defined_start
          (record im { tracked = t }) none file.elf.program_headers
          (sane (asserted file.is_sane e₁))
          (record {
            owns = λ p f fl at b. absurd (true≢false (sym b ∙ plain p f fl at));
            outside = λ p f fl at b. absurd (true≢false (sym b ∙ plain p f fl at));
            kept = λ f offset a. refl;
          })
          e₅ in
      let h₂ =
        clear_marks-FileIntact m law x sums file.elf im.memory filled keeps start defined_start im₁
          file.elf.program_headers h₁ e₆ in
      ap (λ (p : LoadKernel × Image S). p.1.memory f offset) (sym (done-injective f₇))
      ∙ h₂.kept f offset a
    where
      asserted : (b : Bool) {u : Unit {0}} → assert b ≡ done u → b ≡ true
      asserted true e = refl
      asserted false e = cc
