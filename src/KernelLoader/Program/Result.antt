-- ===== src/KernelLoader/Program/Result.antt =====
-- What the bootloader tells the kernel of where it has been loaded.
use miniature.Base.{
  ℕ, ◌+◌, ◌-◌, ◌≤◌, ◌≡◌, refl, sym, ap, ◌∙◌, subst, true, false, inl, inr, Bool-cases, List, [],
  ◌∷◌, ◌++◌, All-append_right, Option, none, some, leb, ltb, ◌==◌, if◌then◌else◌, done, assert,
  >>=-eq-done, done-injective, arith,
}
use miniature.Paging.Layout.{kernel_bytes_p4, take_p4}
use miniature.Loader.{Mapper}
use miniature.Loader.Segment.{ShType, load, dynamic, gnu_relro, tls, null, ProgramHeader}
use miniature.Loader.Program.{ElfFile, is_load, virt_space}
use miniature.Loader.Program.Bounds.{LiesIn, virt_space-LiesIn}
use miniature.KernelLoader.{Image, Addresses, Placed, shifted, place_segment}
use miniature.KernelLoader.Segments.{AreAddresses, shifted-done, Places, place_segment-Places}
use miniature.KernelLoader.Program.{
  ℤ, pos, negsuc, sub_i128, TlsTemplate, LoadKernel, KernelFile, has_space, mark_placed,
  load_by_type, tls_of, load_header, load_headers, clear_marks, load_at, load_kernel_to_virt_mem,
}

-- The sum of a difference and an address.
abbrev pub add_i128 : ℤ → ℕ → ℤ
add_i128 (pos a) n = pos (a + n)
add_i128 (negsuc a) n = if ltb a n then pos (n - a - 1) else negsuc (a - n)

sub-add :
    (start defined_start addr : ℕ)
    → defined_start ≤ addr
    → add_i128 (sub_i128 start defined_start) addr ≡ pos (start + (addr - defined_start))
unfolding sub_i128
sub-add start defined_start addr le = elim (Bool-cases (leb defined_start start)) [
  | inl up ↦ rw up (ap pos (upwards start defined_start addr le up))
  | inr down ↦
      rw (down, (downwards start defined_start addr le down).0)
        (ap pos (downwards start defined_start addr le down).1)
]
  where
    upwards : (s d a : ℕ) → d ≤ a → leb d s ≡ true → s - d + a ≡ s + (a - d)
    upwards s d a le h = ground arith

    downwards :
        (s d a : ℕ)
        → d ≤ a
        → leb d s ≡ false
        → (ltb (d - s - 1) a ≡ true) × (a - (d - s - 1) - 1 ≡ s + (a - d))
    downwards s d a le h = (ground arith, ground arith)

abbrev tls_header : ProgramHeader → ShType → Option ProgramHeader → Option ProgramHeader
tls_header ph tls before = some ph
tls_header ph load before = before
tls_header ph dynamic before = before
tls_header ph gnu_relro before = before
tls_header ph null before = before

-- The last header for thread local storage that needs memory.
abbrev pub last_tls : Option ProgramHeader → List ProgramHeader → Option ProgramHeader
last_tls before [] = before
last_tls before (ph ∷ phs) =
    last_tls (if ph.mem_size == 0 then before else tls_header ph ph.ty before) phs

abbrev pub Describes : ℤ → Option ProgramHeader → Option TlsTemplate → Type 0
Describes offset none none = Unit
Describes offset none (some t) = ⊥
Describes offset (some ph) none = ⊥
Describes offset (some ph) (some t) =
    (add_i128 offset ph.virtual_addr ≡ pos t.start_virt_addr)
    × (t.mem_size ≡ ph.mem_size)
    × (t.file_size ≡ ph.file_size)

module _ {S : Type 0} (m : Mapper S) (x : Addresses) (sums : AreAddresses x) where
  module _ (elf : ElfFile) (start defined_start : ℕ) where
    abbrev Told : Option ProgramHeader → Option TlsTemplate → Type 0
    Told = Describes (sub_i128 start defined_start)

    tls_of-Told :
        (ph : ProgramHeader) (at : Placed) (ty : ShType) (before : Option ProgramHeader)
        (template : Option TlsTemplate)
        → Places elf.phys_addr start defined_start ph at
        → Told before template
        → Told (tls_header ph ty before) (tls_of ph at ty template)
    tls_of-Told ph at tls before template p h = (
      sub-add start defined_start ph.virtual_addr p.at_least ∙ ap pos (sym p.seg_start),
      refl,
      refl,
    )
    tls_of-Told ph at load before template p h = h
    tls_of-Told ph at dynamic before template p h = h
    tls_of-Told ph at gnu_relro before template p h = h
    tls_of-Told ph at null before template p h = h

    load_header-Told :
        (im : Image S) (ph : ProgramHeader) (before : Option ProgramHeader)
        (template : Option TlsTemplate) {r : Option TlsTemplate × Image S}
        → Told before template
        → load_header m x elf start defined_start im template ph ≡ done r
        → Told (tls_header ph ph.ty before) r.0
    unfolding load_header
    load_header-Told im ph before template h e =
        let (at, e₁, f₁) = >>=-eq-done (place_segment x elf.phys_addr start defined_start ph) _ e in
        let (im₁, e₂, f₂) = >>=-eq-done (mark_placed m x elf start defined_start im at) _ f₁ in
        let (im₂, e₃, f₃) =
          >>=-eq-done (load_by_type m x elf start defined_start im₁ ph at ph.ty) _ f₂ in
        subst (λ (r : Option TlsTemplate × Image S). Told (tls_header ph ph.ty before) r.0)
          (done-injective f₃)
          (tls_of-Told ph at ph.ty before template
            (place_segment-Places x sums elf.phys_addr start defined_start ph e₁) h)

    load_headers-Told :
        (im : Image S) (before : Option ProgramHeader) (template : Option TlsTemplate)
        (phs : List ProgramHeader) {r : Option TlsTemplate × Image S}
        → Told before template
        → load_headers m x elf start defined_start im template phs ≡ done r
        → Told (last_tls before phs) r.0
    unfolding load_headers
    load_headers-Told im before template [] h e =
        subst (λ (r : Option TlsTemplate × Image S). Told before r.0) (done-injective e) h
    load_headers-Told im before template (ph ∷ phs) h e =
        let ((template', im₁), e₁, f₁) =
          >>=-eq-done
            (if ph.mem_size == 0
              then done (template, im)
              else load_header m x elf start defined_start im template ph)
            _ e in
        elim (Bool-cases (ph.mem_size == 0)) [
          | inl none_there ↦ rw none_there (
              load_headers-Told im₁ before template' phs
                (subst (λ (r : Option TlsTemplate × Image S). Told before r.0)
                  (done-injective (rw none_there at e₁)) h)
                f₁)
          | inr some_there ↦ rw some_there (
              load_headers-Told im₁ (tls_header ph ph.ty before) template' phs
                (load_header-Told im ph before template h (rw some_there at e₁)) f₁)
        ]

  -- When the call returns: the offset is the difference between the start of the last entry of the
  -- top table and the least address of the file's loadable segments, and what it gives for an
  -- address of the file is where the kernel has it: the entry point, and the start of the last TLS
  -- segment that needs memory, which is the template that is told, with its sizes, or none is.
  pub load_kernel_to_virt_mem-told :
      (file : KernelFile) (im : Image S) {r : LoadKernel} {im' : Image S}
      → load_kernel_to_virt_mem m x file im ≡ done (r, im')
      → (defined_start : ℕ) × (size : ℕ) × (virt_space file.elf.program_headers
          ≡ done (defined_start, size))
        × (r.kernel_virt_space_offset ≡ sub_i128 (x.p4_start kernel_bytes_p4) defined_start)
        × (add_i128 r.kernel_virt_space_offset file.elf.entry_point ≡ pos r.kernel_entry)
        × Describes r.kernel_virt_space_offset
            (last_tls none file.elf.program_headers)
            r.tls_template
  unfolding load_kernel_to_virt_mem load_at
  load_kernel_to_virt_mem-told file im e =
      let (u, e₁, f₁) = >>=-eq-done (assert file.is_sane) _ e in
      let (v, e₂, f₂) = >>=-eq-done (assert (has_space file.ty)) _ f₁ in
      let ((defined_start, size), e₃, f₃) =
        >>=-eq-done (virt_space file.elf.program_headers) _ f₂ in
      let (t, e₄, f₄) = >>=-eq-done (take_p4 im.tracked size kernel_bytes_p4) _ f₃ in
      let start = x.p4_start kernel_bytes_p4 in
      let ((template, im₁), e₅, f₅) =
        >>=-eq-done
          (load_headers m x file.elf start defined_start (record im { tracked = t }) none
            file.elf.program_headers)
          _ f₄ in
      let (im₂, e₆, f₆) =
        >>=-eq-done (clear_marks m x file.elf start defined_start im₁ file.elf.program_headers) _
          f₅ in
      let (entry, e₇, f₇) = >>=-eq-done (shifted x start defined_start file.elf.entry_point) _ f₆ in
      let (le, entry_is) = shifted-done x sums start defined_start file.elf.entry_point e₇ in
      let is = ap (λ (p : LoadKernel × Image S). p.0) (done-injective f₇) in
      let told =
        subst
          (λ (r : LoadKernel).
            (r.kernel_virt_space_offset ≡ sub_i128 start defined_start)
            × (add_i128 r.kernel_virt_space_offset file.elf.entry_point ≡ pos r.kernel_entry)
            × Describes r.kernel_virt_space_offset (last_tls none file.elf.program_headers)
                r.tls_template)
          is
          (
            refl,
            sub-add start defined_start file.elf.entry_point le ∙ ap pos (sym entry_is),
            load_headers-Told file.elf start defined_start (record im { tracked = t }) none none
                file.elf.program_headers tt e₅,
          ) in
      (defined_start, size, e₃, told.0, told.1, told.2)

-- A loadable segment of the file, where it is placed: from the first address of the kernel on, and
-- below the end of the space that is reserved for it.
pub place_segment-in_space :
    (x : Addresses) (before after : List ProgramHeader) (ph : ProgramHeader)
    (kernel_bytes start : ℕ) {defined_start size : ℕ} {at : Placed}
    → AreAddresses x
    → virt_space (before ++ ph ∷ after) ≡ done (defined_start, size)
    → is_load ph.ty ≡ true
    → place_segment x kernel_bytes start defined_start ph ≡ done at
    → (start ≤ at.seg_start) × (at.mem_end ≤ start + size)
place_segment-in_space x before after ph kernel_bytes start {defined_start} {size} sums e loads f =
    let inside =
      (All-append_right (LiesIn defined_start (defined_start + size)) before (ph ∷ after)
          (virt_space-LiesIn (before ++ ph ∷ after) e)).0
        loads in
    let p = place_segment-Places x sums kernel_bytes start defined_start ph f in
    (
      omega (arith, p.seg_start),
      omega (arith, p.seg_start, p.mem_end, p.at_least, inside.0, inside.1),
    )
