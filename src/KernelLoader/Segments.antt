-- ===== src/KernelLoader/Segments.antt =====
-- A loadable segment of the kernel: the frames of the file are mapped, and zeros follow.
use miniature.Base.{
  ℕ, ◌+◌, ◌-◌, ◌*◌, ◌/◌, ◌%◌, ◌<◌, ◌≤◌, ◌≡◌, refl, ap, ◌∙◌, subst, true, false, inl, inr,
  Bool-cases, Option, some, leb, leb→le, ◌==◌, if◌then◌else◌, done, ◌>>=◌, or_panic, sub64,
  >>=-eq-done, done-injective, arith,
}
use miniature.Loader.{PtFlags, Mapper, zero_from}
use miniature.Loader.Remap.{IsMapper, Remaps}
use miniature.Loader.Bytes.{or_panic-done, sub64-sum}
use miniature.Loader.Segment.{ProgramHeader, seg_flags}
use miniature.Loader.Segment.Fresh.{zero_from-FillsOnly, among}
use miniature.Loader.Segment.Pages.{KeepsOut}
use miniature.Loader.Segment.Contents.{rounded, Zeros, zero_page, aligned_end, Zeros-pages}
use miniature.Loader.Segment.Loaded.{page_count, Loads, file_Loads, bss_Loads}
use miniature.KernelLoader.{
  Image, Addresses, Placed, copy_page_and_remap, map_file_frames, map_bss_pages, clear_file_end,
  clear_bss, shifted, place_segment, load_placed,
}
use miniature.KernelLoader.Pages.{map_file_frames-Shows, map_bss_pages-Shows}
use miniature.KernelLoader.Files.{space, Intact, Intact-fill, copy_page_and_remap-Copied}

-- Documented of the arithmetic on addresses: what is answered is the sum, the difference and the boundary.
pub record AreAddresses (x : Addresses) : Type 0 where
  pub virt_add : (a n : ℕ) {b : ℕ} → x.virt_add a n ≡ some b → b ≡ a + n
  pub virt_sub : (a n : ℕ) {b : ℕ} → x.virt_sub a n ≡ some b → b + n ≡ a
  pub phys_add : (a n : ℕ) {b : ℕ} → x.phys_add a n ≡ some b → b ≡ a + n
  pub phys_sub : (a n : ℕ) {b : ℕ} → x.phys_sub a n ≡ some b → b + n ≡ a
  pub align_up : (a : ℕ) → x.align_up a ≡ rounded a

module _ {S : Type 0} (m : Mapper S) (law : IsMapper m) (first n : ℕ) (bytes : ℕ → ℕ → ℕ)
    (x : Addresses) (sums : AreAddresses x) where
  clear_file_end-Zeros :
      (im : Image S) (bss : ℕ) {im' : Image S}
      → KeepsOut m law first n
      → Intact m first n bytes im
      → clear_file_end m x im bss ≡ done im'
      → Intact m first n bytes im' × Zeros m law (space im) bss (rounded bss) (space im')
  unfolding clear_file_end
  clear_file_end-Zeros im bss {im'} keeps h e = elim (Bool-cases (bss % 4096 == 0)) [
    | inl whole ↦
        let is = done-injective (rw whole at e) in
        (
          subst (Intact m first n bytes) is h,
          subst (λ im'. Zeros m law (space im) bss (rounded bss) (space im')) is
              (h.owns, λ q offset lt. rw (aligned_end bss (q * 4096 + offset) whole) refl),
        )
    | inr part ↦
        let (before, e₁, f₁) = >>=-eq-done (or_panic (x.virt_sub bss 1)) _ (rw part at e) in
        let ((f, im₁), e₂, f₂) =
          >>=-eq-done (copy_page_and_remap m im (m.containing_address before)) _ f₁ in
        let (frame, e₃, f₃) = >>=-eq-done (or_panic f) _ f₂ in
        let sum = sums.virt_sub bss 1 (or_panic-done (x.virt_sub bss 1) e₁) in
        let page_is : m.containing_address before ≡ (bss - 1) / 4096 =
          law.containing_address before ∙ ap (λ a. a / 4096) (less bss before sum) in
        let copied =
          copy_page_and_remap-Copied m law first n bytes im (m.containing_address before) frame
            keeps h (e₂ ∙ ap (λ (f : Option ℕ). done (f, im₁)) (or_panic-done f e₃)) in
        let is = done-injective f₃ in
        (
          subst (Intact m first n bytes) is (
              Intact-fill m law first n bytes im₁
                (λ memory frame. zero_from memory frame (bss % 4096)) frame
                (zero_from-FillsOnly (bss % 4096)) copied.apart copied.intact),
          subst (λ im'. Zeros m law (space im) bss (rounded bss) (space im')) is
              (zero_page m law (space im) (space im₁) frame bss (omega (arith, sum)) part
                (subst (λ p. Remaps m (space im) p frame (space im₁)) page_is copied.remaps)),
        )
  ]
    where
      less : (bss before : ℕ) → before + 1 ≡ bss → before ≡ bss - 1
      less bss before e = omega arith

  pub clear_bss-Zeros :
      (im : Image S) (bss end : ℕ) (flags : PtFlags) {im' : Image S}
      → flags.bit_9 ≡ false
      → bss < end
      → KeepsOut m law first n
      → Intact m first n bytes im
      → clear_bss m x im bss end flags ≡ done im'
      → Intact m first n bytes im' × Zeros m law (space im) bss (rounded end) (space im')
  unfolding clear_bss
  clear_bss-Zeros im bss end flags {im'} plain lt keeps h e =
      let (im₁, e₁, f₁) = >>=-eq-done (clear_file_end m x im bss) _ e in
      let (last, e₂, f₂) = >>=-eq-done (or_panic (x.virt_sub end 1)) _ f₁ in
      let sum = sums.virt_sub end 1 (or_panic-done (x.virt_sub end 1) e₂) in
      let last_is : last ≡ end - 1 = omega (arith, sum) in
      let (h₁, zeros) = clear_file_end-Zeros im bss keeps h e₁ in
      let pages : map_bss_pages m im₁ (rounded bss / 4096) flags
            ((end - 1) / 4096 + 1 - rounded bss / 4096)
          ≡ done im' =
        rw
          (
            law.containing_address (x.align_up bss),
            law.containing_address last,
            sums.align_up bss,
            last_is,
          )
          at f₂ in
      let (h', shows) =
        map_bss_pages-Shows m law first n bytes im₁ (rounded bss / 4096)
          ((end - 1) / 4096 + 1 - rounded bss / 4096) flags plain keeps h₁ pages in
      (h', Zeros-pages m law (space im) (space im₁) (space im') bss end lt zeros shows)

-- A segment at its addresses, in the file and in memory.
pub record Places (kernel_bytes start defined_start : ℕ) (ph : ProgramHeader) (at : Placed)
    : Type 0 where
  pub at_least : defined_start ≤ ph.virtual_addr
  pub bytes_start : at.bytes_start ≡ kernel_bytes + ph.offset
  pub bytes_last : at.bytes_last + 1 ≡ at.bytes_start + ph.file_size
  pub seg_start : at.seg_start ≡ start + (ph.virtual_addr - defined_start)
  pub file_end : at.file_end ≡ at.seg_start + ph.file_size
  pub mem_end : at.mem_end ≡ at.seg_start + ph.mem_size
  pub mem_last : at.mem_last + 1 ≡ at.mem_end

module _ (x : Addresses) (sums : AreAddresses x) where
  pub shifted-done :
      (start defined_start addr : ℕ) {b : ℕ}
      → shifted x start defined_start addr ≡ done b
      → (defined_start ≤ addr) × (b ≡ start + (addr - defined_start))
  unfolding shifted
  shifted-done start defined_start addr {b} e =
      let (shift, e₁, f₁) = >>=-eq-done (sub64 addr defined_start) _ e in
      let sum = sub64-sum addr defined_start e₁ in
      let is = sums.virt_add start shift (or_panic-done (x.virt_add start shift) f₁) in
      (omega (arith, sum), omega (arith, sum, is))

  pub place_segment-Places :
      (kernel_bytes start defined_start : ℕ) (ph : ProgramHeader) {at : Placed}
      → place_segment x kernel_bytes start defined_start ph ≡ done at
      → Places kernel_bytes start defined_start ph at
  unfolding place_segment
  place_segment-Places kernel_bytes start defined_start ph e =
      let (bytes_start, e₁, f₁) = >>=-eq-done (or_panic (x.phys_add kernel_bytes ph.offset)) _ e in
      let (seg_start, e₂, f₂) = >>=-eq-done (shifted x start defined_start ph.virtual_addr) _ f₁ in
      let (mem_end, e₃, f₃) = >>=-eq-done (or_panic (x.virt_add seg_start ph.mem_size)) _ f₂ in
      let (file_end, e₄, f₄) = >>=-eq-done (or_panic (x.virt_add seg_start ph.file_size)) _ f₃ in
      let (bytes_end, e₅, f₅) = >>=-eq-done (or_panic (x.phys_add bytes_start ph.file_size)) _ f₄ in
      let (bytes_last, e₆, f₆) = >>=-eq-done (or_panic (x.phys_sub bytes_end 1)) _ f₅ in
      let (mem_last, e₇, f₇) = >>=-eq-done (or_panic (x.virt_sub mem_end 1)) _ f₆ in
      let (at_least, start_is) = shifted-done start defined_start ph.virtual_addr e₂ in
      subst (Places kernel_bytes start defined_start ph)
        (done-injective
          {a = record {
            bytes_start = bytes_start;
            bytes_last = bytes_last;
            seg_start = seg_start;
            file_end = file_end;
            mem_end = mem_end;
            mem_last = mem_last;
          }}
          f₇)
        (record {
          at_least = at_least;
          bytes_start = sums.phys_add kernel_bytes ph.offset (or_panic-done _ e₁);
          bytes_last =
              sums.phys_sub bytes_end 1 (or_panic-done _ e₆)
              ∙ sums.phys_add bytes_start ph.file_size (or_panic-done _ e₅);
          seg_start = start_is;
          file_end = sums.virt_add seg_start ph.file_size (or_panic-done _ e₄);
          mem_end = sums.virt_add seg_start ph.mem_size (or_panic-done _ e₃);
          mem_last = sums.virt_sub mem_end 1 (or_panic-done _ e₇);
        })

-- The segment where the kernel has it.
abbrev pub moved : ProgramHeader → ℕ → ProgramHeader
moved ph addr = record ph { virtual_addr = addr }

module _ {S : Type 0} (m : Mapper S) (law : IsMapper m) (first n : ℕ) (bytes : ℕ → ℕ → ℕ)
    (x : Addresses) (sums : AreAddresses x) where
  -- The pages of a segment between addresses that are known.
  mapped_pages-Loads :
      (im : Image S) (ph : ProgramHeader) (from va : ℕ) {im' : Image S}
      → va % 4096 ≡ from % 4096
      → 1 ≤ ph.file_size
      → ((f : ℕ)
          → among (from / 4096) (page_count from ph.file_size) f ≡ true
          → among first n f ≡ true)
      → KeepsOut m law first n
      → Intact m first n bytes im
      → (map_file_frames m im
            (va / 4096)
            (from / 4096)
            (seg_flags ph)
            (page_count from ph.file_size)
          >>= λ im₁.
              if leb ph.mem_size ph.file_size
              then done im₁
              else clear_bss m x im₁ (va + ph.file_size) (va + ph.mem_size) (seg_flags ph))
        ≡ done im'
      → Intact m first n bytes im' × Loads m law (space im) from (moved ph va) (space im')
  mapped_pages-Loads im ph from va {im'} al le in_file keeps h e =
      let (im₁, e₁, f₁) =
        >>=-eq-done
          (map_file_frames m im (va / 4096) (from / 4096) (seg_flags ph)
            (page_count from ph.file_size))
          _ e in
      let (h₁, shows) =
        map_file_frames-Shows m law first n bytes im (va / 4096) (from / 4096)
          (page_count from ph.file_size) (seg_flags ph) refl in_file h e₁ in
      elim (Bool-cases (leb ph.mem_size ph.file_size)) [
        | inl small ↦
            subst
              (λ im'.
                Intact m first n bytes im' × Loads m law (space im) from (moved ph va) (space im'))
              (done-injective (rw small at f₁))
              (
                h₁,
                file_Loads m law (space im) from (moved ph va) (space im₁) al le
                    (leb→le ph.mem_size ph.file_size small) shows,
              )
        | inr large ↦
            let lt = not_le ph.mem_size ph.file_size large in
            let (h', zeros) =
              clear_bss-Zeros m law first n bytes x sums im₁ (va + ph.file_size) (va + ph.mem_size)
                (seg_flags ph) refl (omega (arith, lt)) keeps h₁ (rw large at f₁) in
            (
              h',
              bss_Loads m law (space im) from (moved ph va) (space im₁) (space im') al le lt shows
                  zeros,
            )
      ]
    where
      not_le : (a b : ℕ) → leb a b ≡ false → b < a
      not_le a b h = ground arith

  -- A segment that is placed and has bytes in the file, whose address in the kernel and in the
  -- physical memory agree in the page offset, from frames of the file, which the allocator does not
  -- answer; when the call returns: the file is intact, the segment's addresses show its bytes, then
  -- zeros up to its size in memory, and the pages before and after it show what they did.
  pub load_placed-Loads :
      (im : Image S) (ph : ProgramHeader) (kernel_bytes start defined_start : ℕ) (at : Placed)
      {im' : Image S}
      → at.seg_start % 4096 ≡ at.bytes_start % 4096
      → 1 ≤ ph.file_size
      → ((f : ℕ)
          → among (at.bytes_start / 4096) (page_count at.bytes_start ph.file_size) f ≡ true
          → among first n f ≡ true)
      → KeepsOut m law first n
      → Intact m first n bytes im
      → place_segment x kernel_bytes start defined_start ph ≡ done at
      → load_placed m x im ph at ≡ done im'
      → Intact m first n bytes im'
        × Loads m law
            (space im)
            (kernel_bytes + ph.offset)
            (moved ph (start + (ph.virtual_addr - defined_start)))
            (space im')
  unfolding load_placed
  load_placed-Loads im ph kernel_bytes start defined_start at {im'} al le in_file keeps h e f =
      let p = place_segment-Places x sums kernel_bytes start defined_start ph e in
      let last_is : at.bytes_last ≡ at.bytes_start + ph.file_size - 1 =
        omega (arith, p.bytes_last) in
      let f' =
        rw
          (
            last_is,
            p.file_end,
            p.mem_end,
            law.containing_address at.bytes_start,
            law.containing_address (at.bytes_start + ph.file_size - 1),
            law.containing_address at.seg_start,
          )
          at f in
      let (h', loads) =
        mapped_pages-Loads im ph at.bytes_start at.seg_start al le in_file keeps h f' in
      (
        h',
        subst
            (λ a.
              Loads m law (space im) a (moved ph (start + (ph.virtual_addr - defined_start)))
                (space im'))
            p.bytes_start
            (subst (λ a. Loads m law (space im) at.bytes_start (moved ph a) (space im')) p.seg_start
              loads),
      )
