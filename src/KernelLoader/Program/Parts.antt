-- ===== src/KernelLoader/Program/Parts.antt =====
-- Segments, relocations and flags leave the file of the kernel as it was.
use miniature.Base.{
  ℕ, zero, suc, ◌+◌, ◌-◌, ◌/◌, ◌<◌, ◌≤◌, ◌≡◌, refl, subst, true, false, inl, inr, Bool-cases, List,
  [], ◌∷◌, Option, none, some, leb, ltb, ◌==◌, done, assert, or_panic, sub64, add64, mul64,
  >>=-eq-done, done-injective, arith,
}
use miniature.Loader.{PtFlags, Mapper}
use miniature.Loader.Remap.{IsMapper}
use miniature.Loader.Segment.{ProgramHeader, seg_flags}
use miniature.Loader.Segment.Fresh.{among}
use miniature.Loader.Segment.Pages.{KeepsOut}
use miniature.Loader.Segment.Loaded.{page_count}
use miniature.Loader.Program.{ElfFile, DynamicSection, rela_bytes, relative, le_bytes}
use miniature.Loader.Program.Marks.{KeepsMarks}
use miniature.KernelLoader.{
  Image, Addresses, Placed, map_file_frames, shifted, load_placed, mask_range,
}
use miniature.KernelLoader.Program.{apply_rela, apply_relas, relocate}
use miniature.KernelLoader.Files.{Intact, update_page_flag-Intact}
use miniature.KernelLoader.Pages.{map_file_frames-Shows}
use miniature.KernelLoader.Write.{copy_pages_and_write-Intact}
use miniature.KernelLoader.Segments.{AreAddresses, Places, clear_bss-Zeros}

-- The check of the crate xmas_elf on a header: its bytes are in the file.
abbrev pub InFile : ℕ → List ProgramHeader → Type 0
InFile len [] = Unit {0}
InFile len (ph ∷ phs) = (ph.offset + ph.file_size ≤ len) × InFile len phs

frames_in_file :
    (base len from size last f : ℕ)
    → 1 ≤ len
    → base ≤ from
    → from + size ≤ base + len
    → last + 1 ≡ from + size
    → among (from / 4096) (last / 4096 + 1 - from / 4096) f ≡ true
    → among (base / 4096) (page_count base len) f ≡ true
frames_in_file base len from size last f le le' fits is a = ground arith

module _ {S : Type 0} (m : Mapper S) (law : IsMapper m) (x : Addresses) (sums : AreAddresses x)
    (elf : ElfFile) (bytes : ℕ → ℕ → ℕ) (filled : 1 ≤ elf.len)
    (keeps : KeepsOut m law (elf.phys_addr / 4096) (page_count elf.phys_addr elf.len)) where
  -- The frames of the file have their bytes.
  abbrev pub FileIntact : Image S → Type 0
  FileIntact = Intact m (elf.phys_addr / 4096) (page_count elf.phys_addr elf.len) bytes

  pub mask_range-FileIntact :
      (im : Image S) (from last : ℕ) (mask : PtFlags → PtFlags) {im' : Image S}
      → KeepsMarks mask
      → FileIntact im
      → mask_range m x im from last mask ≡ done im'
      → FileIntact im'
  unfolding mask_range
  mask_range-FileIntact im from last mask marks h e =
      update_page_flag-Intact m law _ _ bytes im _ _ mask marks h e

  pub load_placed-FileIntact :
      (im : Image S) (ph : ProgramHeader) (at : Placed) {start defined_start : ℕ} {im' : Image S}
      → ph.offset + ph.file_size ≤ elf.len
      → Places elf.phys_addr start defined_start ph at
      → FileIntact im
      → load_placed m x im ph at ≡ done im'
      → FileIntact im'
  unfolding load_placed
  load_placed-FileIntact im ph at {im' = im'} fits p h e =
      let e' =
        rw (law.containing_address at.bytes_start, law.containing_address at.bytes_last) at e in
      let (im₁, e₁, f₁) =
        >>=-eq-done
          (map_file_frames m im (m.containing_address at.seg_start) (at.bytes_start / 4096)
            (seg_flags ph) (at.bytes_last / 4096 + 1 - at.bytes_start / 4096))
          _ e' in
      let h₁ =
        (map_file_frames-Shows m law _ _ bytes im _ _ _ (seg_flags ph) refl
          (λ f.
            frames_in_file elf.phys_addr elf.len at.bytes_start ph.file_size at.bytes_last f filled
              (omega (arith, p.bytes_start)) (omega (arith, fits, p.bytes_start)) p.bytes_last)
          h e₁).0 in
      elim (Bool-cases (leb ph.mem_size ph.file_size)) [
        | inl small ↦ subst FileIntact (done-injective (rw small at f₁)) h₁
        | inr large ↦
            (clear_bss-Zeros m law _ _ bytes x sums im₁ at.file_end at.mem_end (seg_flags ph) refl
              (above at.seg_start ph.file_size ph.mem_size at.file_end at.mem_end large p.file_end
                p.mem_end)
              keeps h₁ (rw large at f₁)).0
      ]
    where
      above :
          (c b a file_end mem_end : ℕ)
          → leb a b ≡ false
          → file_end ≡ c + b
          → mem_end ≡ c + a
          → file_end < mem_end
      above c b a file_end mem_end h e f = ground arith

  module _ (start defined_start : ℕ) where
    apply_relas-FileIntact :
        (im : Image S) (rela_ptr idx count : ℕ) {im' : Image S}
        → FileIntact im
        → apply_relas m x elf start defined_start im rela_ptr idx count ≡ done im'
        → FileIntact im'
    unfolding apply_relas apply_rela
    apply_relas-FileIntact im rela_ptr idx zero h e = subst FileIntact (done-injective e) h
    apply_relas-FileIntact im rela_ptr idx (suc count) h e =
        let (base, e₁, f₁) = >>=-eq-done (sub64 rela_ptr defined_start) _ e in
        let (place, e₂, f₂) = >>=-eq-done (mul64 idx rela_bytes) _ f₁ in
        let (index, e₃, f₃) = >>=-eq-done (add64 base place) _ f₂ in
        let (u, e₄, f₄) = >>=-eq-done (assert (ltb index elf.len)) _ f₃ in
        let r = elf.rela_at index in
        let (im₁, e₅, f₅) = >>=-eq-done (apply_rela m x elf start defined_start im r) _ f₄ in
        let (v, e₆, f₆) = >>=-eq-done (assert (r.symbol_table_index == 0)) _ e₅ in
        let (w, e₇, f₇) = >>=-eq-done (assert (r.ty == relative)) _ f₆ in
        let (offset, e₈, f₈) = >>=-eq-done (shifted x start defined_start r.offset) _ f₇ in
        let (attend, e₉, f₉) = >>=-eq-done (shifted x start defined_start r.addend) _ f₈ in
        let written =
          copy_pages_and_write-Intact m law _ _ bytes keeps im offset (le_bytes 8 attend) h f₉ in
        apply_relas-FileIntact im₁ rela_ptr (idx + 1) count written.0 f₅

    pub relocate-FileIntact :
        (im : Image S) (d : DynamicSection) (p : Option ℕ) {im' : Image S}
        → FileIntact im
        → relocate m x elf start defined_start im d p ≡ done im'
        → FileIntact im'
    relocate-FileIntact im d none h e = subst FileIntact (done-injective e) h
    relocate-FileIntact im d (some ptr) h e =
        let (total, e₁, f₁) = >>=-eq-done (or_panic d.size) _ e in
        let (entry, e₂, f₂) = >>=-eq-done (or_panic d.ent) _ f₁ in
        let (u, e₃, f₃) = >>=-eq-done (assert (entry == rela_bytes)) _ f₂ in
        apply_relas-FileIntact im ptr 0 (total / entry) h f₃
