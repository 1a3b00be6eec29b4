-- ===== src/KernelLoader/Write.antt =====
-- A write to the kernel's pages changes the bytes of its range and no others, and none of the file.
use miniature.Base.{
  ℕ, zero, suc, ◌+◌, ◌-◌, ◌*◌, ◌/◌, ◌<◌, ◌≡◌, refl, ap, ◌∙◌, subst, List, length, take, drop,
  Option, leb, done, or_panic, sub64, assert, >>=-eq-done, done-injective, arith,
}
use miniature.Loader.{Mapper, copy_from_slice, page_span}
use miniature.Loader.Remap.{IsMapper, view, ==_ne}
use miniature.Loader.Bytes.{written, or_panic-done, sub64-sum}
use miniature.Loader.Write.{
  written-WrotePage, WrotePage, Wrote, Wrote-none, Wrote-next, Wrote-within,
}
use miniature.Loader.Segment.Fresh.{FillsOnly}
use miniature.Loader.Segment.Pages.{KeepsOut}
use miniature.KernelLoader.{
  Image, copy_page_and_remap, write_page, write_pages, copy_pages_and_write,
}
use miniature.KernelLoader.Files.{space, Intact, Intact-fill, copy_page_and_remap-Copied}

copy_from_slice-FillsOnly :
    (start : ℕ) (src : List ℕ) → FillsOnly (λ memory frame. copy_from_slice memory frame start src)
copy_from_slice-FillsOnly start src memory new frame offset ne = rw (==_ne frame new ne) refl

module _ {S : Type 0} (m : Mapper S) (law : IsMapper m) (first n : ℕ) (bytes : ℕ → ℕ → ℕ)
    (keeps : KeepsOut m law first n) where
  write_page-Intact :
      (im : Image S) (addr end_inclusive : ℕ) (buf : List ℕ) (page : ℕ) {im' : Image S}
      → end_inclusive + 1 ≡ addr + length buf
      → Intact m first n bytes im
      → write_page m im addr end_inclusive buf page ≡ done im'
      → Intact m first n bytes im' × WrotePage m law (space im) addr buf page (space im')
  unfolding write_page
  write_page-Intact im addr end_inclusive buf page last h e =
      let ((frame, im₁), e₁, f₁) = >>=-eq-done (copy_page_and_remap m im page) _ e in
      let (phys_addr, e₂, f₂) = >>=-eq-done (or_panic frame) _ f₁ in
      let ((start, count, skip), e₃, f₃) = >>=-eq-done (page_span addr end_inclusive page) _ f₂ in
      let (u, e₄, f₄) = >>=-eq-done (assert (leb (skip + count) (length buf))) _ f₃ in
      let copied =
        copy_page_and_remap-Copied m law first n bytes im page phys_addr keeps h
          (e₁ ∙ ap (λ (f : Option ℕ). done (f, im₁)) (or_panic-done frame e₂)) in
      let is = done-injective f₄ in
      let src = take count (drop skip buf) in
      (
        subst (Intact m first n bytes) is (
            Intact-fill m law first n bytes im₁
              (λ memory frame. copy_from_slice memory frame start src) phys_addr
              (copy_from_slice-FillsOnly start src) copied.apart copied.intact),
        subst (λ im'. WrotePage m law (space im) addr buf page (space im')) is
            (written-WrotePage m law (space im) (space im₁) addr end_inclusive buf page phys_addr
              last copied.remaps e₃ e₄),
      )

  write_pages-Intact :
      (im : Image S) (addr end_inclusive : ℕ) (buf : List ℕ) (page count : ℕ) {im' : Image S}
      → end_inclusive + 1 ≡ addr + length buf
      → Intact m first n bytes im
      → write_pages m im addr end_inclusive buf page count ≡ done im'
      → Intact m first n bytes im' × Wrote m law (space im) addr buf page count (space im')
  unfolding write_pages
  write_pages-Intact im addr end_inclusive buf page zero last h e =
      let is = done-injective e in
      (
        subst (Intact m first n bytes) is h,
        subst (λ im'. Wrote m law (space im) addr buf page 0 (space im')) is
            (Wrote-none m law (space im) addr buf page h.owns),
      )
  write_pages-Intact im addr end_inclusive buf page (suc count) {im'} last h e =
      let (im₁, e₁, f₁) = >>=-eq-done (write_page m im addr end_inclusive buf page) _ e in
      let (h₁, one) = write_page-Intact im addr end_inclusive buf page last h e₁ in
      let (h', more) = write_pages-Intact im₁ addr end_inclusive buf (page + 1) count last h₁ f₁ in
      (h', Wrote-next m law (space im) (space im₁) (space im') addr buf page count one more)

  -- A write that returns, on a table whose marked pages own their frames, from an allocator that
  -- does not answer frames of the file: every page then shows the bytes of the buffer at the
  -- addresses from `addr` on, as many as it has, and at every other address what it showed before,
  -- and the file is as it was.
  pub copy_pages_and_write-Intact :
      (im : Image S) (addr : ℕ) (buf : List ℕ) {im' : Image S}
      → Intact m first n bytes im
      → copy_pages_and_write m im addr buf ≡ done im'
      → Intact m first n bytes im'
        × ((q offset : ℕ)
            → offset < 4096
            → view m (space im') q offset
              ≡ written addr buf (q * 4096 + offset) (view m (space im) q offset))
  unfolding copy_pages_and_write
  copy_pages_and_write-Intact im addr buf {im'} h e =
      let (rest, e₁, f₁) = >>=-eq-done (sub64 (length buf) 1) _ e in
      let (end, e₂, f₂) = >>=-eq-done (or_panic (m.forward_checked addr rest)) _ f₁ in
      let end_is = law.forward addr rest end (or_panic-done (m.forward_checked addr rest) e₂) in
      let last : end + 1 ≡ addr + length buf = omega (arith, end_is, sub64-sum (length buf) 1 e₁) in
      let pages : write_pages m im addr end buf (addr / 4096) (end / 4096 + 1 - addr / 4096)
          ≡ done im' =
        rw (law.containing_address addr, law.containing_address end) at f₂ in
      let (h', wrote) =
        write_pages-Intact im addr end buf (addr / 4096) (end / 4096 + 1 - addr / 4096) last h
          pages in
      (h', Wrote-within m law (space im) (space im') addr end buf last wrote)
