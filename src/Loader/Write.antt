-- ===== src/Loader/Write.antt =====
-- A write through the page table changes the bytes of its range and no others.
use miniature.Base.{
  ℕ, zero, suc, ◌+◌, ◌-◌, ◌*◌, ◌/◌, ◌≤◌, ◌<◌, ◌≡◌, refl, sym, ap, ◌∙◌, subst, ◌&&◌, inl, inr, List,
  length, ◌⊎◌, take, drop, Option, ltb, leb, ◌==◌, if◌then◌else◌, done, or_panic, sub64, assert,
  >>=-eq-done, done-injective, arith,
}
use miniature.Loader.{
  PtFlags, mapped, Mapper, AddrSpace, copy_from_slice, copy_page_and_remap, page_span, write_page,
  write_pages, copy_pages_and_write,
}
use miniature.Loader.Remap.{
  IsMapper, view, Owns, MarksOwn, Remaps, copy_page_and_remap-Remaps, ==_self, ==_ne, same_or_ne,
}
use miniature.Loader.Bytes.{
  written, shown-outside, shown-inside, sub64-sum, page_span-done, or_panic-done,
}

module _ {S : Type 0} (m : Mapper S) (law : IsMapper m) where
  -- What the write of one page does to every page.
  view-write :
      (st₁ : AddrSpace S) (page frame start count skip addr : ℕ) (buf : List ℕ) (flags : PtFlags)
      → Owns m st₁ page frame
      → m.translate st₁.page_table page ≡ mapped frame flags
      → page * 4096 + start ≡ addr + skip
      → skip + count ≤ length buf
      → (start ≡ 0) ⊎ (skip ≡ 0)
      → (start + count ≡ 4096) ⊎ (skip + count ≡ length buf)
      → (q offset : ℕ) → offset < 4096
      → view m
          (record st₁ {
            memory = copy_from_slice st₁.memory frame start (take count (drop skip buf));
          })
          q
          offset
        ≡ (if q == page
            then written addr buf (q * 4096 + offset) (view m st₁ q offset)
            else view m st₁ q offset)
  view-write st₁ page frame start count skip addr buf flags owns at place fits low high q offset
        lt =
      elim (same_or_ne q page) [
        | inl same ↦
            subst
              (λ q.
                view m
                  (record st₁ {
                    memory = copy_from_slice st₁.memory frame start (take count (drop skip buf));
                  })
                  q offset
                ≡ (if q == page
                    then written addr buf (q * 4096 + offset) (view m st₁ q offset)
                    else view m st₁ q offset))
              (sym same)
              (rw (at, ==_self page)
                (shown-inside st₁.memory frame start count skip addr page offset buf place fits low
                  high lt))
        | inr apart ↦
            shown-outside st₁.memory frame start offset (take count (drop skip buf))
              (m.translate st₁.page_table q) (λ g fl t. owns q g fl apart t)
            ∙ rw (==_ne q page apart) refl
      ]

  -- The state after the write of one page.
  abbrev pub WrotePage : AddrSpace S → ℕ → List ℕ → ℕ → AddrSpace S → Type 0
  WrotePage st addr buf page st' =
      MarksOwn m st'
      × ((q offset : ℕ)
          → offset < 4096
          → view m st' q offset ≡ (
              if q == page
              then written addr buf (q * 4096 + offset) (view m st q offset)
              else view m st q offset))

  fits : {a b : ℕ} {u : Unit} → assert (leb a b) ≡ done u → a ≤ b
  fits e = ground arith

  -- The part of the buffer that a page takes, written to the frame that the page owns.
  pub written-WrotePage :
      (st st₁ : AddrSpace S) (addr end_inclusive : ℕ) (buf : List ℕ) (page frame : ℕ)
      {start count skip : ℕ} {u : Unit}
      → end_inclusive + 1 ≡ addr + length buf
      → Remaps m st page frame st₁
      → page_span addr end_inclusive page ≡ done (start, count, skip)
      → assert (leb (skip + count) (length buf)) ≡ done u
      → WrotePage st addr buf page (record st₁ {
        memory = copy_from_slice st₁.memory frame start (take count (drop skip buf));
      })
  written-WrotePage st st₁ addr end_inclusive buf page frame {start} {count} {skip} last h e₃ e₄ =
      let (place, low, high) = page_span-done addr end_inclusive page (length buf) last e₃ in
      (
        h.marks,
        λ q offset lt.
            view-write st₁ page frame start count skip addr buf h.flags h.owns h.at place (fits e₄)
              low high q offset lt
            ∙ ap (λ b. if q == page then written addr buf (q * 4096 + offset) b else b)
                (h.views q offset),
      )

  write_page-WrotePage :
      (st : AddrSpace S) (addr end_inclusive : ℕ) (buf : List ℕ) (page : ℕ) {st' : AddrSpace S}
      → end_inclusive + 1 ≡ addr + length buf
      → MarksOwn m st
      → write_page m st addr end_inclusive buf page ≡ done st'
      → WrotePage st addr buf page st'
  unfolding write_page
  write_page-WrotePage st addr end_inclusive buf page last own e =
      let ((frame, st₁), e₁, f₁) = >>=-eq-done (copy_page_and_remap m st page) _ e in
      let (phys_addr, e₂, f₂) = >>=-eq-done (or_panic frame) _ f₁ in
      let ((start, count, skip), e₃, f₃) = >>=-eq-done (page_span addr end_inclusive page) _ f₂ in
      let (u, e₄, f₄) = >>=-eq-done (assert (leb (skip + count) (length buf))) _ f₃ in
      let h =
        copy_page_and_remap-Remaps m law st page phys_addr own
          (e₁ ∙ ap (λ (f : Option ℕ). done (f, st₁)) (or_panic-done frame e₂)) in
      subst (WrotePage st addr buf page) (done-injective f₄)
        (written-WrotePage st st₁ addr end_inclusive buf page phys_addr last h e₃ e₄)

  -- After the pages from `page` on, `n` of them.
  abbrev pub Wrote : AddrSpace S → ℕ → List ℕ → ℕ → ℕ → AddrSpace S → Type 0
  Wrote st addr buf page n st' =
      MarksOwn m st'
      × ((q offset : ℕ)
          → offset < 4096
          → view m st' q offset ≡ (
              if leb page q && ltb q (page + n)
              then written addr buf (q * 4096 + offset) (view m st q offset)
              else view m st q offset))

  chosen :
      (page n q : ℕ) (f : Option ℕ → Option ℕ) (b : Option ℕ)
      → (if leb (page + 1) q && ltb q (page + 1 + n)
          then f (if q == page then f b else b)
          else (if q == page then f b else b))
        ≡ (if leb page q && ltb q (page + suc n) then f b else b)
  chosen page n q f b = ground arith

  pub Wrote-none :
      (st : AddrSpace S) (addr : ℕ) (buf : List ℕ) (page : ℕ)
      → MarksOwn m st
      → Wrote st addr buf page 0 st
  Wrote-none st addr buf page own = (own, λ q offset lt. none_yet q _ (view m st q offset))
    where
      none_yet : (q : ℕ) (a b : Option ℕ) → b ≡ (if leb page q && ltb q (page + 0) then a else b)
      none_yet q a b = ground arith

  -- One page, then the others.
  pub Wrote-next :
      (st st₁ st' : AddrSpace S) (addr : ℕ) (buf : List ℕ) (page n : ℕ)
      → WrotePage st addr buf page st₁
      → Wrote st₁ addr buf (page + 1) n st'
      → Wrote st addr buf page (suc n) st'
  Wrote-next st st₁ st' addr buf page n (own₁, one) (own', more) = (
    own',
    λ q offset lt.
        more q offset lt
        ∙ ap
            (λ b.
              if leb (page + 1) q && ltb q (page + 1 + n)
              then written addr buf (q * 4096 + offset) b
              else b)
            (one q offset lt)
        ∙ chosen page n q (written addr buf (q * 4096 + offset)) (view m st q offset),
  )

  write_pages-Wrote :
      (st : AddrSpace S) (addr end_inclusive : ℕ) (buf : List ℕ) (page n : ℕ) {st' : AddrSpace S}
      → end_inclusive + 1 ≡ addr + length buf
      → MarksOwn m st
      → write_pages m st addr end_inclusive buf page n ≡ done st'
      → Wrote st addr buf page n st'
  unfolding write_pages
  write_pages-Wrote st addr end_inclusive buf page zero last own e =
      subst (Wrote st addr buf page zero) (done-injective e) (Wrote-none st addr buf page own)
  write_pages-Wrote st addr end_inclusive buf page (suc n) {st'} last own e =
      let (st₁, e₁, e₂) = >>=-eq-done (write_page m st addr end_inclusive buf page) _ e in
      let one = write_page-WrotePage st addr end_inclusive buf page last own e₁ in
      Wrote-next st st₁ st' addr buf page n one
        (write_pages-Wrote st₁ addr end_inclusive buf (page + 1) n last one.0 e₂)

  within_pages :
      (addr size end q offset : ℕ) (w b : Option ℕ)
      → end + 1 ≡ addr + size
      → offset < 4096
      → (if leb (addr / 4096) q && ltb q (addr / 4096 + (end / 4096 + 1 - addr / 4096))
          then (if leb addr (q * 4096 + offset) && ltb (q * 4096 + offset) (addr + size)
              then w
              else b)
          else b)
        ≡ (if leb addr (q * 4096 + offset) && ltb (q * 4096 + offset) (addr + size) then w else b)
  within_pages addr size end q offset w b last lt = ground arith

  -- The pages of a range of addresses.
  pub Wrote-within :
      (st st' : AddrSpace S) (addr end : ℕ) (buf : List ℕ)
      → end + 1 ≡ addr + length buf
      → Wrote st addr buf (addr / 4096) (end / 4096 + 1 - addr / 4096) st'
      → (q offset : ℕ) → offset < 4096
      → view m st' q offset ≡ written addr buf (q * 4096 + offset) (view m st q offset)
  Wrote-within st st' addr end buf last (own, views) q offset lt =
      views q offset lt ∙ within_pages addr (length buf) end q offset _ (view m st q offset) last lt

  -- A write that returns: every page then shows the bytes of the buffer at the addresses from `addr`
  -- on, as many as it has, and at every other address what it showed before.
  pub copy_pages_and_write-written :
      (st : AddrSpace S) (addr : ℕ) (buf : List ℕ) {st' : AddrSpace S}
      → MarksOwn m st
      → copy_pages_and_write m st addr buf ≡ done st'
      → MarksOwn m st'
        × ((q offset : ℕ)
            → offset < 4096
            → view m st' q offset ≡ written addr buf (q * 4096 + offset) (view m st q offset))
  unfolding copy_pages_and_write
  copy_pages_and_write-written st addr buf {st'} own e =
      let (rest, e₁, f₁) = >>=-eq-done (sub64 (length buf) 1) _ e in
      let (end, e₂, f₂) = >>=-eq-done (or_panic (m.forward_checked addr rest)) _ f₁ in
      let end_is = law.forward addr rest end (or_panic-done (m.forward_checked addr rest) e₂) in
      let last : end + 1 ≡ addr + length buf = omega (arith, end_is, sub64-sum (length buf) 1 e₁) in
      let pages : write_pages m st addr end buf (addr / 4096) (end / 4096 + 1 - addr / 4096)
          ≡ done st' =
        rw (law.containing_address addr, law.containing_address end) at f₂ in
      let wrote =
        write_pages-Wrote st addr end buf (addr / 4096) (end / 4096 + 1 - addr / 4096) last own
          pages in
      (wrote.0, Wrote-within st st' addr end buf last wrote)
