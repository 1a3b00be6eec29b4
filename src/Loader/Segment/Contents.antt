-- ===== src/Loader/Segment/Contents.antt =====
-- A loaded segment shows its bytes of the file, and zeros after them.
use miniature.Base.{
  ℕ, ◌+◌, ◌-◌, ◌*◌, ◌/◌, ◌%◌, ◌≤◌, ◌<◌, ◌≡◌, ◌≢◌, refl, sym, ap, ◌∙◌, subst, Bool, true, false,
  ◌&&◌, inl, inr, Bool-cases, Option, some, ltb, leb, ◌==◌, if◌then◌else◌, done, or_panic, sub64,
  >>=-eq-done, done-injective, arith,
}
use miniature.Loader.{PtFlags, Mapper, AddrSpace, zero_from, copy_page_and_remap}
use miniature.Loader.Remap.{
  IsMapper, shown, view, MarksOwn, Remaps, copy_page_and_remap-Remaps, ==_self, same_or_ne,
}
use miniature.Loader.Bytes.{sub64-sum, or_panic-done}
use miniature.Loader.Segment.{map_bss_pages, clear_file_end, clear_bss}
use miniature.Loader.Segment.Fresh.{zero_from-FillsOnly, shown-fill, among}
use miniature.Loader.Segment.Pages.{Shows, map_bss_pages-Shows}

-- The address is from `from` on and below `to`.
abbrev pub between : ℕ → ℕ → ℕ → Bool
between from to a = leb from a && ltb a to

-- The first page boundary at or after an address.
abbrev pub rounded : ℕ → ℕ
rounded a = (a + 4095) / 4096 * 4096

at_end :
    (bss offset : ℕ)
    → 1 ≤ bss
    → (bss % 4096 == 0) ≡ false
    → offset < 4096
    → leb (bss % 4096) offset ≡ between bss (rounded bss) ((bss - 1) / 4096 * 4096 + offset)
at_end bss offset le h lt = ground arith

elsewhere :
    (bss q offset : ℕ)
    → 1 ≤ bss
    → (bss % 4096 == 0) ≡ false
    → offset < 4096
    → q ≢ (bss - 1) / 4096
    → between bss (rounded bss) (q * 4096 + offset) ≡ false
elsewhere bss q offset le h lt ne = ground arith

pub aligned_end : (bss a : ℕ) → (bss % 4096 == 0) ≡ true → between bss (rounded bss) a ≡ false
aligned_end bss a h = ground arith

module _ {S : Type 0} (m : Mapper S) (law : IsMapper m) where
  -- Zeros from one address on and below another, and elsewhere what was there.
  abbrev pub Zeros : AddrSpace S → ℕ → ℕ → AddrSpace S → Type 0
  Zeros st from to st' =
      MarksOwn m st'
      × ((q offset : ℕ)
          → offset < 4096
          → view m st' q offset
            ≡ (if between from to (q * 4096 + offset) then some 0 else view m st q offset))

  pub zero_page :
      (st st₁ : AddrSpace S) (frame bss : ℕ)
      → 1 ≤ bss
      → (bss % 4096 == 0) ≡ false
      → Remaps m st ((bss - 1) / 4096) frame st₁
      → Zeros st bss (rounded bss) (record st₁ { memory = zero_from st₁.memory frame (bss % 4096) })
  zero_page st st₁ frame bss le h r = (
    r.marks,
    λ q offset lt. elim (same_or_ne q ((bss - 1) / 4096)) [
      | inl same ↦
          subst
            (λ q.
              shown (zero_from st₁.memory frame (bss % 4096)) (m.translate st₁.page_table q) offset
              ≡ (if between bss (rounded bss) (q * 4096 + offset)
                  then some 0
                  else view m st q offset))
            (sym same)
            (rw (r.at, ==_self frame, at_end bss offset le h lt)
              (split (between bss (rounded bss) ((bss - 1) / 4096 * 4096 + offset))
                (st₁.memory frame offset)
                (ap (λ t. shown st₁.memory t offset) (sym r.at)
                  ∙ r.views ((bss - 1) / 4096) offset)))
      | inr apart ↦
          shown-fill (λ memory frame. zero_from memory frame (bss % 4096)) st₁.memory frame offset
            (m.translate st₁.page_table q) (zero_from-FillsOnly (bss % 4096))
            (λ g fl t. r.owns q g fl apart t)
          ∙ r.views q offset
          ∙ rw (elsewhere bss q offset le h lt apart) refl
    ],
  )
    where
      split :
          (b : Bool) (x : ℕ) {v : Option ℕ}
          → some x ≡ v
          → some (if b then 0 else x) ≡ (if b then some 0 else v)
      split true x e = refl
      split false x e = e

  pub clear_file_end-Zeros :
      (st : AddrSpace S) (bss : ℕ) {st' : AddrSpace S}
      → MarksOwn m st
      → clear_file_end m st bss ≡ done st'
      → Zeros st bss (rounded bss) st'
  unfolding clear_file_end
  clear_file_end-Zeros st bss own e = elim (Bool-cases (bss % 4096 == 0)) [
    | inl whole ↦
        subst (Zeros st bss (rounded bss)) (done-injective (rw whole at e))
          (own, λ q offset lt. rw (aligned_end bss (q * 4096 + offset) whole) refl)
    | inr part ↦
        let (before, e₁, f₁) = >>=-eq-done (sub64 bss 1) _ (rw part at e) in
        let ((f, st₁), e₂, f₂) =
          >>=-eq-done (copy_page_and_remap m st (m.containing_address before)) _ f₁ in
        let (frame, e₃, f₃) = >>=-eq-done (or_panic f) _ f₂ in
        let sum = sub64-sum bss 1 e₁ in
        let page_is : m.containing_address before ≡ (bss - 1) / 4096 =
          law.containing_address before ∙ ap (λ a. a / 4096) (less bss before sum) in
        let r =
          copy_page_and_remap-Remaps m law st (m.containing_address before) frame own
            (e₂ ∙ ap (λ (f : Option ℕ). done (f, st₁)) (or_panic-done f e₃)) in
        subst (Zeros st bss (rounded bss)) (done-injective f₃) (
          zero_page st st₁ frame bss (omega (arith, sum)) part
            (subst (λ p. Remaps m st p frame st₁) page_is r))
  ]
    where
      less : (bss before : ℕ) → before + 1 ≡ bss → before ≡ bss - 1
      less bss before e = omega arith

  -- The address of the first byte after the last page.
  page_range :
      (bss end q offset : ℕ) (z v : Option ℕ)
      → 1 ≤ end
      → bss < end
      → offset < 4096
      → (if among (rounded bss / 4096) ((end - 1) / 4096 + 1 - rounded bss / 4096) q
          then z
          else (if between bss (rounded bss) (q * 4096 + offset) then z else v))
        ≡ (if between bss (rounded end) (q * 4096 + offset) then z else v)
  page_range bss end q offset z v le lt lo = ground arith

  -- The rest of the file's last page, then whole pages.
  pub Zeros-pages :
      (st st₁ st' : AddrSpace S) (bss end : ℕ)
      → bss < end
      → Zeros st bss (rounded bss) st₁
      → Shows m law st₁
          (rounded bss / 4096)
          ((end - 1) / 4096 + 1 - rounded bss / 4096)
          (λ q offset. 0)
          st'
      → Zeros st bss (rounded end) st'
  Zeros-pages st st₁ st' bss end lt (own₁, zeros) (own₂, shows) = (
    own₂,
    λ q offset lo.
        shows q offset
        ∙ ap
            (λ v.
              if among (rounded bss / 4096) ((end - 1) / 4096 + 1 - rounded bss / 4096) q
              then some 0
              else v)
            (zeros q offset lo)
        ∙ page_range bss end q offset (some 0) (view m st q offset) (omega arith) lt lo,
  )

  pub clear_bss-Zeros :
      (align_up : ℕ → ℕ) (st : AddrSpace S) (bss end : ℕ) (flags : PtFlags) {st' : AddrSpace S}
      → ((a : ℕ) → align_up a ≡ rounded a)
      → flags.bit_9 ≡ false
      → bss < end
      → MarksOwn m st
      → clear_bss m align_up st bss end flags ≡ done st'
      → Zeros st bss (rounded end) st'
  unfolding clear_bss
  clear_bss-Zeros align_up st bss end flags {st'} up plain lt own e =
      let (st₁, e₁, f₁) = >>=-eq-done (clear_file_end m st bss) _ e in
      let (last, e₂, f₂) = >>=-eq-done (sub64 end 1) _ f₁ in
      let last_is : last ≡ end - 1 = omega (arith, sub64-sum end 1 e₂) in
      let first = clear_file_end-Zeros st bss own e₁ in
      let pages : map_bss_pages m st₁ (rounded bss / 4096) flags
            ((end - 1) / 4096 + 1 - rounded bss / 4096)
          ≡ done st' =
        rw (law.containing_address (align_up bss), law.containing_address last, up bss, last_is) at
          f₂ in
      Zeros-pages st st₁ st' bss end lt first (
        map_bss_pages-Shows m law st₁ (rounded bss / 4096)
          ((end - 1) / 4096 + 1 - rounded bss / 4096) flags plain first.0 pages)
