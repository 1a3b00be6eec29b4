-- ===== src/Loader/Segment/Pages.antt =====
-- What a range of pages shows that are mapped one after the other.
use miniature.Base.{
  Bool-cases, ℕ, zero, suc, ◌+◌, ◌-◌, ◌≤◌, ◌<◌, ◌≡◌, ◌≢◌, refl, sym, ap, ◌∙◌, subst, true, false,
  ◌⊎◌, inl, inr, Option, some, if◌then◌else◌, done, >>=-eq-done, done-injective, arith,
}
use miniature.Loader.{PtFlags, Mapper, AddrSpace, copy_frame, zero_from}
use miniature.Loader.Remap.{IsMapper, view, MarksOwn, ==_self, same_or_ne}
use miniature.Loader.Segment.{map_new, map_file_pages, map_bss_pages}
use miniature.Loader.Segment.Fresh.{
  copy_frame-FillsOnly, zero_from-FillsOnly, Maps, map_new-Maps, zeroed, among, among-next,
  among-first, among-none, among-bounds,
}

narrow : (first n f : ℕ) → (f < first) ⊎ (first + suc n ≤ f) → (f < first + 1) ⊎ (first + 1 + n ≤ f)
narrow first n f h = ground arith

apart :
    (first n f page q : ℕ)
    → (f < first) ⊎ (first + suc n ≤ f)
    → (page + 1 ≤ q) × (q < page + 1 + n)
    → first + 1 + (q - (page + 1)) ≢ f
apart first n f page q h b = ground arith

pub next_index :
    (first page q : ℕ) → page + 1 ≤ q → first + 1 + (q - (page + 1)) ≡ first + (q - page)
next_index first page q le = omega arith

copied_here :
    (memory : ℕ → ℕ → ℕ) (from to offset page : ℕ)
    → copy_frame memory from to to offset ≡ memory (from + (page - page)) offset
copied_here memory from to offset page =
    let same : from ≡ from + (page - page) = omega arith in
    rw (==_self to) (ap (λ f. memory f offset) same)

module _ {S : Type 0} (m : Mapper S) (law : IsMapper m) where
  -- The `n` pages from `page` on show what is given, and all others what they did.
  abbrev pub Shows : AddrSpace S → ℕ → ℕ → (ℕ → ℕ → ℕ) → AddrSpace S → Type 0
  Shows st page n byte st' =
      MarksOwn m st'
      × ((q offset : ℕ)
          → view m st' q offset
            ≡ (if among page n q then some (byte q offset) else view m st q offset))

  -- One page, then the others.
  pub Shows-first :
      (st st₁ st' : AddrSpace S) (page n : ℕ) (byte byte₁ : ℕ → ℕ → ℕ)
      → ((offset : ℕ) → view m st₁ page offset ≡ some (byte page offset))
      → ((q offset : ℕ) → q ≢ page → view m st₁ q offset ≡ view m st q offset)
      → ((q offset : ℕ) → among (page + 1) n q ≡ true → byte₁ q offset ≡ byte q offset)
      → Shows st₁ (page + 1) n byte₁ st'
      → Shows st page (suc n) byte st'
  Shows-first st st₁ st' page n byte byte₁ here other rest (own, shows) = (
    own,
    λ q offset. elim (same_or_ne q page) [
      | inl same ↦
          subst
            (λ q.
              view m st' q offset
              ≡ (if among page (suc n) q then some (byte q offset) else view m st q offset))
            (sym same)
            (shows page offset ∙ rw ((among-first page n).0, (among-first page n).1) (here offset))
      | inr apart ↦
          shows q offset
          ∙ later q offset (among-next page n q apart) (other q offset apart) (rest q offset)
    ],
  )
    where
      later :
          (q offset : ℕ) {u v : Option ℕ}
          → among (page + 1) n q ≡ among page (suc n) q
          → u ≡ v
          → (among (page + 1) n q ≡ true → byte₁ q offset ≡ byte q offset)
          → (if among (page + 1) n q then some (byte₁ q offset) else u)
            ≡ (if among page (suc n) q then some (byte q offset) else v)
      later q offset {u} {v} e f g = elim (Bool-cases (among (page + 1) n q)) [
        | inl in_range ↦ rw (in_range, sym e ∙ in_range) (ap some (g in_range))
        | inr out ↦ rw (out, sym e ∙ out) f
      ]

  pub Shows-next :
      (st : AddrSpace S) (page n : ℕ) (fill : (ℕ → ℕ → ℕ) → ℕ → ℕ → ℕ → ℕ) (st₁ st' : AddrSpace S)
      (byte byte₁ : ℕ → ℕ → ℕ)
      → (h : Maps m st page fill st₁)
      → ((offset : ℕ) → fill st.memory h.frame h.frame offset ≡ byte page offset)
      → ((q offset : ℕ) → among (page + 1) n q ≡ true → byte₁ q offset ≡ byte q offset)
      → Shows st₁ (page + 1) n byte₁ st'
      → Shows st page (suc n) byte st'
  Shows-next st page n fill st₁ st' byte byte₁ h first =
      Shows-first st st₁ st' page n byte byte₁ (λ offset. h.here offset ∙ ap some (first offset))
        h.other

  -- The allocator never answers one of these frames.
  abbrev pub KeepsOut : ℕ → ℕ → Type 0
  KeepsOut first n = (s : S) (f : ℕ) → (m.frame_alloc s).0 ≡ some f → (f < first) ⊎ (first + n ≤ f)

  pub map_file_pages-Shows :
      (st : AddrSpace S) (page original_frame n : ℕ) (flags : PtFlags) {st' : AddrSpace S}
      → flags.bit_9 ≡ false
      → KeepsOut original_frame n
      → MarksOwn m st
      → map_file_pages m st page original_frame flags n ≡ done st'
      → Shows st page n (λ q offset. st.memory (original_frame + (q - page)) offset) st'
  unfolding map_file_pages
  map_file_pages-Shows st page original_frame zero flags plain out own e =
      subst (Shows st page 0 _) (done-injective e) (own, λ q offset. rw (among-none page q) refl)
  map_file_pages-Shows st page original_frame (suc n) flags {st'} plain out own e =
      let (st₁, e₁, e₂) =
        >>=-eq-done
          (map_new m st page flags (λ memory frame. copy_frame memory original_frame frame)) _ e in
      let h =
        map_new-Maps m law st page flags (λ memory frame. copy_frame memory original_frame frame)
          (copy_frame-FillsOnly original_frame) plain own e₁ in
      let more =
        map_file_pages-Shows st₁ (page + 1) (original_frame + 1) n flags plain
          (λ s f a. narrow original_frame n f (out s f a)) h.marks e₂ in
      Shows-next st page n (λ memory frame. copy_frame memory original_frame frame) st₁ st' _ _ h
        (λ offset. copied_here st.memory original_frame h.frame offset page)
        (λ q offset a.
          h.memory (original_frame + 1 + (q - (page + 1))) offset
          ∙ copy_frame-FillsOnly original_frame st.memory h.frame
              (original_frame + 1 + (q - (page + 1))) offset
              (apart original_frame n h.frame page q (out h.source h.frame h.is_new)
                (among-bounds (page + 1) n q a))
          ∙ ap (λ f. st.memory f offset)
              (next_index original_frame page q (among-bounds (page + 1) n q a).0))
        more

  pub map_bss_pages-Shows :
      (st : AddrSpace S) (page n : ℕ) (flags : PtFlags) {st' : AddrSpace S}
      → flags.bit_9 ≡ false
      → MarksOwn m st
      → map_bss_pages m st page flags n ≡ done st'
      → Shows st page n (λ q offset. 0) st'
  unfolding map_bss_pages
  map_bss_pages-Shows st page zero flags plain own e =
      subst (Shows st page 0 (λ q offset. 0)) (done-injective e)
        (own, λ q offset. rw (among-none page q) refl)
  map_bss_pages-Shows st page (suc n) flags {st'} plain own e =
      let (st₁, e₁, e₂) =
        >>=-eq-done (map_new m st page flags (λ memory frame. zero_from memory frame 0)) _ e in
      let h =
        map_new-Maps m law st page flags (λ memory frame. zero_from memory frame 0)
          (zero_from-FillsOnly 0) plain own e₁ in
      let more = map_bss_pages-Shows st₁ (page + 1) n flags plain h.marks e₂ in
      Shows-next st page n (λ memory frame. zero_from memory frame 0) st₁ st' (λ q offset. 0)
        (λ q offset. 0) h (λ offset. zeroed st.memory h.frame offset) (λ q offset a. refl) more
