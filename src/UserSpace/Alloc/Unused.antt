-- ===== src/UserSpace/Alloc/Unused.antt =====
-- `next_page_unused` finds the first page that is not mapped.
use mathlib.Core.Bool.{false≢true}
use miniature.Base.{
  sym, ◌∙◌, ℕ, zero, suc, ◌+◌, ◌*◌, ◌≤◌, ◌<◌, ◌≡◌, refl, subst, inl, inr, true, false, Bool-cases,
  ltb, ltb→lt, ltb→le, done, add64_fits, mul64_fits, word, arith,
}
use miniature.UserSpace.{page_size}
use miniature.UserSpace.Alloc.{Machine, UserAddrSpace, page_addr, next_page_unused}

-- The number itself, or a later one.
step_cases : {R : Type 0} (n i : ℕ) → n ≤ i → (n ≡ i → R) → (n + 1 ≤ i → R) → R
step_cases n i a f g = elim (Bool-cases (ltb n i)) [
  | inl lt ↦ g (omega (arith, ltb→lt n i lt))
  | inr ge ↦ f (omega (arith, ltb→le n i ge))
]

module _ {W : Type 0} (m : Machine W) (limit : ℕ)
    (valid : (v : ℕ) → v < limit → m.virt_addr v ≡ done v) (small : limit ≤ word) where
  -- The address of a page of the address space.
  abbrev pub addr : UserAddrSpace W → ℕ → ℕ
  addr s index = s.base_address + index * page_size

  page_addr_done :
      (s : UserAddrSpace W) (index : ℕ)
      → addr s index < limit
      → page_addr m s index ≡ done (addr s index)
  page_addr_done s index h =
      rw
        (
          mul64_fits index page_size (omega arith),
          add64_fits s.base_address (index * page_size) (omega arith),
          valid (addr s index) h,
        )
        refl

  -- The search returns the first page from the count on that is not mapped.
  abbrev pub Finds : ℕ → UserAddrSpace W → Type 0
  Finds fuel s =
      (c : ℕ) × (next_page_unused m fuel s ≡ done (c, record s { consumed_page_count = c }))
      × (s.consumed_page_count ≤ c)
      × (m.is_mapped s.machine (addr s c) ≡ false)
      × ((i : ℕ) → s.consumed_page_count ≤ i → i < c → m.is_mapped s.machine (addr s i) ≡ true)

  -- If one of the next pages below the limit is not mapped, the search returns with enough fuel: it
  -- answers a page that is not mapped, and every page from the old count up to it is mapped.
  pub next_page_unused-first :
      (fuel : ℕ) (s : UserAddrSpace W) (k : ℕ)
      → k < fuel
      → addr s (s.consumed_page_count + k) < limit
      → m.is_mapped s.machine (addr s (s.consumed_page_count + k)) ≡ false
      → Finds fuel s
  unfolding next_page_unused
  next_page_unused-first zero s k h l u = absurd (omega arith)
  next_page_unused-first (suc fuel) s k h l u =
      let n = s.consumed_page_count in
      let here = page_addr_done s n (omega arith) in
      elim (Bool-cases (m.is_mapped s.machine (addr s n))) [
        | inr free ↦ (
          n,
          rw (next_page_unused, here, free) refl,
          omega arith,
          free,
          λ i a b. absurd (omega arith),
        )
        | inl used ↦
            further k
              (λ j a b c.
                next_page_unused-first fuel
                  (record s { consumed_page_count = s.consumed_page_count + 1 }) j a b c)
              used here h l u
      ]
    where
      further :
          (k : ℕ)
          → ((j : ℕ)
              → j < fuel
              → addr s (s.consumed_page_count + 1 + j) < limit
              → m.is_mapped s.machine (addr s (s.consumed_page_count + 1 + j)) ≡ false
              → Finds fuel (record s { consumed_page_count = s.consumed_page_count + 1 }))
          → m.is_mapped s.machine (addr s s.consumed_page_count) ≡ true
          → page_addr m s s.consumed_page_count ≡ done (addr s s.consumed_page_count)
          → k < suc fuel
          → addr s (s.consumed_page_count + k) < limit
          → m.is_mapped s.machine (addr s (s.consumed_page_count + k)) ≡ false
          → Finds (suc fuel) s
      further zero ih used here h l u =
          let stay : s.consumed_page_count + 0 ≡ s.consumed_page_count = omega arith in
          absurd
            (false≢true (sym (subst (λ j. m.is_mapped s.machine (addr s j) ≡ false) stay u) ∙ used))
      further (suc k) ih used here h l u =
          let move : s.consumed_page_count + suc k ≡ s.consumed_page_count + 1 + k = omega arith in
          let (c, e, le, free, between) =
            ih k (omega arith) (omega arith)
              (subst (λ j. m.is_mapped s.machine (addr s j) ≡ false) move u) in
          (
            c,
            rw (next_page_unused, here, used, add64_fits s.consumed_page_count 1 (omega arith)) e,
            omega arith,
            free,
            λ i a b.
                step_cases s.consumed_page_count i a
                  (λ q. subst (λ j. m.is_mapped s.machine (addr s j) ≡ true) q used)
                  (λ g. between i g b),
          )
