-- ===== src/UserSpace/Resolve.antt =====
-- What `UserAddrSpace::resolve` answers.
use miniature.Base.{
  ℕ, zero, suc, ◌+◌, ◌-◌, ◌%◌, ◌≤◌, ◌<◌, ◌≡◌, refl, sym, ◌∙◌, subst, true, inl, inr, Bool-cases,
  Option-cases, List, [], ◌∷◌, ◌++◌, none, some, ltb, leb, ltb→lt, ltb→le, leb→le, if◌then◌else◌,
  done, sub64, word, add64_fits, arith,
}
use miniature.UserSpace.{
  page_size, PageTable, IsLawful, UserBuffer, Slice, efault, KResult, ok, err, phys_addr,
  resolve_pages, resolve,
}

sub64_fits : (a b : ℕ) → b ≤ a → sub64 a b ≡ done (a - b)
sub64_fits a b h = ground arith

-- The part of the rest that lies in the page.
part_fits :
    (end rest : ℕ)
    → 0 < end
    → 0 < rest
    → let len = (if ltb end rest then end else rest) in (0 < len) × (len ≤ end) × (len ≤ rest)
part_fits end rest e r = ground arith

add_assoc : (a b c : ℕ) → a + b + c ≡ a + (b + c)
add_assoc a b c = omega arith

module _ (pt : PageTable) where
  -- The slices are the bytes from one virtual address to another, in order: each slice lies within
  -- the frame of one page, at the same offset.
  abbrev pub IsImage : ℕ → ℕ → List Slice → Type 0
  IsImage from to [] = from ≡ to
  IsImage from to (s ∷ ss) =
      (frame : ℕ) × (pt.translate_page (pt.containing_address from) ≡ some frame)
      × (s.base ≡ frame + (from - pt.containing_address from))
      × (from + s.len ≤ pt.containing_address from + page_size)
      × IsImage (from + s.len) to ss

  IsImage-append :
      (from mid to : ℕ) (ss ts : List Slice)
      → IsImage from mid ss
      → IsImage mid to ts
      → IsImage from to (ss ++ ts)
  IsImage-append from mid to [] ts h k = subst (λ v. IsImage v to ts) (sym h) k
  IsImage-append from mid to (s ∷ ss) ts (frame, t, b, w, h) k =
      (frame, t, b, w, IsImage-append (from + s.len) mid to ss ts h k)

  -- The answer is an image of the buffer, or the error for a page of it that is not mapped.
  abbrev pub Resolves : UserBuffer → KResult → Type 0
  Resolves buffer (ok slices) = IsImage buffer.base (buffer.base + buffer.len) slices
  Resolves buffer (err e) =
      (e ≡ efault)
      × (v : ℕ) × (buffer.base ≤ v)
      × (v ≤ buffer.base + buffer.len)
      × (pt.translate_page (pt.containing_address v) ≡ none)

  module _ (limit : ℕ) (laws : IsLawful pt limit) where
    phys_addr_mapped :
        (v frame : ℕ)
        → pt.translate_page (pt.containing_address v) ≡ some frame
        → phys_addr pt v ≡ done (some (frame + (v - pt.containing_address v)))
    phys_addr_mapped v frame t = rw (
      phys_addr,
      t,
      sub64_fits v (pt.containing_address v) (laws.down v),
      add64_fits frame (v - pt.containing_address v)
          (omega (arith, laws.near v, laws.down v, laws.framed _ frame t)),
    )

    phys_addr_unmapped :
        (v : ℕ) → pt.translate_page (pt.containing_address v) ≡ none → phys_addr pt v ≡ done none
    phys_addr_unmapped v t = rw (phys_addr, t)

    abbrev rest_of_page : ℕ → ℕ → ℕ
    rest_of_page v rest =
        let end = pt.containing_address v + page_size - v in if ltb end rest then end else rest

    resolve_pages_next :
        (fuel : ℕ) (buffer : UserBuffer) (n : ℕ) (result : List Slice) (v frame : ℕ)
        → ltb n buffer.len ≡ true
        → (buffer.base + n) % word ≡ v
        → v < limit
        → pt.translate_page (pt.containing_address v) ≡ some frame
        → resolve_pages pt (suc fuel) buffer n result
          ≡ resolve_pages pt fuel buffer (n + rest_of_page v (buffer.len - n)) (
              result
              ++ record {
                base = frame + (v - pt.containing_address v);
                len = rest_of_page v (buffer.len - n);
              }
                ∷ [])
    unfolding resolve_pages
    resolve_pages_next fuel buffer n result v frame more wraps lt t =
        rw
          (
            resolve_pages,
            more,
            wraps,
            laws.valid v lt,
            phys_addr_mapped v frame t,
            laws.follows v lt,
            sub64_fits (pt.containing_address v + page_size) v (omega (arith, laws.near v)),
          )
          refl

    resolve_pages-Resolves :
        (fuel : ℕ) (buffer : UserBuffer) (resolved_len : ℕ) (result : List Slice)
        → buffer.base + buffer.len ≤ limit
        → limit ≤ word
        → resolved_len ≤ buffer.len
        → buffer.len - resolved_len < fuel
        → IsImage buffer.base (buffer.base + resolved_len) result
        → (r : KResult) × (resolve_pages pt fuel buffer resolved_len result ≡ done r)
          × Resolves buffer r
    unfolding resolve_pages
    resolve_pages-Resolves zero buffer n result inside small le enough h = absurd (omega arith)
    resolve_pages-Resolves (suc fuel) buffer n result inside small le enough h =
        elim (Bool-cases (ltb n buffer.len)) [
          | inr finished ↦
              let all : n ≡ buffer.len = omega (arith, ltb→le n buffer.len finished) in
              (
                ok result,
                rw (resolve_pages, finished),
                subst (λ k. IsImage buffer.base (buffer.base + k) result) all h,
              )
          | inl more ↦
              let lt = ltb→lt n buffer.len more in
              let v = buffer.base + n in
              let wraps : v % word ≡ v = omega arith in
              elim (Option-cases (pt.translate_page (pt.containing_address v))) [
                | inl hole ↦ (
                  err efault,
                  rw (
                    resolve_pages,
                    more,
                    wraps,
                    laws.valid v (omega arith),
                    phys_addr_unmapped v hole,
                  ),
                  (refl, v, omega arith, omega arith, hole),
                )
                | inr (frame, t) ↦
                    let end = pt.containing_address v + page_size - v in
                    let len = (if ltb end (buffer.len - n) then end else buffer.len - n) in
                    let p =
                      part_fits end (buffer.len - n) (omega (arith, laws.near v)) (omega arith) in
                    let (r, e, resolves) =
                      resolve_pages-Resolves fuel buffer (n + len)
                        (result
                          ++ record { base = frame + (v - pt.containing_address v); len = len }
                            ∷ [])
                        inside small (omega (arith, p)) (omega (arith, p))
                        (subst
                          (λ to. IsImage buffer.base to (
                            result
                            ++ record { base = frame + (v - pt.containing_address v); len = len }
                              ∷ []))
                          (add_assoc buffer.base n len)
                          (IsImage-append buffer.base v (v + len) result
                            (record { base = frame + (v - pt.containing_address v); len = len }
                              ∷ [])
                            h (frame, t, refl, omega (arith, p, laws.near v), refl))) in
                    (
                      r,
                      resolve_pages_next fuel buffer n result v frame more wraps (omega arith) t
                          ∙ e,
                      resolves,
                    )
              ]
        ]

    -- `resolve` returns for a buffer below the limit of the address space that, if it is short, lies
    -- in one page. It answers the bytes of the buffer in order, each slice in the frame of its page,
    -- or `EFAULT` if a page of the buffer is not mapped.
    pub resolve-Resolves :
        (buffer : UserBuffer)
        → buffer.base + buffer.len ≤ limit
        → buffer.base < limit
        → limit ≤ word
        → (buffer.len ≤ 512
            → buffer.base + buffer.len ≤ pt.containing_address buffer.base + page_size)
        → (r : KResult) × (resolve pt buffer ≡ done r) × Resolves buffer r
    unfolding resolve
    resolve-Resolves buffer inside start small paged = elim (Bool-cases (leb buffer.len 512)) [
      | inr long ↦
          let (r, e, h) =
            resolve_pages-Resolves (suc buffer.len) buffer 0 [] inside small (omega arith)
              (omega arith) (omega arith) in
          (r, rw (resolve, long) e, h)
      | inl short ↦ elim (Option-cases (pt.translate_page (pt.containing_address buffer.base))) [
        | inl hole ↦ (
          err efault,
          rw (resolve, short, laws.valid buffer.base start, phys_addr_unmapped buffer.base hole),
          (refl, buffer.base, omega arith, omega arith, hole),
        )
        | inr (frame, t) ↦ (
          ok (
              record {
                base = frame + (buffer.base - pt.containing_address buffer.base);
                len = buffer.len;
              }
              ∷ []),
          rw (resolve, short, laws.valid buffer.base start, phys_addr_mapped buffer.base frame t),
          (frame, t, refl, paged (leb→le buffer.len 512 short), refl),
        )
      ]
    ]
