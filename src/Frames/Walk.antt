-- ===== src/Frames/Walk.antt =====
-- The walk of `LinkedRangeIterator::next_n`: what a call that returns has done.
use miniature.Base.{
  ℕ, zero, suc, ◌+◌, ◌≤◌, ◌≡◌, sym, ap, subst, ◌⊎◌, inl, inr, true, false, List, [], ◌∷◌, take,
  drop, drop-suc, take-suc, All, All-append, ltb, Bool-cases, done, assert, >>=-eq-done, add64,
  add64-done, done-injective, arith,
}
use mathlib.Core.Path.{subst₂}
use native.Mathlib.Numerals.{add-one}
use miniature.Frames.{
  Range, contains, leave_range, leave_fuel, head_or, pass_ranges, max_range_count,
}
use miniature.Frames.Merge.{Chain}

-- Every range of the list ends by the address.
abbrev pub Behind : ℕ → List Range → Type 0
Behind v = All (λ r. r.end ≤ v)

pub Behind-mono : (v w : ℕ) (rs : List Range) → v ≤ w → Behind v rs → Behind w rs
Behind-mono v w [] h b = tt
Behind-mono v w (r ∷ rs) h b = (omega arith, Behind-mono v w rs h b.1)

-- The block of addresses meets no range of the list.
abbrev pub IsFree : ℕ → ℕ → List Range → Type 0
IsFree p size = All (λ r. (r.end ≤ p) ⊎ (p + size ≤ r.start))

pub Behind-IsFree : (p size : ℕ) (rs : List Range) → Behind p rs → IsFree p size rs
Behind-IsFree p size [] b = tt
Behind-IsFree p size (r ∷ rs) b = (inl b.0, Behind-IsFree p size rs b.1)

pub Chain-IsFree :
    (p size lo : ℕ) (rs : List Range) (hi : ℕ) → p + size ≤ lo → Chain lo rs hi → IsFree p size rs
Chain-IsFree p size lo [] hi h c = tt
Chain-IsFree p size lo (r ∷ rs) hi h c =
    (inr (omega arith), Chain-IsFree p size (suc r.end) rs hi (omega arith) c.2)

outside :
    (r : Range) (curr out : ℕ) → curr ≡ out → contains r curr ≡ false → r.start ≤ curr → r.end ≤ out
outside r curr out q h k = ground arith

abbrev HeadBefore : List Range → ℕ → Type 0
HeadBefore [] curr = Unit
HeadBefore (r ∷ rest) curr = r.start ≤ curr

contains-HeadBefore :
    (u : Range) (rest : List Range) (curr : ℕ)
    → contains (head_or u rest) curr ≡ true
    → HeadBefore rest curr
contains-HeadBefore u [] curr h = tt
contains-HeadBefore u (r ∷ rest) curr h = ground arith

module _ (ranges rest : List Range) (idx : ℕ) (r : Range) where
  drop-next : drop idx ranges ≡ r ∷ rest → drop (idx + 1) ranges ≡ rest
  drop-next d = rw add-one (drop-suc idx ranges d)

  Behind-next :
      (v : ℕ)
      → drop idx ranges ≡ r ∷ rest
      → Behind v (take idx ranges)
      → r.end ≤ v
      → Behind v (take (idx + 1) ranges)
  Behind-next v d b h =
      rw (add-one, take-suc idx ranges d)
        (All-append (λ x. x.end ≤ v) (take idx ranges) (r ∷ []) b (h, tt))

-- What holds of the position and is kept by adding the size that is asked for.
module _ (P : ℕ → Type 0) (size : ℕ) (keep : (x : ℕ) → P x → P (x + size)) where
  leave_range-done :
      (fuel : ℕ) (r : Range) (curr : ℕ) {out : ℕ}
      → leave_range fuel r size curr ≡ done out
      → r.start ≤ curr
      → P curr
      → (r.end ≤ out) × (curr ≤ out) × P out
  unfolding leave_range
  leave_range-done zero r curr e h p = cc
  leave_range-done (suc fuel) r curr e h p = elim (Bool-cases (contains r curr)) [
    | inl inside ↦
        let (curr', e₁, e₂) = >>=-eq-done (add64 curr size) _ (rw (inside, leave_range) at e) in
        let sum = add64-done curr size e₁ in
        let (a, b, c) =
          leave_range-done fuel r curr' e₂ (omega arith) (subst P (sym sum.0) (keep curr p)) in
        (a, omega arith, c)
    | inr out_of ↦
        let q = done-injective (rw (out_of, leave_range) at e) in
        (outside r curr _ q out_of h, omega (arith, q), subst P q p)
  ]

  pub pass_ranges-done :
      (uninit : Range) (ranges rest : List Range) (idx curr : ℕ) {idx' out : ℕ}
      → drop idx ranges ≡ rest
      → Behind curr (take idx ranges)
      → HeadBefore rest curr
      → P curr
      → pass_ranges uninit size rest idx curr ≡ done (idx', out)
      → Behind out (take idx' ranges) × (curr ≤ out) × P out
  unfolding pass_ranges
  pass_ranges-done u ranges [] idx curr {idx'} {out} d b h p e =
      let q = done-injective e in
      let qi : idx ≡ idx' = ap (λ t. t.0) q in
      let qo : curr ≡ out = ap (λ t. t.1) q in
      (subst₂ (λ i v. Behind v (take i ranges)) qi qo b, omega (arith, qo), subst P qo p)
  pass_ranges-done u ranges (r ∷ rest) idx curr {idx'} {out} d b h p e =
      let (curr', e₁, e₂) = >>=-eq-done (leave_range (leave_fuel r curr) r size curr) _ e in
      let (a₁, a₂, a₃) = leave_range-done (leave_fuel r curr) r curr e₁ h p in
      let (_, _, e₃) = >>=-eq-done (assert (ltb (idx + 1) max_range_count)) _ e₂ in
      let b' = Behind-next ranges rest idx r curr' d (Behind-mono curr curr' _ a₂ b) a₁ in
      elim (Bool-cases (contains (head_or u rest) curr')) [
        | inl over ↦
            let (c₁, c₂, c₃) =
              pass_ranges-done u ranges rest (idx + 1) curr' (drop-next ranges rest idx r d) b'
                (contains-HeadBefore u rest curr' over) a₃ (rw over at e₃) in
            (c₁, omega arith, c₃)
        | inr clear ↦
            let q = done-injective (rw clear at e₃) in
            let qi : idx + 1 ≡ idx' = ap (λ t. t.0) q in
            let qo : curr' ≡ out = ap (λ t. t.1) q in
            (subst₂ (λ i v. Behind v (take i ranges)) qi qo b', omega (arith, qo), subst P qo a₃)
      ]
