-- ===== src/Loader/Program/Bounds.antt =====
-- The addresses that a file takes.
use miniature.Base.{
  ℕ, ◌+◌, ◌-◌, ◌≤◌, ◌≡◌, sym, ◌∙◌, subst, true, inl, inr, Bool-cases, List, [], ◌∷◌, All, ltb,
  if◌then◌else◌, done, >>=-eq-done, sub64, add64, add64-done, done-injective, word, arith,
}
use mathlib.Core.Bool.{true≢false}
use miniature.Loader.Bytes.{sub64-sum}
use miniature.Loader.Segment.{ProgramHeader}
use miniature.Loader.Program.{is_load, virt_bounds, virt_space}

-- A loadable segment lies between the two addresses.
abbrev pub LiesIn : ℕ → ℕ → ProgramHeader → Type 0
LiesIn least greatest ph =
    is_load ph.ty ≡ true → (least ≤ ph.virtual_addr) × (ph.virtual_addr + ph.mem_size ≤ greatest)

virt_bounds-LiesIn :
    (least greatest : ℕ) (phs : List ProgramHeader) {out : ℕ × ℕ}
    → virt_bounds least greatest phs ≡ done out
    → (out.0 ≤ least) × (greatest ≤ out.1) × All (LiesIn out.0 out.1) phs
unfolding virt_bounds
virt_bounds-LiesIn least greatest [] e =
    subst (λ (out : ℕ × ℕ). (out.0 ≤ least) × (greatest ≤ out.1) × Unit) (done-injective e)
      (omega arith, omega arith, tt)
virt_bounds-LiesIn least greatest (ph ∷ phs) {out} e = elim (Bool-cases (is_load ph.ty)) [
  | inr other ↦
      let (low, high, rest) =
        virt_bounds-LiesIn least greatest phs (rw (virt_bounds, other) at e) in
      (low, high, (λ l. absurd (true≢false (sym l ∙ other)), rest))
  | inl loaded ↦
      let (right, e₁, e₂) =
        >>=-eq-done (add64 ph.virtual_addr ph.mem_size) _ (rw (virt_bounds, loaded) at e) in
      let (low, high, rest) =
        virt_bounds-LiesIn (if ltb ph.virtual_addr least then ph.virtual_addr else least)
          (if ltb greatest right then right else greatest) phs e₂ in
      let right_is = (add64-done ph.virtual_addr ph.mem_size e₁).0 in
      let l = lower ph.virtual_addr least in
      let h = higher greatest right in
      (
        omega (arith, low, l.1),
        omega (arith, high, h.0),
        (λ is. (omega (arith, low, l.0), omega (arith, high, h.1, right_is)), rest),
      )
]
  where
    lower : (a b : ℕ) → ((if ltb a b then a else b) ≤ a) × ((if ltb a b then a else b) ≤ b)
    lower a b = (ground arith, ground arith)

    higher : (a b : ℕ) → (a ≤ (if ltb a b then b else a)) × (b ≤ (if ltb a b then b else a))
    higher a b = (ground arith, ground arith)

-- The start and size that are computed, if the call returns, take in every loadable segment.
pub virt_space-LiesIn :
    (phs : List ProgramHeader) {start size : ℕ}
    → virt_space phs ≡ done (start, size)
    → All (LiesIn start (start + size)) phs
unfolding virt_space
virt_space-LiesIn phs {start} {size} e =
    let ((least, greatest), e₁, f₁) = >>=-eq-done (virt_bounds (word - 1) 0 phs) _ e in
    let (n, e₂, f₂) = >>=-eq-done (sub64 greatest least) _ f₁ in
    let is = done-injective f₂ in
    let (low, high, all) = virt_bounds-LiesIn (word - 1) 0 phs e₁ in
    subst (λ (p : ℕ × ℕ). All (LiesIn p.0 (p.0 + p.1)) phs) is
      (subst (λ g. All (LiesIn least g) phs) (sum least greatest n (sub64-sum greatest least e₂))
        all)
  where
    sum : (a g n : ℕ) → n + a ≡ g → g ≡ a + n
    sum a g n e = omega arith
