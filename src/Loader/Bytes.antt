-- ===== src/Loader/Bytes.antt =====
-- The bytes that one page takes of a buffer, and what its span gives.
use miniature.Base.{
  ℕ, zero, suc, ◌+◌, ◌-◌, ◌*◌, ◌≤◌, ◌<◌, ◌≡◌, ◌≢◌, refl, ap, ◌∙◌, max, min, true, false, ◌&&◌, inl,
  inr, Bool-cases, List, [], ◌∷◌, length, get_or, ◌⊎◌, take, drop, Option, none, some, ltb, leb,
  if◌then◌else◌, done, or_panic, sub64, >>=-eq-done, done-injective, arith,
}
use miniature.Loader.{
  PtFlags, TranslateResult, mapped, mapped_large, not_mapped, copy_from_slice, page_span,
}
use miniature.Loader.Remap.{shown, ==_self, ==_ne}

get_or-take : (n i : ℕ) (xs : List ℕ) → i < n → get_or (take n xs) i 0 ≡ get_or xs i 0
get_or-take zero i xs lt = absurd (omega arith)
get_or-take (suc n) i [] lt = refl
get_or-take (suc n) zero (x ∷ xs) lt = refl
get_or-take (suc n) (suc i) (x ∷ xs) lt = get_or-take n i xs (omega arith)

get_or-drop : (n i : ℕ) (xs : List ℕ) → get_or (drop n xs) i 0 ≡ get_or xs (n + i) 0
get_or-drop zero i xs = ap (λ k. get_or xs k 0) (omega arith)
get_or-drop (suc n) i [] = refl
get_or-drop (suc n) i (x ∷ xs) =
    let next : suc (n + i) ≡ suc n + i = omega arith in
    get_or-drop n i xs ∙ ap (λ k. get_or (x ∷ xs) k 0) next

length-take-drop : (n k : ℕ) (xs : List ℕ) → k + n ≤ length xs → length (take n (drop k xs)) ≡ n
length-take-drop zero k xs le = refl
length-take-drop (suc n) zero [] le = absurd (omega arith)
length-take-drop (suc n) zero (x ∷ xs) le = ap suc (length-take-drop n 0 xs (omega arith))
length-take-drop (suc n) (suc k) [] le = absurd (omega arith)
length-take-drop (suc n) (suc k) (x ∷ xs) le = length-take-drop (suc n) k xs (omega arith)

-- The byte at an address after the buffer has been written at `addr`.
abbrev pub written : ℕ → List ℕ → ℕ → Option ℕ → Option ℕ
written addr buf a before =
    if leb addr a && ltb a (addr + length buf) then some (get_or buf (a - addr) 0) else before

pub shown-outside :
    (memory : ℕ → ℕ → ℕ) (to start offset : ℕ) (src : List ℕ) (t : TranslateResult)
    → ((g : ℕ) (fl : PtFlags) → t ≡ mapped g fl → g ≢ to)
    → shown (copy_from_slice memory to start src) t offset ≡ shown memory t offset
shown-outside memory to start offset src (mapped g fl) ne = rw (==_ne g to (ne g fl refl)) refl
shown-outside memory to start offset src (mapped_large fl) ne = refl
shown-outside memory to start offset src not_mapped ne = refl

before_or_after :
    (start count offset : ℕ)
    → (leb start offset && ltb offset (start + count)) ≡ false
    → (offset < start) ⊎ (start + count ≤ offset)
before_or_after start count offset h = ground arith

outside :
    (page start count skip addr size offset : ℕ)
    → page * 4096 + start ≡ addr + skip
    → (start ≡ 0) ⊎ (skip ≡ 0)
    → (start + count ≡ 4096) ⊎ (skip + count ≡ size)
    → offset < 4096
    → (offset < start) ⊎ (start + count ≤ offset)
    → (leb addr (page * 4096 + offset) && ltb (page * 4096 + offset) (addr + size)) ≡ false
outside page start count skip addr size offset place low high lt (inl b) = elim low [
  | inl z ↦ absurd (omega arith)
  | inr z ↦ ground arith
]
outside page start count skip addr size offset place low high lt (inr b) = elim high [
  | inl z ↦ absurd (omega arith)
  | inr z ↦ ground arith
]

-- One page of the span: from `start` on in the frame, the bytes of the buffer from `skip` on.
pub shown-inside :
    (memory : ℕ → ℕ → ℕ) (frame start count skip addr page offset : ℕ) (buf : List ℕ)
    → page * 4096 + start ≡ addr + skip
    → skip + count ≤ length buf
    → (start ≡ 0) ⊎ (skip ≡ 0)
    → (start + count ≡ 4096) ⊎ (skip + count ≡ length buf)
    → offset < 4096
    → some (copy_from_slice memory frame start (take count (drop skip buf)) frame offset)
      ≡ written addr buf (page * 4096 + offset) (some (memory frame offset))
shown-inside memory frame start count skip addr page offset buf place fits low high lt =
    elim (Bool-cases (leb start offset && ltb offset (start + count))) [
      | inl in_block ↦
          let in_buf : (leb addr (page * 4096 + offset)
                && ltb (page * 4096 + offset) (addr + length buf))
              ≡ true =
            ground (arith) in
          let i : offset - start < count = ground arith in
          let place' : skip + (offset - start) ≡ page * 4096 + offset - addr = ground arith in
          rw (==_self frame, length-take-drop count skip buf fits, in_block, in_buf)
            (ap some (
              get_or-take count (offset - start) (drop skip buf) i
              ∙ get_or-drop skip (offset - start) buf
              ∙ ap (λ i. get_or buf i 0) place'))
      | inr out ↦
          let out_buf : (leb addr (page * 4096 + offset)
                && ltb (page * 4096 + offset) (addr + length buf))
              ≡ false =
            outside page start count skip addr (length buf) offset place low high lt
              (before_or_after start count offset out) in
          rw (==_self frame, length-take-drop count skip buf fits, out, out_buf) refl
    ]

pub sub64-sum : (a b : ℕ) {c : ℕ} → sub64 a b ≡ done c → c + b ≡ a
sub64-sum a b h = ground arith

pub page_span-done :
    (addr end_inclusive page size : ℕ) {start count skip : ℕ}
    → end_inclusive + 1 ≡ addr + size
    → page_span addr end_inclusive page ≡ done (start, count, skip)
    → (page * 4096 + start ≡ addr + skip)
      × ((start ≡ 0) ⊎ (skip ≡ 0))
      × ((start + count ≡ 4096) ⊎ (skip + count ≡ size))
unfolding page_span
page_span-done addr end_inclusive page size {start} {count} {skip} last e =
    let (s, e₁, f₁) = >>=-eq-done (sub64 (max addr (page * 4096)) (page * 4096)) _ e in
    let (t, e₂, f₂) =
      >>=-eq-done (sub64 (min end_inclusive (page * 4096 + 4095)) (page * 4096)) _ f₁ in
    let (n, e₃, f₃) = >>=-eq-done (sub64 t s) _ f₂ in
    let (k, e₄, f₄) = >>=-eq-done (sub64 (max addr (page * 4096)) addr) _ f₃ in
    let is = done-injective f₄ in
    spans s t n k (sub64-sum _ _ e₁) (sub64-sum _ _ e₂) (sub64-sum _ _ e₃) (sub64-sum _ _ e₄)
      (ap (λ (p : ℕ × ℕ × ℕ). p.0) is) (ap (λ (p : ℕ × ℕ × ℕ). p.1) is)
      (ap (λ (p : ℕ × ℕ × ℕ). p.2) is)
  where
    spans :
        (s t n k : ℕ)
        → s + page * 4096 ≡ max addr (page * 4096)
        → t + page * 4096 ≡ min end_inclusive (page * 4096 + 4095)
        → n + s ≡ t
        → k + addr ≡ max addr (page * 4096)
        → s ≡ start
        → n + 1 ≡ count
        → k ≡ skip
        → (page * 4096 + start ≡ addr + skip)
          × ((start ≡ 0) ⊎ (skip ≡ 0))
          × ((start + count ≡ 4096) ⊎ (skip + count ≡ size))
    spans s t n k a b c d e f g = (omega arith, ground arith, ground arith)

pub or_panic-done : (o : Option ℕ) {a : ℕ} → or_panic o ≡ done a → o ≡ some a
or_panic-done none e = cc
or_panic-done (some b) e = ap some (done-injective e)
