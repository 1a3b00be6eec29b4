-- ===== src/Frames/Merge.antt =====
-- The merging of the reported regions into ranges, and the index at which the walk starts.
use mathlib.Core.List.{reverse, reverse-cons}
use miniature.Base.{
  ℕ, suc, ◌+◌, ◌≤◌, ◌<◌, ◌≡◌, refl, sym, ap, ◌∙◌, Bool, true, false, ◌&&◌, ◌||◌, List, [], ◌∷◌,
  ◌++◌, take, All, ltb, leb, if◌then◌else◌, done, >>=-eq-done, add64, add64-done, done-injective,
  subst, word, arith,
}
use miniature.Frames.{
  MemoryRegion, Range, contains, merge_region, merge_regions, merged, initial_index,
}

-- The regions stand in the order of their starts, from `lo` on.
abbrev pub SortedFrom : ℕ → List MemoryRegion → Type 0
SortedFrom lo [] = Unit
SortedFrom lo (r ∷ rs) = (lo ≤ r.start) × SortedFrom r.start rs

abbrev pub IsSorted : List MemoryRegion → Type 0
IsSorted = SortedFrom 0

-- Ranges in order, with a gap between any two, from `lo` on and below `hi`.
abbrev pub Chain : ℕ → List Range → ℕ → Type 0
Chain lo [] hi = lo ≤ hi
Chain lo (r ∷ rs) hi = (lo ≤ r.start) × (r.start ≤ r.end) × Chain (suc r.end) rs hi

-- The address lies in a range of the list.
abbrev pub covers : List Range → ℕ → Bool
covers [] a = false
covers (r ∷ rs) a = contains r a || covers rs a

-- The address lies in a region of the list.
abbrev pub unavailable : List MemoryRegion → ℕ → Bool
unavailable [] a = false
unavailable (r ∷ rs) a = (leb r.start a && ltb a (r.start + r.length)) || unavailable rs a

-- The stack of the merging loop, its top first: a chain below `n`.
abbrev Below : ℕ → List Range → Type 0
Below n [] = Unit
Below n (r ∷ rs) = (suc r.end ≤ n) × (r.start ≤ r.end) × Below r.start rs

abbrev Stacked : ℕ → List Range → Type 0
Stacked s [] = ⊥
Stacked s (r ∷ rs) = (r.start ≤ s) × (r.start ≤ r.end) × (suc r.end ≤ word) × Below r.start rs

merge_region-Stacked :
    (s : ℕ) (stack : List Range) (r : MemoryRegion) {out : List Range}
    → Stacked s stack
    → s ≤ r.start
    → merge_region stack r ≡ done out
    → Stacked r.start out
unfolding merge_region
merge_region-Stacked s [] r h le e = absurd h
merge_region-Stacked s (peek ∷ below) r h le e = ground arith

covers-merge_region :
    (s : ℕ) (stack : List Range) (r : MemoryRegion) (a : ℕ) {out : List Range}
    → Stacked s stack
    → s ≤ r.start
    → merge_region stack r ≡ done out
    → covers out a ≡ covers stack a || (leb r.start a && ltb a (r.start + r.length))
unfolding merge_region
covers-merge_region s [] r a h le e = absurd h
covers-merge_region s (peek ∷ below) r a h le e = ground arith

or_assoc : (a b c : Bool) → (a || b) || c ≡ a || (b || c)
or_assoc true b c = refl
or_assoc false b c = refl

or_comm : (a b : Bool) → a || b ≡ b || a
or_comm true true = refl
or_comm true false = refl
or_comm false true = refl
or_comm false false = refl

-- What the loop leaves is a stack, and covers what it covered and the regions.
record Merges (stack : List Range) (rs : List MemoryRegion) (out : List Range) : Type 0 where
  shape : Below word out
  same : (a : ℕ) → covers out a ≡ covers stack a || unavailable rs a

merge_regions-Merges :
    (s : ℕ) (stack : List Range) (rs : List MemoryRegion) {out : List Range}
    → Stacked s stack
    → SortedFrom s rs
    → merge_regions stack rs ≡ done out
    → Merges stack rs out
unfolding merge_regions
merge_regions-Merges s [] [] h o e = absurd h
merge_regions-Merges s (x ∷ xs) [] h o e =
    subst (Merges (x ∷ xs) []) (done-injective e)
      (record { shape = (h.2, h.1, h.3); same = λ a. or_comm false (covers (x ∷ xs) a) })
merge_regions-Merges s stack (r ∷ rs) {out} h o e =
    let (stack', e₁, e₂) = >>=-eq-done (merge_region stack r) (λ t. merge_regions t rs) e in
    let ih =
      merge_regions-Merges r.start stack' rs (merge_region-Stacked s stack r h o.0 e₁) o.1 e₂ in
    record {
      shape = ih.shape;
      same = λ a.
          ih.same a
          ∙ (ap (λ b. b || unavailable rs a) (covers-merge_region s stack r a h o.0 e₁)
              ∙ or_assoc (covers stack a) _ (unavailable rs a));
    }

Chain-append :
    (lo mid : ℕ) (rs : List Range) (x : Range) (hi : ℕ)
    → Chain lo rs mid
    → mid ≤ x.start
    → x.start ≤ x.end
    → suc x.end ≤ hi
    → Chain lo (rs ++ x ∷ []) hi
Chain-append lo mid [] x hi c p q r = omega arith
Chain-append lo mid (y ∷ rs) x hi c p q r =
    (c.0, c.1, Chain-append (suc y.end) mid rs x hi c.2 p q r)

reverse-Chain : (n : ℕ) (rs : List Range) → Below n rs → Chain 0 (reverse rs) n
reverse-Chain n [] b = omega arith
reverse-Chain n (x ∷ rs) b =
    subst (λ l. Chain 0 l n) (sym (reverse-cons x rs))
      (Chain-append 0 x.start (reverse rs) x n (reverse-Chain x.start rs b.2) (omega arith) b.1 b.0)

covers-append : (xs ys : List Range) (a : ℕ) → covers (xs ++ ys) a ≡ covers xs a || covers ys a
covers-append [] ys a = refl
covers-append (x ∷ xs) ys a =
    ap (λ b. contains x a || b) (covers-append xs ys a)
    ∙ sym (or_assoc (contains x a) (covers xs a) (covers ys a))

covers-reverse : (rs : List Range) (a : ℕ) → covers (reverse rs) a ≡ covers rs a
covers-reverse [] a = refl
covers-reverse (x ∷ rs) a =
    ap (λ l. covers l a) (reverse-cons x rs)
    ∙ (covers-append (reverse rs) (x ∷ []) a
        ∙ (ap (λ b. b || (contains x a || false)) (covers-reverse rs a)
            ∙ (or_comm (covers rs a) _ ∙ or_tail (contains x a) (covers rs a))))
  where
    or_tail : (b c : Bool) → (b || false) || c ≡ b || c
    or_tail true c = refl
    or_tail false c = refl

-- The ranges that `from_memory_regions` builds: in order, apart, and covering what is unavailable.
pub record IsMerged (regions : List MemoryRegion) (ranges : List Range) : Type 0 where
  pub chain : Chain 0 ranges word
  pub same : (a : ℕ) → covers ranges a ≡ unavailable regions a

covers_first :
    (s l e a : ℕ) (b : Bool)
    → e ≡ s + l
    → covers (record { start = s; end = e } ∷ []) a || b ≡ (leb s a && ltb a (s + l)) || b
covers_first s l e a b h = ground arith

-- For regions in the order of their starts, the merged ranges, if the code returns them, are in order
-- with gaps between them, and an address lies in one of them exactly when it lies in a region.
pub merged-IsMerged :
    (regions : List MemoryRegion) {ranges : List Range}
    → IsSorted regions
    → merged regions ≡ done ranges
    → IsMerged regions ranges
unfolding merged
merged-IsMerged [] s e = cc
merged-IsMerged (r ∷ rs) {ranges} s e =
    let (r_end, e₁, e₂) = >>=-eq-done (add64 r.start r.length) _ e in
    let end = add64-done r.start r.length e₁ in
    let first : Stacked r.start (record { start = r.start; end = r_end } ∷ []) = omega arith in
    let (stack, e₃, e₄) =
      >>=-eq-done (merge_regions (record { start = r.start; end = r_end } ∷ []) rs) _ e₂ in
    let m =
      merge_regions-Merges r.start (record { start = r.start; end = r_end } ∷ []) rs first s.1 e₃ in
    subst (IsMerged (r ∷ rs)) (done-injective e₄) (record {
      chain = reverse-Chain word stack m.shape;
      same = λ a.
          covers-reverse stack a
          ∙ (m.same a ∙ covers_first r.start r.length r_end a (unavailable rs a) end.0);
    })

-- `initial_index` skips the ranges that end by `start`, and no other.
passed_count : ℕ → List Range → ℕ
passed_count start [] = 0
passed_count start (r ∷ rs) = if leb r.end start then suc (passed_count start rs) else 0

initial_index-none :
    (start lo i found : ℕ) (rs : List Range) (hi : ℕ)
    → start < lo
    → Chain lo rs hi
    → initial_index start i found rs ≡ found
unfolding initial_index
initial_index-none start lo i found [] hi h c = refl
initial_index-none start lo i found (r ∷ rs) hi h c =
    ground (arith, initial_index-none start (suc r.end) (i + 1) found rs hi)

initial_index-passed_count :
    (start lo i : ℕ) (rs : List Range) (hi : ℕ)
    → Chain lo rs hi
    → initial_index start i i rs ≡ i + passed_count start rs
unfolding initial_index passed_count
initial_index-passed_count start lo i [] hi c = omega arith
initial_index-passed_count start lo i (r ∷ rs) hi c = ground (
  arith,
  initial_index-passed_count start (suc r.end) (i + 1) rs hi,
  initial_index-none start (suc r.end) (i + 1) i rs hi,
)

passed_count-All :
    (start : ℕ) (rs : List Range) → All (λ r. r.end ≤ start) (take (passed_count start rs) rs)
unfolding passed_count
passed_count-All start [] = tt
passed_count-All start (r ∷ rs) = ground (arith, passed_count-All start rs)

pub initial_index-All :
    (start : ℕ) (rs : List Range) (hi : ℕ)
    → Chain 0 rs hi
    → All (λ r. r.end ≤ start) (take (initial_index start 0 0 rs) rs)
initial_index-All start rs hi c =
    subst (λ k. All (λ r. r.end ≤ start) (take k rs))
      (sym (initial_index-passed_count start 0 0 rs hi c ∙ omega arith)) (passed_count-All start rs)
