-- ===== src/Frames/Blocks.antt =====
-- The blocks that `next_n` hands out: free of every range, and one above the other.
use miniature.Base.{
  ℕ, zero, suc, ◌+◌, ◌*◌, ◌≤◌, ◌<◌, ◌≡◌, refl, sym, subst, ◌⊎◌, inl, inr, false, List, [], ◌∷◌,
  length, take, drop, take-append-drop, All-append, leb, Bool-cases, leb→le, Outcome, done,
  >>=-eq-done, add64, add64-done, mul64, mul64-done, done-injective, word, arith,
}
use miniature.Frames.{
  Range, MemoryRegion, LinkedRangeIterator, pass_ranges, next_n_fuel, next_n, from_memory_regions,
  merged,
}
use miniature.Frames.Merge.{Chain, IsSorted, IsMerged, merged-IsMerged, initial_index-All, covers}
use miniature.Frames.Walk.{
  Behind, IsFree, Behind-IsFree, Behind-mono, Chain-IsFree, pass_ranges-done,
}

-- The ranges are in order and apart, and those before the index lie behind the position.
pub record IsValid (it : LinkedRangeIterator) : Type 0 where
  pub chain : Chain 0 it.ranges word
  pub behind : Behind it.current_value (take it.current_range_index it.ranges)

-- What one call does: `p` is the start of the block.
pub record Takes (it : LinkedRangeIterator) (size p : ℕ) (it' : LinkedRangeIterator) : Type 0 where
  pub ranges : it'.ranges ≡ it.ranges
  pub window : it'.window ≡ it.window
  pub from : it.current_value ≤ p
  pub to : it'.current_value ≡ p + size
  pub free : IsFree p size it.ranges
  pub behind : Behind it'.current_value (take it'.current_range_index it'.ranges)

Chain-drop :
    (n lo : ℕ) (rs : List Range) (hi : ℕ) {r : Range} {rest : List Range}
    → Chain lo rs hi
    → drop n rs ≡ r ∷ rest
    → (r.start ≤ r.end) × Chain (suc r.end) rest hi
Chain-drop zero lo [] hi c d = cc
Chain-drop zero lo (x ∷ rs) hi c d = ground arith
Chain-drop (suc n) lo [] hi c d = cc
Chain-drop (suc n) lo (x ∷ rs) hi c d = Chain-drop n (suc x.end) rs hi c.2 d

-- The ranges behind the block and those before it are all.
IsFree-split :
    (n p size : ℕ) (ranges rest : List Range)
    → drop n ranges ≡ rest
    → Behind p (take n ranges)
    → IsFree p size rest
    → IsFree p size ranges
IsFree-split n p size ranges rest d b f = subst (IsFree p size) (take-append-drop n ranges) (
    All-append (λ r. (r.end ≤ p) ⊎ (p + size ≤ r.start)) (take n ranges) (drop n ranges)
      (Behind-IsFree p size (take n ranges) b) (subst (IsFree p size) (sym d) f))

start_lt : (curr start : ℕ) → leb curr start ≡ false → start ≤ curr
start_lt curr start h = ground arith

module _ (P : ℕ → Type 0) (uninit : Range) (size : ℕ) (keep : (x : ℕ) → P x → P (x + size)) where
  -- The block is taken at the position itself.
  take_here-Takes :
      (it : LinkedRangeIterator) (rest : List Range) {curr p : ℕ} {it' : LinkedRangeIterator}
      → drop it.current_range_index it.ranges ≡ rest
      → IsValid it
      → add64 it.current_value size ≡ done curr
      → IsFree it.current_value size rest
      → P it.current_value
      → ◌≡◌ {A = Outcome (ℕ × LinkedRangeIterator)}
          (done (it.current_value, record it { current_value = curr }))
          (done (p, it'))
      → Takes it size p it' × P p
  take_here-Takes it rest {curr} {p} {it'} d v e f h q =
      let pq = done-injective q in
      let sum = add64-done it.current_value size e in
      subst (λ (t : ℕ × LinkedRangeIterator). Takes it size t.0 t.1 × P t.0) pq
        (
          record {
            ranges = refl;
            window = refl;
            from = omega arith;
            to = sum.0;
            free =
                IsFree-split it.current_range_index it.current_value size it.ranges rest d v.behind
                  f;
            behind = Behind-mono it.current_value curr _ (omega (arith, sum.0)) v.behind;
          },
          h,
        )

  next_n_fuel-Takes :
      (fuel : ℕ) (it : LinkedRangeIterator) (rest : List Range) {p : ℕ} {it' : LinkedRangeIterator}
      → drop it.current_range_index it.ranges ≡ rest
      → IsValid it
      → P it.current_value
      → next_n_fuel uninit fuel size it ≡ done (p, it')
      → Takes it size p it' × P p
  unfolding next_n_fuel
  next_n_fuel-Takes zero it rest d v h e = cc
  next_n_fuel-Takes (suc fuel) it [] d v h e =
      let (curr, e₁, e₂) = >>=-eq-done (add64 it.current_value size) _ (rw (d, next_n_fuel) at e) in
      take_here-Takes it [] d v e₁ tt h e₂
  next_n_fuel-Takes (suc fuel) it (r ∷ rest) {p} {it'} d v h e =
      let (curr, e₁, e₂) = >>=-eq-done (add64 it.current_value size) _ (rw (d, next_n_fuel) at e) in
      let sum = add64-done it.current_value size e₁ in
      let c = Chain-drop it.current_range_index 0 it.ranges word v.chain d in
      elim (Bool-cases (leb curr r.start)) [
        | inl fits ↦
            let le = leb→le curr r.start fits in
            take_here-Takes it (r ∷ rest) d v e₁
              (
                inr (omega (arith, sum.0)),
                Chain-IsFree it.current_value size (suc r.end) rest word (omega (arith, sum.0, c.0))
                    c.1,
              )
              h (rw fits at e₂)
        | inr over ↦
            let ((idx, curr'), e₃, e₄) =
              >>=-eq-done (pass_ranges uninit size (r ∷ rest) it.current_range_index curr) _
                (rw over at e₂) in
            let (a, b, c') =
              pass_ranges-done P size keep uninit it.ranges (r ∷ rest) it.current_range_index curr d
                (Behind-mono it.current_value curr _ (omega (arith, sum.0)) v.behind)
                (start_lt curr r.start over) (subst P (sym sum.0) (keep it.current_value h)) e₃ in
            let moved = record it { current_range_index = idx; current_value = curr' } in
            let (t, hp) =
              next_n_fuel-Takes fuel moved (drop idx it.ranges) refl
                (record { chain = v.chain; behind = a }) c' e₄ in
            (
              record {
                ranges = t.ranges;
                window = t.window;
                from = omega (arith, t.from, b, sum.0);
                to = t.to;
                free = t.free;
                behind = t.behind;
              },
              hp,
            )
      ]

-- A call of `next_n` on a valid iterator, if it returns: the block of `count` windows starts at or
-- above the position and overlaps no range, and the position moves to its end.
pub next_n-Takes :
    (uninit : Range) (it : LinkedRangeIterator) (count : ℕ) {p : ℕ} {it' : LinkedRangeIterator}
    → IsValid it
    → next_n uninit it count ≡ done (p, it')
    → Takes it (it.window * count) p it'
unfolding next_n
next_n-Takes uninit it count {p} {it'} v e =
    let (size, e₁, e₂) = >>=-eq-done (mul64 it.window count) _ e in
    let product = mul64-done it.window count e₁ in
    let t =
      next_n_fuel-Takes (λ _. Unit {0}) uninit size (λ _ _. tt) (suc (length it.ranges)) it
        (drop it.current_range_index it.ranges) refl v tt e₂ in
    subst (λ n. Takes it n p it') product.0 t.0

-- A position at a whole number of windows stays at one, and so does the block.
pub next_n_aligned :
    (uninit : Range) (it : LinkedRangeIterator) (count k : ℕ) {p : ℕ} {it' : LinkedRangeIterator}
    → IsValid it
    → it.current_value ≡ it.window * k
    → next_n uninit it count ≡ done (p, it')
    → (j : ℕ) × (p ≡ it.window * j)
unfolding next_n
next_n_aligned uninit it count k v a e =
    let (size, e₁, e₂) = >>=-eq-done (mul64 it.window count) _ e in
    let product = mul64-done it.window count e₁ in
    (next_n_fuel-Takes (λ x. (j : ℕ) × (x ≡ it.window * j)) uninit size
      (λ x h. (h.0 + count, omega (arith, h.1, product.0))) (suc (length it.ranges)) it
      (drop it.current_range_index it.ranges) refl v (k, a) e₂).1

pub Takes-IsValid :
    {it it' : LinkedRangeIterator} {size p : ℕ} → IsValid it → Takes it size p it' → IsValid it'
Takes-IsValid v t = record {
  chain = subst (λ rs. Chain 0 rs word) (sym t.ranges) v.chain;
  behind = t.behind;
}

-- The iterator that is built from regions in order is valid.
pub from_memory_regions-IsValid :
    (start window : ℕ) (regions : List MemoryRegion) {it : LinkedRangeIterator}
    → IsSorted regions
    → from_memory_regions start window regions ≡ done it
    → IsValid it × IsMerged regions it.ranges × (it.current_value ≡ start) × (it.window ≡ window)
unfolding from_memory_regions
from_memory_regions-IsValid start window regions s e =
    let (ranges, e₁, e₂) = >>=-eq-done (merged regions) _ e in
    let m = merged-IsMerged regions s e₁ in
    subst
      (λ (it : LinkedRangeIterator).
        IsValid it × IsMerged regions it.ranges × (it.current_value ≡ start) × (it.window ≡ window))
      (done-injective e₂)
      (
        record { chain = m.chain; behind = initial_index-All start ranges word m.chain },
        m,
        refl,
        refl,
      )

-- No address of a free block is covered.
pub covers-IsFree :
    (p size a : ℕ) (rs : List Range) → IsFree p size rs → p ≤ a → a < p + size → covers rs a ≡ false
covers-IsFree p size a [] f h k = refl
covers-IsFree p size a (r ∷ rs) f h k = ground (arith, covers-IsFree p size a rs f.1 h k)
