-- ===== src/Frames/Total.antt =====
-- `next_n` returns: the fuel of the model is enough, and no panic is reached.
use miniature.Base.{
  ℕ, zero, suc, ◌+◌, ◌-◌, ◌*◌, ◌≤◌, ◌<◌, ◌≡◌, refl, ap, ◌∙◌, subst, true, false, List, [], ◌∷◌,
  length, length-drop, drop, All, lt→ltb, leb, Bool-cases, inl, inr, min, done, ◌>>=◌, add64,
  add64_fits, mul64_fits, word, arith,
}
use miniature.Frames.{
  Range, contains, LinkedRangeIterator, leave_range, leave_fuel, head_or, pass_ranges,
  max_range_count, next_n_fuel, next_n,
}

inside-lt : (r : Range) (curr : ℕ) → contains r curr ≡ true → curr < r.end
inside-lt r curr h = ground arith

leave_range_total :
    (fuel : ℕ) (r : Range) (size curr top : ℕ)
    → r.end - curr < fuel
    → 0 < size
    → curr ≤ top
    → r.end + size ≤ top
    → top < word
    → (out : ℕ) × (leave_range fuel r size curr ≡ done out) × (out ≤ top)
unfolding leave_range
leave_range_total zero r size curr top f s c e w = absurd (omega arith)
leave_range_total (suc fuel) r size curr top f s c e w = elim (Bool-cases (contains r curr)) [
  | inl inside ↦
      let lt = inside-lt r curr inside in
      let (out, q, le) =
        leave_range_total fuel r size (curr + size) top (omega (arith, lt)) s (omega (arith, lt)) e
          w in
      (out, rw (leave_range, inside, add64_fits curr size (omega (arith, lt))) q, le)
  | inr outside ↦ (curr, rw (leave_range, outside), c)
]

pass_ranges_total :
    (uninit : Range) (size : ℕ) (rest : List Range) (idx curr bound : ℕ)
    → 0 < size
    → curr ≤ bound + size
    → bound + size < word
    → All (λ r. r.end ≤ bound) rest
    → idx + length rest < max_range_count
    → (out : ℕ × ℕ) × (pass_ranges uninit size rest idx curr ≡ done out)
      × (out.1 ≤ bound + size)
      × (idx + min 1 (length rest) ≤ out.0)
unfolding pass_ranges
pass_ranges_total u size [] idx curr bound s c w a l = ((idx, curr), refl, c, omega arith)
pass_ranges_total u size (r ∷ rest) idx curr bound s c w a l =
    let (curr', e, c') =
      leave_range_total (leave_fuel r curr) r size curr (bound + size) (omega arith) s c
        (omega (arith, a.0)) w in
    let room = lt→ltb (idx + 1) max_range_count (omega arith) in
    elim (Bool-cases (contains (head_or u rest) curr')) [
      | inl over ↦
          let (out, q, le, up) =
            pass_ranges_total u size rest (idx + 1) curr' bound s c' w a.1 (omega arith) in
          (out, rw (e, room, over) q, le, omega arith)
      | inr clear ↦ ((idx + 1, curr'), rw (e, room, clear), c', omega arith)
    ]

All-drop :
    (n bound : ℕ) (rs : List Range)
    → All (λ r. r.end ≤ bound) rs
    → All (λ r. r.end ≤ bound) (drop n rs)
All-drop zero bound rs a = a
All-drop (suc n) bound [] a = tt
All-drop (suc n) bound (r ∷ rs) a = All-drop n bound rs a.1

All-mono : (b c : ℕ) (rs : List Range) → b ≤ c → All (λ r. r.end ≤ b) rs → All (λ r. r.end ≤ c) rs
All-mono b c [] h a = tt
All-mono b c (r ∷ rs) h a = (omega arith, All-mono b c rs h a.1)

next_n_fuel-over :
    (u : Range) (size fuel : ℕ) (it : LinkedRangeIterator) (r : Range) (rest : List Range)
    (out : ℕ × ℕ)
    → drop it.current_range_index it.ranges ≡ r ∷ rest
    → add64 it.current_value size ≡ done (it.current_value + size)
    → leb (it.current_value + size) r.start ≡ false
    → pass_ranges u size (r ∷ rest) it.current_range_index (it.current_value + size) ≡ done out
    → next_n_fuel u (suc fuel) size it
      ≡ next_n_fuel u fuel size (record it { current_range_index = out.0; current_value = out.1 })
unfolding next_n_fuel
next_n_fuel-over u size fuel it r rest out d fits over e = rw (d, next_n_fuel, fits, ◌>>=◌, over, e)

next_n_fuel_total :
    (uninit : Range) (size fuel : ℕ) (it : LinkedRangeIterator) (rest : List Range) (bound left : ℕ)
    → 0 < size
    → drop it.current_range_index it.ranges ≡ rest
    → length rest ≤ left
    → left < fuel
    → length it.ranges < max_range_count
    → All (λ r. r.end ≤ bound) it.ranges
    → it.current_value ≤ bound
    → bound + (left + 1) * size < word
    → (out : ℕ × LinkedRangeIterator) × (next_n_fuel uninit fuel size it ≡ done out)
unfolding next_n_fuel
next_n_fuel_total u size zero it rest bound left s d n f l a c w = absurd (omega arith)
next_n_fuel_total u size (suc fuel) it [] bound left s d n f l a c w = (
  (it.current_value, record it { current_value = it.current_value + size }),
  rw (d, next_n_fuel, add64_fits it.current_value size (omega arith)),
)
next_n_fuel_total u size (suc fuel) it (r ∷ rest) bound zero s d n f l a c w = absurd (omega arith)
next_n_fuel_total u size (suc fuel) it (r ∷ rest) bound (suc left) s d n f l a c w =
    let fits = add64_fits it.current_value size (omega arith) in
    elim (Bool-cases (leb (it.current_value + size) r.start)) [
      | inl here ↦ (
        (it.current_value, record it { current_value = it.current_value + size }),
        rw (d, next_n_fuel, fits, ◌>>=◌, here),
      )
      | inr over ↦
          let len = ap length d in
          let drop_len = length-drop it.current_range_index it.ranges in
          let (out, e, le, up) =
            pass_ranges_total u size (r ∷ rest) it.current_range_index (it.current_value + size)
              bound s (omega arith) (omega arith)
              (subst (All (λ r. r.end ≤ bound)) d
                (All-drop it.current_range_index bound it.ranges a))
              (omega (arith, len, drop_len)) in
          let moved = record it { current_range_index = out.0; current_value = out.1 } in
          let (res, q) =
            next_n_fuel_total u size fuel moved (drop out.0 it.ranges) (bound + size) left s refl
              (omega (arith, length-drop out.0 it.ranges, up, len, drop_len)) (omega arith) l
              (All-mono bound (bound + size) it.ranges (omega arith) a) le (omega arith) in
          (res, next_n_fuel-over u size fuel it r rest out d fits over e ∙ q)
    ]

-- A call for at least one window returns a block: no loop runs for ever and nothing panics, if the
-- array has a free entry and the addresses leave room for as many blocks as there are ranges.
pub next_n_total :
    (uninit : Range) (it : LinkedRangeIterator) (count bound : ℕ)
    → 0 < it.window * count
    → length it.ranges < max_range_count
    → All (λ r. r.end ≤ bound) it.ranges
    → it.current_value ≤ bound
    → bound + (length it.ranges + 1) * (it.window * count) < word
    → (out : ℕ × LinkedRangeIterator) × (next_n uninit it count ≡ done out)
unfolding next_n
next_n_total u it count bound s l a c w =
    let size = it.window * count in
    let (out, e) =
      next_n_fuel_total u size (suc (length it.ranges)) it (drop it.current_range_index it.ranges)
        bound (length it.ranges) s refl
        (omega (arith, length-drop it.current_range_index it.ranges)) (omega arith) l a c w in
    (out, rw (mul64_fits it.window count (grind arith)) e)
