-- ===== src/Paging/Tracked/Entries.antt =====
-- What marking an entry as used changes, and how the two indices enclose the free entries.
use mathlib.Core.Bool.{false≢true}
use miniature.Base.{
  ℕ, zero, suc, ◌+◌, ◌-◌, ◌≤◌, ◌<◌, ◌≡◌, refl, sym, ap, ◌∙◌, subst, inl, inr, Bool, true, false,
  ◌&&◌, Bool-cases, List, Option, none, some, length, length-set, get_or-set_self, get_or-set_ne,
  set, ltb, ltb→lt, ltb→le, lt→ltb, le→ltb, ◌==◌, ==_iff, if◌then◌else◌, done, arith,
}
use miniature.Paging.Tracked.{
  TrackedMapper, is_used, next_available, previous_available, mark_as_used,
}

-- Every free entry lies between the two indices.
pub record IsTracked (t : TrackedMapper) : Type 0 where
  pub size : length t.used ≡ 512
  pub low : (i : ℕ) → is_used t.used i ≡ false → t.first_available_index ≤ i
  pub high : (i : ℕ) → is_used t.used i ≡ false → i ≤ t.last_available_index

next_available-used :
    (left : ℕ) (used : List Bool) (curr i : ℕ)
    → curr ≤ i
    → i < next_available left used curr
    → is_used used i ≡ true
unfolding next_available
next_available-used zero used curr i h l = absurd (omega arith)
next_available-used (suc left) used curr i h l =
    elim (Bool-cases (ltb curr 512 && is_used used curr)) [
      | inl more ↦ elim (Bool-cases (i == curr)) [
        | inl e ↦
            subst (λ k. is_used used k ≡ true) (sym ((==_iff i curr).0 e))
              (second (ltb curr 512) _ more)
        | inr ne ↦
            next_available-used left used (curr + 1) i (later curr i h ne)
              (rw (next_available, more) at l)
      ]
      | inr stop ↦ absurd (let l' : i < curr = rw (next_available, stop) at l in omega arith)
    ]
  where
    second : (a b : Bool) → a && b ≡ true → b ≡ true
    second true b e = e
    second false b e = cc

    later : (curr i : ℕ) → curr ≤ i → (i == curr) ≡ false → curr + 1 ≤ i
    later curr i h e = ground arith

previous_available-used :
    (used : List Bool) (curr i : ℕ)
    → i ≤ curr
    → previous_available used curr < i
    → is_used used i ≡ true
unfolding previous_available
previous_available-used used zero i h l = absurd (omega arith)
previous_available-used used (suc curr) i h l = elim (Bool-cases (is_used used (suc curr))) [
  | inl more ↦ elim (Bool-cases (i == suc curr)) [
    | inl e ↦ subst (λ k. is_used used k ≡ true) (sym ((==_iff i (suc curr)).0 e)) more
    | inr ne ↦
        previous_available-used used curr i (earlier curr i h ne)
          (rw (previous_available, more) at l)
  ]
  | inr stop ↦ absurd (let l' : suc curr < i = rw (previous_available, stop) at l in omega arith)
]
  where
    earlier : (curr i : ℕ) → i ≤ suc curr → (i == suc curr) ≡ false → i ≤ curr
    earlier curr i h e = ground arith

-- The flags after a write.
pub used-set :
    (used : List Bool) (index i : ℕ) (b : Bool)
    → index < length used
    → is_used (set used index b) i ≡ (if index == i then b else is_used used i)
used-set used index i b h = elim (Bool-cases (index == i)) [
  | inl e ↦
      let q = (==_iff index i).0 e in
      rw e (subst (λ k. is_used (set used index b) k ≡ b) q (get_or-set_self used index b true h))
  | inr ne ↦ rw ne (get_or-set_ne used index i b true (λ q. cc (ne, (==_iff index i).1 q)))
]

free_before :
    (used : List Bool) (index i : ℕ)
    → index < length used
    → is_used (set used index true) i ≡ false
    → is_used used i ≡ false
free_before used index i h e = ground (arith, used-set used index i true h)

module _ (t : TrackedMapper) (index : ℕ) (v : IsTracked t) (inside : index < 512)
    (free : is_used t.used index ≡ false) where
  in_table : index < length t.used
  in_table = omega (arith, v.size)

  abbrev marked : List Bool
  marked = set t.used index true

  size-marked : length marked ≡ 512
  size-marked = length-set t.used index true ∙ v.size

  low-marked : (i : ℕ) → is_used marked i ≡ false → t.first_available_index ≤ i
  low-marked i e = v.low i (free_before t.used index i in_table e)

  high-marked : (i : ℕ) → is_used marked i ≡ false → i ≤ t.last_available_index
  high-marked i e = v.high i (free_before t.used index i in_table e)

  -- The first index moves up over used entries only.
  low-next :
      t.first_available_index ≡ index
      → (i : ℕ) → is_used marked i ≡ false
      → next_available (512 - index) marked index ≤ i
  low-next at i e = elim (Bool-cases (ltb i (next_available (512 - index) marked index))) [
    | inl early ↦ absurd (
        false≢true (
          sym e
          ∙ next_available-used (512 - index) marked index i (omega (arith, low-marked i e, at))
              (ltb→lt i _ early)))
    | inr late ↦ ltb→le i _ late
  ]

  high-previous :
      t.last_available_index ≡ index
      → (i : ℕ) → is_used marked i ≡ false
      → i ≤ previous_available marked index
  high-previous at i e = elim (Bool-cases (ltb (previous_available marked index) i)) [
    | inl late ↦ absurd (
        false≢true (
          sym e
          ∙ previous_available-used marked index i (omega (arith, high-marked i e, at))
              (ltb→lt _ i late)))
    | inr early ↦ ltb→le _ i early
  ]

  -- Marking a free entry: the entry is used afterwards, no other changes, and the indices still
  -- enclose every free entry.
  pub mark_free :
      (t' : TrackedMapper) × (mark_as_used t index ≡ done (some index, t'))
      × IsTracked t'
      × (t'.used ≡ marked)
      × (t'.level ≡ t.level)
  unfolding mark_as_used
  mark_free =
      let bound = lt→ltb index 512 inside in
      let not_above = le→ltb 512 index (omega arith) in
      elim (Bool-cases (t.first_available_index == index)) [
        | inl first ↦ (
          record t {
            used = marked;
            first_available_index = next_available (512 - index) marked index;
          },
          rw (mark_as_used, not_above, bound, free, first),
          record {
            size = size-marked;
            low = low-next ((==_iff _ index).0 first);
            high = high-marked;
          },
          refl,
          refl,
        )
        | inr other ↦ elim (Bool-cases (t.last_available_index == index)) [
          | inl last ↦ (
            record t { used = marked; last_available_index = previous_available marked index },
            rw (mark_as_used, not_above, bound, free, other, last),
            record {
              size = size-marked;
              low = low-marked;
              high = high-previous ((==_iff _ index).0 last);
            },
            refl,
            refl,
          )
          | inr between ↦ (
            record t { used = marked },
            rw (mark_as_used, not_above, bound, free, other, between),
            record { size = size-marked; low = low-marked; high = high-marked },
            refl,
            refl,
          )
        ]
      ]

-- The result of a mark, given whether the entry was used.
abbrev pub mark_result : ℕ → Bool → Option ℕ
mark_result index was = if was then none else some index

-- `mark_as_used` on an index inside of the table returns; it answers the index exactly when the
-- entry was free; the entry is used afterwards, no other changes, and the indices still enclose
-- every free entry.
pub mark_as_used-IsTracked :
    (t : TrackedMapper) (index : ℕ)
    → IsTracked t
    → index < 512
    → (t' : TrackedMapper) × (mark_as_used t index
        ≡ done (mark_result index (is_used t.used index), t'))
      × IsTracked t'
      × ((i : ℕ) → is_used t'.used i ≡ (if index == i then true else is_used t.used i))
unfolding mark_as_used
mark_as_used-IsTracked t index v h = elim (Bool-cases (is_used t.used index)) [
  | inl used ↦ (
    t,
    rw (mark_as_used, le→ltb 512 index (omega arith), lt→ltb index 512 h, used),
    v,
    λ i. same i used,
  )
  | inr free ↦
      let (t', e, v', u, l) = mark_free t index v h free in
      (
        t',
        e ∙ ap (λ b. done (mark_result index b, t')) (sym free),
        v',
        λ i. ap (λ us. is_used us i) u ∙ used-set t.used index i true (in_table t index v h free),
      )
]
  where
    same :
        (i : ℕ)
        → is_used t.used index ≡ true
        → is_used t.used i ≡ (if index == i then true else is_used t.used i)
    same i e = elim (Bool-cases (index == i)) [
      | inl q ↦ rw q (subst (λ k. is_used t.used k ≡ true) ((==_iff index i).0 q) e)
      | inr q ↦ rw q
    ]
