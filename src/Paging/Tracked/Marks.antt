-- ===== src/Paging/Tracked/Marks.antt =====
-- What the two marking functions keep, and where `mark_as_unused` loses an entry.
use miniature.Base.{
  ℕ, ◌+◌, ◌%◌, ◌^◌, ◌≤◌, ◌<◌, ◌≡◌, ◌∙◌, ◌⊎◌, inl, inr, Bool, true, false, Bool-cases, List, none,
  length, length-set, get_or-set_self, set, ltb, ltb→lt, ltb→le, lt→ltb, le→ltb, ◌==◌,
  if◌then◌else◌, done, arith,
}
use miniature.Paging.Tracked.{
  TrackedMapper, is_used, mark_as_unused, required_pte_size, find_free_space_and_mark,
}
use miniature.Paging.Tracked.Entries.{IsTracked, used-set}

free_after :
    (used : List Bool) (index i : ℕ)
    → index < length used
    → is_used (set used index false) i ≡ false
    → (index ≡ i) ⊎ (is_used used i ≡ false)
free_after used index i h e = ground (arith, used-set used index i false h)

-- `mark_as_unused` frees the entry and no other, and keeps the indices right, unless the entry lies
-- below the first index and above the last one.
pub mark_as_unused-IsTracked :
    (t : TrackedMapper) (index : ℕ)
    → IsTracked t
    → index < 512
    → (t.first_available_index ≤ index) ⊎ (index ≤ t.last_available_index)
    → (t' : TrackedMapper) × (mark_as_unused t index ≡ done t')
      × IsTracked t'
      × ((i : ℕ) → is_used t'.used i ≡ (if index == i then false else is_used t.used i))
unfolding mark_as_unused
mark_as_unused-IsTracked t index v h side =
    let bound = lt→ltb index 512 h in
    let not_above = le→ltb 512 index (omega arith) in
    let used = set t.used index false in
    let here : index < length t.used = omega (arith, v.size) in
    let size : length used ≡ 512 = length-set t.used index false ∙ v.size in
    let flags : (i : ℕ) → is_used used i ≡ (if index == i then false else is_used t.used i) =
      λ i. used-set t.used index i false here in
    elim (Bool-cases (ltb index t.first_available_index)) [
      | inl below ↦ (
        record t { used = used; first_available_index = index },
        rw (mark_as_unused, not_above, bound, below),
        record {
          size = size;
          low = λ i e. low i (ltb→lt _ _ below) e;
          high = λ i e. high i (ltb→lt _ _ below) e;
        },
        flags,
      )
      | inr not_below ↦ elim (Bool-cases (ltb t.last_available_index index)) [
        | inl above ↦ (
          record t { used = used; last_available_index = index },
          rw (mark_as_unused, not_above, bound, not_below, above),
          record {
            size = size;
            low = λ i e. low₂ i (ltb→le _ _ not_below) e;
            high = λ i e. high₂ i (ltb→lt _ _ above) e;
          },
          flags,
        )
        | inr inner ↦ (
          record t { used = used },
          rw (mark_as_unused, not_above, bound, not_below, inner),
          record {
            size = size;
            low = λ i e. low₂ i (ltb→le _ _ not_below) e;
            high = λ i e. high₃ i (ltb→le _ _ inner) e;
          },
          flags,
        )
      ]
    ]
  where
    after :
        (i : ℕ)
        → is_used (set t.used index false) i ≡ false
        → (index ≡ i) ⊎ ((t.first_available_index ≤ i) × (i ≤ t.last_available_index))
    after i e = elim (free_after t.used index i (omega (arith, v.size)) e) [
      | inl q ↦ inl q
      | inr q ↦ inr (v.low i q, v.high i q)
    ]

    low :
        (i : ℕ)
        → index < t.first_available_index
        → is_used (set t.used index false) i ≡ false
        → index ≤ i
    low i b e = omega (arith, after i e)

    high :
        (i : ℕ)
        → index < t.first_available_index
        → is_used (set t.used index false) i ≡ false
        → i ≤ t.last_available_index
    high i b e = omega (arith, after i e)

    low₂ :
        (i : ℕ)
        → t.first_available_index ≤ index
        → is_used (set t.used index false) i ≡ false
        → t.first_available_index ≤ i
    low₂ i b e = omega (arith, after i e)

    high₂ :
        (i : ℕ)
        → t.last_available_index < index
        → is_used (set t.used index false) i ≡ false
        → i ≤ index
    high₂ i b e = omega (arith, after i e)

    high₃ :
        (i : ℕ)
        → index ≤ t.last_available_index
        → is_used (set t.used index false) i ≡ false
        → i ≤ t.last_available_index
    high₃ i b e = omega (arith, after i e)

-- In a full table whose indices have passed each other, a freed entry between them is lost: the
-- last index stays below it, so that a search for one entry finds nothing although it is free.
pub mark_as_unused-lost :
    (t : TrackedMapper) (index size : ℕ) (reverse : Bool)
    → length t.used ≡ 512
    → t.last_available_index < index
    → index < t.first_available_index
    → index < 512
    → required_pte_size t.level size ≡ done 1
    → (t' : TrackedMapper) × (mark_as_unused t index ≡ done t')
      × (is_used t'.used index ≡ false)
      × (find_free_space_and_mark t' size reverse ≡ done (none, t'))
unfolding mark_as_unused find_free_space_and_mark
mark_as_unused-lost t index size reverse full last first inside one = (
  record t { used = set t.used index false; first_available_index = index },
  rw (
    mark_as_unused,
    le→ltb 512 index (omega arith),
    lt→ltb index 512 inside,
    lt→ltb index t.first_available_index first,
  ),
  get_or-set_self t.used index false true (omega arith),
  rw (
    find_free_space_and_mark,
    one,
    lt→ltb (t.last_available_index % 2 ^ 16 + 1) (index % 2 ^ 16 + 1 % 2 ^ 16) (omega arith),
  ),
)
