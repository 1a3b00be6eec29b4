-- ===== src/Paging/Tracked/Search.antt =====
-- What `find_free_space_and_mark` finds.
use miniature.Base.{
  ℕ, suc, ◌+◌, ◌%◌, ◌^◌, ◌≤◌, ◌<◌, ◌≡◌, ◌⊎◌, inl, inr, Bool, true, false, Bool-cases, none, some,
  panic, refl, ◌>>◌, assert, Option, sym, ◌∙◌, ltb→lt, ==_iff, ap, ltb, leb, le→ltb, ◌==◌,
  if◌then◌else◌, done, arith,
}
use miniature.Paging.Tracked.{
  PageTableLevel, new, TrackedMapper, is_used, find_free_space_and_mark, search_range,
  required_pte_size, in_search_range, pte_count_per_pt,
}
use miniature.Paging.Tracked.Entries.{IsTracked, mark_result, mark_as_used-IsTracked}

-- The entry that a search for one entry looks at.
abbrev pub looked_at : TrackedMapper → Bool → ℕ
looked_at t reverse = if reverse then t.last_available_index else t.first_available_index

-- One entry, if it is not in use.
abbrev pub one_entry : ℕ → Bool → Option (ℕ × ℕ)
one_entry at true = none
one_entry at false = some (at, 1)

-- A search for one entry, in a table whose first index is at most the last: if the entry at the
-- end that is searched from is free, it is answered, and used afterwards; if it is used, nothing is
-- found, whatever else is free. No other entry changes, and the indices still enclose every free
-- entry.
pub find_one :
    (t : TrackedMapper) (size : ℕ) (reverse : Bool)
    → IsTracked t
    → required_pte_size t.level size ≡ done 1
    → t.first_available_index ≤ t.last_available_index
    → t.last_available_index < 512
    → (t' : TrackedMapper) × (find_free_space_and_mark t size reverse
        ≡ done (one_entry (looked_at t reverse) (is_used t.used (looked_at t reverse)), t'))
      × IsTracked t'
      × ((i : ℕ)
          → is_used t'.used i ≡ (if looked_at t reverse == i then true else is_used t.used i))
unfolding find_free_space_and_mark
find_one t size reverse v one order inside =
    let at = looked_at t reverse in
    let (t', e, v', u) = mark_as_used-IsTracked t at v (at_lt t reverse order inside) in
    (
      t',
      rw
          (
            find_free_space_and_mark,
            one,
            room t.first_available_index t.last_available_index order inside,
            e,
          )
          (ap (λ r. done (r, t')) (answer at (is_used t.used at))),
      v',
      u,
    )
  where
    at_lt :
        (t : TrackedMapper) (reverse : Bool)
        → t.first_available_index ≤ t.last_available_index
        → t.last_available_index < 512
        → looked_at t reverse < 512
    at_lt t reverse o i = ground arith

    room :
        (first last : ℕ)
        → first ≤ last
        → last < 512
        → ltb (last % 2 ^ 16 + 1) (first % 2 ^ 16 + 1 % 2 ^ 16) ≡ false
    room first last o i = le→ltb (last % 2 ^ 16 + 1) (first % 2 ^ 16 + 1 % 2 ^ 16) (omega arith)

    answer :
        (at : ℕ) (b : Bool)
        → (elim (mark_result at b) [ some pte ↦ some (pte, 1) | none ↦ none ]) ≡ one_entry at b
    answer at true = refl
    answer at false = refl

search_range-outside :
    (fuel : ℕ) (reverse : Bool) (len : ℕ) (t : TrackedMapper) (curr : ℕ)
    → in_search_range len curr ≡ false
    → search_range (suc fuel) reverse len t curr ≡ done (none, t)
unfolding search_range
search_range-outside fuel reverse len t curr h = rw (search_range, h)

outside_range :
    (required curr : ℕ)
    → required < 512
    → (curr < required) ⊎ (512 ≤ curr + required + 1)
    → in_search_range required curr ≡ false
outside_range required curr f h = ground arith

not_one : (required : ℕ) → 2 ≤ required → (required == 1) ≡ false
not_one required h = ground arith

-- The test of the counts.
abbrev has_no_room : TrackedMapper → ℕ → Bool
has_no_room t required =
    ltb (t.last_available_index % 2 ^ 16 + 1) (t.first_available_index % 2 ^ 16 + required % 2 ^ 16)

no_room :
    (t : TrackedMapper) (size required : ℕ) (reverse : Bool)
    → required_pte_size t.level size ≡ done required
    → has_no_room t required ≡ true
    → find_free_space_and_mark t size reverse ≡ done (none, t)
unfolding find_free_space_and_mark
no_room t size required reverse is full = rw (find_free_space_and_mark, is, full)

searched :
    (t : TrackedMapper) (size required : ℕ) (reverse : Bool)
    → required_pte_size t.level size ≡ done required
    → 2 ≤ required
    → has_no_room t required ≡ false
    → find_free_space_and_mark t size reverse ≡ (
        assert (leb (required + 1) pte_count_per_pt)
        >> search_range 513 reverse required t (looked_at t reverse))
unfolding find_free_space_and_mark
searched t size required reverse is two room =
    rw (find_free_space_and_mark, is, room, not_one required two) refl

outside :
    (t : TrackedMapper) (required : ℕ) (reverse : Bool)
    → required < 512
    → (looked_at t reverse < required) ⊎ (512 ≤ looked_at t reverse + required + 1)
    → (assert (leb (required + 1) pte_count_per_pt)
        >> search_range 513 reverse required t (looked_at t reverse))
      ≡ done (none, t)
outside t required reverse few at = rw (fits required few) (
    search_range-outside 512 reverse required t (looked_at t reverse)
      (outside_range required (looked_at t reverse) few at))
  where
    fits : (required : ℕ) → required < 512 → leb (required + 1) pte_count_per_pt ≡ true
    fits required h = ground arith

-- In an empty table an area that needs several entries is never placed, from either end: the search
-- answers that there is no room, and panics if all 512 entries are needed.
pub find_several-none :
    (level : PageTableLevel) (size required : ℕ) (reverse : Bool)
    → required_pte_size level size ≡ done required
    → 2 ≤ required
    → required < 2 ^ 16
    → find_free_space_and_mark (new level) size reverse
      ≡ (if required == 512 then panic else done (none, new level))
unfolding new
find_several-none level size required reverse is two few = elim (Bool-cases (ltb required 512)) [
  | inl less ↦
      let h = ltb→lt required 512 less in
      searched (new level) size required reverse is two (room required h)
      ∙ outside (new level) required reverse h (ends reverse required two)
      ∙ sym (rw (not_all required h) refl)
  | inr more ↦ elim (Bool-cases (required == 512)) [
    | inl all ↦
        let h = (==_iff required 512).0 all in
        searched (new level) size required reverse is two (rw h refl) ∙ rw all (rw h refl)
    | inr other ↦
        no_room (new level) size required reverse is (full required few more other)
        ∙ sym (rw other refl)
  ]
]
  where
    room :
        (required : ℕ)
        → required < 512
        → ltb (511 % 2 ^ 16 + 1) (0 % 2 ^ 16 + required % 2 ^ 16) ≡ false
    room required few = ground arith

    full :
        (required : ℕ)
        → required < 2 ^ 16
        → ltb required 512 ≡ false
        → (required == 512) ≡ false
        → ltb (511 % 2 ^ 16 + 1) (0 % 2 ^ 16 + required % 2 ^ 16) ≡ true
    full required few more other = ground arith

    not_all : (required : ℕ) → required < 512 → (required == 512) ≡ false
    not_all required h = ground arith

    ends :
        (reverse : Bool) (required : ℕ)
        → 2 ≤ required
        → (looked_at (new level) reverse < required)
          ⊎ (512 ≤ looked_at (new level) reverse + required + 1)
    ends true required two = inr (omega arith)
    ends false required two = inl (omega arith)
