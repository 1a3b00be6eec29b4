-- ===== src/Paging/Tracked/Range.antt =====
-- What `mark_range_as_used` marks.
use miniature.Base.{
  ℕ, zero, suc, ◌+◌, ◌-◌, ◌≤◌, ◌<◌, ◌≡◌, refl, ap, ◌∙◌, Bool, true, false, not, ◌&&◌, ◌||◌, List,
  Option, none, some, ◌==◌, ltb, leb, if◌then◌else◌, Outcome, done, arith,
}
use miniature.Paging.Tracked.{
  PageTableLevel, TrackedMapper, is_used, is_some, mark_entries, mark_range_as_used,
}
use miniature.Paging.Tracked.Entries.{IsTracked, mark_result, mark_as_used-IsTracked}

-- One of `n` entries from `index` on is free.
abbrev pub any_free : List Bool → ℕ → ℕ → Bool
any_free used index zero = false
any_free used index (suc n) = not (is_used used index) || any_free used (index + 1) n

-- The index is one of `n` from `first` on.
abbrev pub in_range : ℕ → ℕ → ℕ → Bool
in_range first n i = leb first i && ltb i (first + n)

any_free-same :
    (used used' : List Bool) (index n : ℕ)
    → ((i : ℕ) → index ≤ i → is_used used i ≡ is_used used' i)
    → any_free used index n ≡ any_free used' index n
any_free-same used used' index zero h = refl
any_free-same used used' index (suc n) h =
    rw (h index (omega arith), any_free-same used used' (index + 1) n (λ i le. h i (omega arith)))
      refl

counted :
    (index : ℕ) (was any b : Bool)
    → any || (is_some (mark_result index was) || b) ≡ (not was || any) || b
counted index true any b = refl
counted index false true b = refl
counted index false false b = refl

joined :
    (index n i : ℕ) (b : Bool)
    → (in_range (index + 1) n i || (if index == i then true else b))
      ≡ (in_range index (suc n) i || b)
joined index n i b = ground arith

mark_entries-marks :
    (t : TrackedMapper) (index n : ℕ) (b : Bool)
    → IsTracked t
    → index + n ≤ 512
    → (t' : TrackedMapper) × (mark_entries t index n b ≡ done (any_free t.used index n || b, t'))
      × IsTracked t'
      × ((i : ℕ) → is_used t'.used i ≡ (in_range index n i || is_used t.used i))
unfolding mark_entries
mark_entries-marks t index zero b v le = (t, refl, v, λ i. no_more index i (is_used t.used i))
  where
    no_more : (index i : ℕ) (b : Bool) → b ≡ (in_range index 0 i || b)
    no_more index i b = ground arith
mark_entries-marks t index (suc n) b v le =
    let (t₁, e₁, v₁, used₁) = mark_as_used-IsTracked t index v (omega arith) in
    let (t', e', v', used') =
      mark_entries-marks t₁ (index + 1) n (is_some (mark_result index (is_used t.used index)) || b)
        v₁ (omega arith) in
    let same : any_free t₁.used (index + 1) n ≡ any_free t.used (index + 1) n =
      any_free-same t₁.used t.used (index + 1) n (λ i le. used₁ i ∙ rw (apart index i le) refl) in
    (
      t',
      rw (mark_entries, e₁)
          (e'
            ∙ ap (λ any. done (any, t'))
                (ap (λ any. any || (is_some (mark_result index (is_used t.used index)) || b)) same
                  ∙ counted index (is_used t.used index) (any_free t.used (index + 1) n) b)),
      v',
      λ i.
          used' i
          ∙ ap (λ u. in_range (index + 1) n i || u) (used₁ i)
          ∙ joined index n i (is_used t.used i),
    )
  where
    apart : (index i : ℕ) → index + 1 ≤ i → (index == i) ≡ false
    apart index i le = ground arith

-- On a table of 512 entries whose indices enclose the free ones, for a range whose last address can be
-- computed and whose entries have indices below 512: the call returns; the entries from that of the
-- start to that of the last address are used afterwards, no other changes, the indices still enclose
-- every free entry; it answers the first entry and their number exactly when one of them was free.
pub mark_range_as_used-marks :
    (pt_index : PageTableLevel → ℕ → ℕ) (virt_sub : ℕ → ℕ → Option ℕ) (t : TrackedMapper)
    (start end last : ℕ)
    → ((level : PageTableLevel) (addr : ℕ) → pt_index level addr < 512)
    → IsTracked t
    → virt_sub end 1 ≡ some last
    → (t' : TrackedMapper) × (mark_range_as_used pt_index virt_sub t start end
        ≡ done (
          if any_free t.used
                (pt_index t.level start)
                (pt_index t.level last + 1 - pt_index t.level start)
              then some (pt_index t.level start, pt_index t.level last + 1 - pt_index t.level start)
              else none,
          t',
        ))
      × IsTracked t'
      × ((i : ℕ)
          → is_used t'.used i ≡ (
              (leb (pt_index t.level start) i && leb i (pt_index t.level last))
              || is_used t.used i))
unfolding mark_range_as_used
mark_range_as_used-marks pt_index virt_sub t start end last small v e =
    let first = pt_index t.level start in
    let final = pt_index t.level last in
    let (t', e', v', used') =
      mark_entries-marks t first (final + 1 - first) false v
        (within first final (small t.level start) (small t.level last)) in
    (
      t',
      rw (mark_range_as_used, e, e') (answered (any_free t.used first (final + 1 - first)) _ t'),
      v',
      λ i. used' i ∙ closed first final i (is_used t.used i),
    )
  where
    within : (first final : ℕ) → first < 512 → final < 512 → first + (final + 1 - first) ≤ 512
    within first final a b = omega arith

    closed :
        (first final i : ℕ) (b : Bool)
        → (in_range first (final + 1 - first) i || b) ≡ ((leb first i && leb i final) || b)
    closed first final i b = ground arith

    answered :
        (any : Bool) (r : ℕ × ℕ) (t' : TrackedMapper)
        → ◌≡◌ {A = Outcome (Option (ℕ × ℕ) × TrackedMapper)}
            (done (if any || false then some r else none, t'))
            (done (if any then some r else none, t'))
    answered true r t' = refl
    answered false r t' = refl
