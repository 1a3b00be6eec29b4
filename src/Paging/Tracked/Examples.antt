-- ===== src/Paging/Tracked/Examples.antt =====
-- Tables of one level that the bookkeeping of tracked_mapper.rs is run on.
use mathlib.Core.Bool.{false≢true}
use miniature.Base.{
  zero, suc, ◌^◌, ◌-◌, ◌/◌, ◌%◌, ◌&&◌, ◌||◌, leb, sym, ℕ, ◌<◌, ◌≡◌, refl, inl, true, false, none,
  some, length-replicate, get_or, replicate, if◌then◌else◌, ◌==◌, done, arith,
}
use miniature.Paging.Tracked.{
  TrackedMapper, new, four, is_used, mark_as_unused, find_free_space_and_mark, mark_range_as_used,
  total_available_mem_size,
}
use miniature.Paging.Tracked.Entries.{IsTracked}
use miniature.Paging.Tracked.Marks.{mark_as_unused-IsTracked, mark_as_unused-lost}
use miniature.Paging.Tracked.Range.{mark_range_as_used-marks}
use miniature.Paging.Tracked.Search.{find_one, find_several-none}

abbrev empty_table : TrackedMapper
empty_table = record {
  level = four;
  used = replicate 512 false;
  first_available_index = 0;
  last_available_index = 511;
}

-- Every entry was taken from the top down.
abbrev full_table : TrackedMapper
full_table = record {
  level = four;
  used = replicate 512 true;
  first_available_index = 512;
  last_available_index = 0;
}

at_replicate : (n i : ℕ) → get_or (replicate n false) i true ≡ false → i < n
at_replicate zero i e = absurd (false≢true (sym e))
at_replicate (suc n) zero e = omega arith
at_replicate (suc n) (suc i) e = let h = at_replicate n i e in omega arith

empty_table-IsTracked : IsTracked empty_table
empty_table-IsTracked = record {
  size = length-replicate 512 false;
  low = λ i e. omega arith;
  high = λ i e. let h = at_replicate 512 i e in omega arith;
}

mark_as_unused-IsTracked_example :
    (t' : TrackedMapper) × (mark_as_unused empty_table 7 ≡ done t')
    × IsTracked t'
    × ((i : ℕ) → is_used t'.used i ≡ (if 7 == i then false else is_used empty_table.used i))
mark_as_unused-IsTracked_example =
    mark_as_unused-IsTracked empty_table 7 empty_table-IsTracked (omega arith) (inl (omega arith))

mark_as_unused-lost_example :
    (t' : TrackedMapper) × (mark_as_unused full_table 5 ≡ done t')
    × (is_used t'.used 5 ≡ false)
    × (find_free_space_and_mark t' 4096 true ≡ done (none, t'))
unfolding total_available_mem_size
mark_as_unused-lost_example =
    mark_as_unused-lost full_table 5 4096 true (length-replicate 512 true) (omega arith)
      (omega arith) (omega arith) refl

find_one_example :
    (t' : TrackedMapper) × (find_free_space_and_mark empty_table 4096 true
      ≡ done (some (511, 1), t'))
    × IsTracked t'
    × ((i : ℕ) → is_used t'.used i ≡ (if 511 == i then true else is_used empty_table.used i))
unfolding total_available_mem_size
find_one_example =
    find_one empty_table 4096 true empty_table-IsTracked refl (omega arith) (omega arith)

-- An area of one tebibyte needs two entries of the highest level.
find_several-none_example :
    find_free_space_and_mark (new four) (2 ^ 40) false ≡ done (none, new four)
unfolding total_available_mem_size
find_several-none_example = find_several-none four (2 ^ 40) 2 false refl (omega arith) (omega arith)

mark_range_as_used-marks_example :
    (t' : TrackedMapper) × (mark_range_as_used
        (λ level a. a / 2 ^ 39 % 512)
        (λ a n. some (a - n))
        empty_table
        0
        (2 ^ 40)
      ≡ done (some (0, 2), t'))
    × IsTracked t'
    × ((i : ℕ) → is_used t'.used i ≡ ((leb 0 i && leb i 1) || is_used empty_table.used i))
mark_range_as_used-marks_example =
    mark_range_as_used-marks (λ level a. a / 2 ^ 39 % 512) (λ a n. some (a - n)) empty_table 0
      (2 ^ 40) (2 ^ 40 - 1) (λ level a. index_small a) empty_table-IsTracked refl
  where
    index_small : (a : ℕ) → a / 2 ^ 39 % 512 < 512
    index_small a = omega arith
