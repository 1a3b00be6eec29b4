-- ===== src/Paging/Tracked.antt =====
-- bootloader-efi/src/mem/tracked_mapper.rs: which entries of a page table are in use. The table that
-- is wrapped does not take part.
pub mod Entries
pub mod Marks
pub mod Search
pub mod Range
mod Examples
use miniature.Base.{
  ℕ, zero, suc, ◌+◌, ◌-◌, ◌*◌, ◌/◌, ◌%◌, ◌^◌, Bool, true, false, not, ◌&&◌, ◌||◌, List, [], ◌∷◌,
  Option, none, some, length, get_or, set, replicate, ltb, leb, ◌==◌, if◌then◌else◌, Outcome, done,
  panic, ◌>>=◌, ◌>>◌, assert, or_panic, add64,
}

abbrev pub pte_count_per_pt : ℕ
pte_count_per_pt = 512

pub data PageTableLevel : Type 0 where
  one two three four : PageTableLevel

pub record TrackedMapper : Type 0 where
  pub level : PageTableLevel
  pub used : List Bool
  pub first_available_index : ℕ
  pub last_available_index : ℕ

unfoldable pub new : PageTableLevel → TrackedMapper
new level = record {
  level = level;
  used = replicate pte_count_per_pt false;
  first_available_index = 0;
  last_available_index = pte_count_per_pt - 1;
}

-- `self.used[index]`, where the index is known to be in bounds.
abbrev pub is_used : List Bool → ℕ → Bool
is_used used i = get_or used i true

-- `while curr < 512 && self.used[curr] { curr += 1; }`, by the number of entries that are left.
unfoldable pub next_available : ℕ → List Bool → ℕ → ℕ
next_available zero used curr = curr
next_available (suc left) used curr =
    let rest = next_available left used (curr + 1) in
    if ltb curr 512 && is_used used curr then rest else curr

-- `while curr > 0 && self.used[curr] { curr -= 1; }`
unfoldable pub previous_available : List Bool → ℕ → ℕ
previous_available used zero = zero
previous_available used (suc curr) =
    let rest = previous_available used curr in if is_used used (suc curr) then rest else suc curr

-- An index of 512 passes the test of the source, and is out of bounds.
unfoldable pub mark_as_used : TrackedMapper → ℕ → Outcome (Option ℕ × TrackedMapper)
mark_as_used t index =
    if ltb 512 index
    then done (none, t)
    else (assert (ltb index pte_count_per_pt)
        >> (if is_used t.used index
            then done (none, t)
            else (let used = set t.used index true in
                done (
                  some index,
                  if t.first_available_index == index
                      then record t {
                        used = used;
                        first_available_index = next_available (512 - index) used index;
                      }
                      else if t.last_available_index == index
                      then record t {
                        used = used;
                        last_available_index = previous_available used index;
                      }
                      else record t { used = used },
                ))))

unfoldable pub mark_as_unused : TrackedMapper → ℕ → Outcome TrackedMapper
mark_as_unused t index =
    if ltb 512 index
    then done t
    else (assert (ltb index pte_count_per_pt)
        >> (let used = set t.used index false in
            done (
              if ltb index t.first_available_index
              then record t { used = used; first_available_index = index }
              else if ltb t.last_available_index index
              then record t { used = used; last_available_index = index }
              else record t { used = used })))

unfoldable pub total_available_mem_size : PageTableLevel → ℕ
total_available_mem_size one = 4096
total_available_mem_size two = 4096 * pte_count_per_pt
total_available_mem_size three = 4096 * pte_count_per_pt * pte_count_per_pt
total_available_mem_size four = 4096 * pte_count_per_pt * pte_count_per_pt * pte_count_per_pt

abbrev pub required_pte_size : PageTableLevel → ℕ → Outcome ℕ
required_pte_size level size =
    let each = total_available_mem_size level in add64 size (each - 1) >>= λ sum. done (sum / each)

-- `target_pte_slice.iter().all(|state| !*state)` over `len` entries from `start` on.
pub all_free : List Bool → ℕ → ℕ → Bool
all_free used start zero = true
all_free used start (suc len) = not (is_used used start) && all_free used (start + 1) len

-- Marks `len` entries from `start` on, upwards or, if `reverse`, downwards; the results are dropped.
pub mark_range : Bool → TrackedMapper → ℕ → ℕ → Outcome TrackedMapper
mark_range reverse t start zero = done t
mark_range true t start (suc len) =
    mark_as_used t (start + len) >>= λ (_, t'). mark_range true t' start len
mark_range false t start (suc len) =
    mark_as_used t start >>= λ (_, t'). mark_range false t' (start + 1) len

-- `(required..(512 - required - 1)).contains(&curr)`; the subtraction is checked.
abbrev pub in_search_range : ℕ → ℕ → Bool
in_search_range required curr = leb required curr && ltb curr (pte_count_per_pt - required - 1)

-- The loop over the positions, on fuel: every round moves `curr` by one inside of 512 positions.
pub search_range : ℕ → Bool → ℕ → TrackedMapper → ℕ → Outcome (Option (ℕ × ℕ) × TrackedMapper)
search_range zero reverse len t curr = Outcome.spins
search_range (suc fuel) reverse len t curr =
    let start = (if reverse then curr - len else curr) in
    let onwards =
      (assert (not reverse || leb 1 curr)
        >> search_range fuel reverse len t (if reverse then curr - 1 else curr + 1)) in
    if in_search_range len curr
    then (if not (is_used t.used curr) && all_free t.used start len
        then (mark_range reverse t start len >>= λ t'. done (some (start, len), t'))
        else onwards)
    else done (none, t)

-- The counts are compared as `u16` values read as `i32`; `last + 1 < first + required` is that
-- comparison without negative numbers.
unfoldable pub find_free_space_and_mark :
    TrackedMapper → ℕ → Bool → Outcome (Option (ℕ × ℕ) × TrackedMapper)
find_free_space_and_mark t size reverse = required_pte_size t.level size >>= λ required.
    let curr_idx = (if reverse then t.last_available_index else t.first_available_index) in
    if ltb (t.last_available_index % 2 ^ 16 + 1)
      (t.first_available_index % 2 ^ 16 + required % 2 ^ 16)
    then done (none, t)
    else if required == 1
    then (mark_as_used t curr_idx >>= λ (r, t').
        done (elim r [ some pte ↦ some (pte, 1) | none ↦ none ], t'))
    else (assert (leb (required + 1) pte_count_per_pt)
        >> search_range (suc pte_count_per_pt) reverse required t curr_idx)

abbrev pub is_some : Option ℕ → Bool
is_some none = false
is_some (some v) = true

-- The loop over `n` entries from `index` on, and whether one of them was free.
unfoldable pub mark_entries : TrackedMapper → ℕ → ℕ → Bool → Outcome (Bool × TrackedMapper)
mark_entries t index zero partial_mark_success = done (partial_mark_success, t)
mark_entries t index (suc n) partial_mark_success = mark_as_used t index >>= λ (marked, t').
    mark_entries t' (index + 1) n (is_some marked || partial_mark_success)

-- The indices of an address's entry, by level, and the subtraction on addresses are the x86_64 crate's.
unfoldable pub mark_range_as_used :
    (PageTableLevel → ℕ → ℕ)
    → (ℕ → ℕ → Option ℕ)
    → TrackedMapper
    → ℕ
    → ℕ
    → Outcome (Option (ℕ × ℕ) × TrackedMapper)
mark_range_as_used pt_index virt_sub t start end = do
  last ← or_panic (virt_sub end 1)
  let first_index = pt_index t.level start
  let count = pt_index t.level last + 1 - first_index
  (partial_mark_success, t') ← mark_entries t first_index count false
  done (if partial_mark_success then some (first_index, count) else none, t')
