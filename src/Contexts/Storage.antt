-- ===== src/Contexts/Storage.antt =====
-- `ContextStorage` of kernel/src/context/list.rs. `BTreeMap` is a list of entries in the order of
-- their keys.
pub mod Laws
use miniature.Base.{
  ℕ, ◌<◌, Bool, true, false, ◌&&◌, List, [], ◌∷◌, Option, none, some, ltb, ◌==◌, if◌then◌else◌,
  Outcome, done, ◌>>=◌,
}
use miniature.Contexts.Ids
use miniature.Contexts.Ids.{ContextIdAllocator}
use miniature.Contexts.Context
use miniature.Contexts.Context.{Context, runnable}

abbrev pub Entries : Type 0
Entries = List (ℕ × Context)

unfoldable pub lookup : ℕ → Entries → Option Context
lookup k [] = none
lookup k ((j, c) ∷ m) = if j == k then some c else lookup k m

-- `BTreeMap::insert`, without its result: a value that was there is replaced.
unfoldable pub put : ℕ → Context → Entries → Entries
put k v [] = (k, v) ∷ []
put k v ((j, c) ∷ m) =
    if j == k then (k, v) ∷ m else if ltb k j then (k, v) ∷ (j, c) ∷ m else (j, c) ∷ put k v m

-- `BTreeMap::remove`, without its result.
pub take_out : ℕ → Entries → Entries
take_out k [] = []
take_out k ((j, c) ∷ m) = if j == k then m else (j, c) ∷ take_out k m

pub record ContextStorage : Type 0 where
  pub map : Entries
  pub id_allocator : ContextIdAllocator

unfoldable pub new : ℕ → ContextStorage
new init_id_exclusive = record { map = []; id_allocator = Ids.new init_id_exclusive }

abbrev pub eagain : ℕ
eagain = 11

-- `Result<T, i32>` of the storage.
pub data Reply {ℓ} (A : Type ℓ) : Type ℓ where
  ok : A → Reply A
  err : ℕ → Reply A

-- The identifier stands for the reference to the context. `insert` has replaced the old one.
unfoldable pub insert_context : ContextStorage → ℕ → Reply ℕ × ContextStorage
unfolding lookup put
insert_context s id =
    let s' : ContextStorage = record s { map = put id (Context.new id) s.map } in
    elim (lookup id s.map) [ some old ↦ (err eagain, s') | none ↦ (ok id, s') ]

pub remove : ContextStorage → ℕ → Option Context × ContextStorage
unfolding lookup take_out
remove s id = (lookup id s.map, record s { map = take_out id s.map })

unfoldable pub new_context : ContextStorage → Outcome (Reply ℕ × ContextStorage)
unfolding insert_context
new_context s =
    Ids.alloc s.id_allocator >>= λ (id, a). done (insert_context (record s { id_allocator = a }) id)

-- `init_context` of context/mod.rs, up to the per-processor cells: the idle context of a processor.
pub init_context : ContextStorage → ℕ → Outcome ContextStorage
unfolding insert_context
init_context s cpu_id =
    let (reply, s') = insert_context s cpu_id in
    elim reply [
      | ok id ↦ done (record s' {
        map =
            put id
              (record (Context.new id) {
                signal = record { pending = 0; procmask = 0 };
                status = runnable;
                running = true;
                cpu_id = some cpu_id;
              })
              s'.map;
      })
      | err e ↦ Outcome.panic
    ]
