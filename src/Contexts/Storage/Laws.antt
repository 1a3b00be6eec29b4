-- ===== src/Contexts/Storage/Laws.antt =====
-- The laws of the map, and what the operations of the storage do with it.
use miniature.Base.{
  ℕ, suc, ◌≤◌, ◌<◌, ◌≡◌, refl, ◌≢◌, inl, inr, Option-cases, [], ◌∷◌, none, some, All, ◌==◌,
  if◌then◌else◌, ◌↔◌, arith,
}
use miniature.Contexts.Context
use miniature.Contexts.Context.{Context}
use miniature.Contexts.Storage.{
  Entries, lookup, put, take_out, ContextStorage, ok, err, eagain, insert_context,
}

-- The keys rise from `lo` on, and each context stands under its own identifier.
abbrev pub Ordered : ℕ → Entries → Type 0
Ordered lo [] = Unit
Ordered lo ((k, c) ∷ m) = (lo ≤ k) × (c.id ≡ k) × Ordered (suc k) m

abbrev pub IsOrdered : Entries → Type 0
IsOrdered = Ordered 0

pub lookup-put :
    (k j : ℕ) (v : Context) (m : Entries)
    → lookup j (put k v m) ≡ (if k == j then some v else lookup j m)
unfolding lookup put
lookup-put k j v [] = refl
lookup-put k j v ((i, c) ∷ m) = ground (arith, lookup-put k j v m)

pub lookup-above : (lo j : ℕ) (m : Entries) → Ordered lo m → j < lo → lookup j m ≡ none
unfolding lookup
lookup-above lo j [] o h = refl
lookup-above lo j ((k, c) ∷ m) o h = ground (arith, lookup-above (suc k) j m o.2)

pub lookup-take_out :
    (k j lo : ℕ) (m : Entries)
    → Ordered lo m
    → lookup j (take_out k m) ≡ (if k == j then none else lookup j m)
unfolding lookup take_out
lookup-take_out k j lo [] o = ground arith
lookup-take_out k j lo ((i, c) ∷ m) o =
    ground (arith, lookup-take_out k j (suc i) m o.2, lookup-above (suc i) j m o.2)

pub Ordered-put :
    (k lo : ℕ) (v : Context) (m : Entries)
    → Ordered lo m
    → lo ≤ k
    → v.id ≡ k
    → Ordered lo (put k v m)
unfolding put
Ordered-put k lo v [] o h e = (h, e, tt)
Ordered-put k lo v ((i, c) ∷ m) o h e = ground (arith, Ordered-put k (suc i) v m o.2)

Ordered-mono : (lo hi : ℕ) (m : Entries) → lo ≤ hi → Ordered hi m → Ordered lo m
Ordered-mono lo hi [] h o = tt
Ordered-mono lo hi ((k, c) ∷ m) h o = (omega arith, o.1, o.2)

pub Ordered-take_out : (k lo : ℕ) (m : Entries) → Ordered lo m → Ordered lo (take_out k m)
unfolding take_out
Ordered-take_out k lo [] o = tt
Ordered-take_out k lo ((i, c) ∷ m) o =
    ground (arith, Ordered-take_out k (suc i) m o.2, Ordered-mono lo (suc i) m)

pub lookup-id :
    (lo k : ℕ) (m : Entries) (c : Context) → Ordered lo m → lookup k m ≡ some c → c.id ≡ k
unfolding lookup
lookup-id lo k [] c o e = cc
lookup-id lo k ((i, d) ∷ m) c o e = ground (arith, lookup-id (suc i) k m c o.2)

-- Every entry is found under its key, and its context knows the key.
abbrev pub Found : Entries → ℕ × Context → Type 0
Found m e = (lookup e.0 m ≡ some e.1) × (e.1.id ≡ e.0)

Found-later :
    (k : ℕ) (c : Context) (m rest : Entries)
    → All (Found m) rest
    → Ordered (suc k) rest
    → All (Found ((k, c) ∷ m)) rest
unfolding lookup
Found-later k c m [] a o = tt
Found-later k c m ((j, d) ∷ rest) a o = (
  (ground arith, a.0.1),
  Found-later k c m rest a.1 (Ordered-mono (suc k) (suc j) rest (omega arith) o.2),
)

pub Ordered-Found : (lo : ℕ) (m : Entries) → Ordered lo m → All (Found m) m
unfolding lookup
Ordered-Found lo [] o = tt
Ordered-Found lo ((k, c) ∷ m) o =
    ((ground arith, o.1), Found-later k c m m (Ordered-Found (suc k) m o.2) o.2)

-- `insert_context` answers `EAGAIN` for an identifier in use and `Ok` for a new one, and in both
-- cases it leaves a fresh context under the identifier, and the other entries as they were.
pub insert_context-lookup :
    (s : ContextStorage) (id j : ℕ)
    → let (reply, s') = insert_context s id in
      (lookup j s'.map ≡ (if id == j then some (Context.new id) else lookup j s.map))
      × ((reply ≡ ok id) ↔ (lookup id s.map ≡ none))
      × ((reply ≡ err eagain) ↔ (lookup id s.map ≢ none))
unfolding insert_context
insert_context-lookup s id j = elim (Option-cases (lookup id s.map)) [
  | inl e ↦
      rw (insert_context, e)
        (
          lookup-put id j (Context.new id) s.map,
          ((λ _. refl), (λ _. refl)),
          ((λ q. cc), (λ q. absurd (q refl))),
        )
  | inr (old, e) ↦
      rw (insert_context, e)
        (lookup-put id j (Context.new id) s.map, ((λ q. cc), (λ q. cc)), ((λ _ q. cc), (λ _. refl)))
]
