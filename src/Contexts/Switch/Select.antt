-- ===== src/Contexts/Switch/Select.antt =====
-- Which context the scheduler picks.
use mathlib.Core.List.{append-nil}
use miniature.Base.{
  ℕ, ◌<◌, ◌≡◌, refl, sym, ap, ◌∙◌, subst, ◌≢◌, ◌⊎◌, Bool, true, false, not, ◌&&◌, inl, inr,
  Bool-cases, [], ◌∷◌, ◌++◌, Option, none, some, All, All-append, All-append_left, All-append_right,
  ltb, ltb→lt, ltb→le, ◌==◌, arith,
}
use miniature.Contexts.Context.{
  Context, is_runnable, is_soft_blocked, unblock_no_ipi, deliverable, runnable,
}
use miniature.Contexts.Storage.{Entries, lookup}
use miniature.Contexts.Storage.Laws.{Found}
use miniature.Contexts.Switch.{
  upgrade_runnable, on_cpu, select, Selected, above, below, between, contexts_iter, chosen,
}

-- The processor may run the context: it runs nowhere, it is bound to no other processor, and it is
-- runnable, or sleeps with a signal to deliver.
pub record IsEligible (cpu_id : ℕ) (c : Context) : Type 0 where
  pub idle : c.running ≡ false
  pub here : on_cpu c.cpu_id cpu_id ≡ true
  pub awake :
      (is_runnable c.status ≡ true)
      ⊎ ((is_soft_blocked c.status ≡ true) × (deliverable c.signal ≢ 0))

-- A context that is accepted was eligible; it becomes runnable and is otherwise unchanged, and the
-- flag says whether it has a signal to deliver.
pub upgrade_runnable-some :
    (c : Context) (cpu_id : ℕ) {signal : Bool} {c' : Context}
    → upgrade_runnable c cpu_id ≡ (some signal, c')
    → IsEligible cpu_id c
      × (c' ≡ record c { status = runnable })
      × (signal ≡ not (deliverable c.signal == 0))
unfolding upgrade_runnable is_runnable is_soft_blocked unblock_no_ipi
upgrade_runnable-some c cpu_id e = ground arith

-- A context that is refused was not eligible, and is left unchanged.
pub upgrade_runnable-none :
    (c : Context) (cpu_id : ℕ) {c' : Context}
    → upgrade_runnable c cpu_id ≡ (none, c')
    → (c' ≡ c) × ¬ IsEligible cpu_id c
unfolding upgrade_runnable is_runnable is_soft_blocked unblock_no_ipi
upgrade_runnable-none c cpu_id e = ground arith

abbrev pub Refused : ℕ → ℕ × Context → Type 0
Refused cpu_id e = ¬ IsEligible cpu_id e.1

-- The first eligible entry of the list is the one that was selected.
pub record Picks (cpu_id : ℕ) (es : Entries) (sel : Selected) : Type 0 where
  pub before : Entries
  pub picked : ℕ × Context
  pub after : Entries
  pub split : es ≡ before ++ picked ∷ after
  pub refused : All (Refused cpu_id) before
  pub eligible : IsEligible cpu_id picked.1
  pub next : sel.next_ctx ≡ record picked.1 { status = runnable }
  pub signal : sel.signal ≡ not (deliverable picked.1.signal == 0)

Picks-cons :
    (cpu_id : ℕ) (e : ℕ × Context) (es : Entries) (sel : Selected)
    → Refused cpu_id e
    → Picks cpu_id es sel
    → Picks cpu_id (e ∷ es) sel
Picks-cons cpu_id e es sel r p = record {
  before = e ∷ p.before;
  picked = p.picked;
  after = p.after;
  split = ap (◌∷◌ e) p.split;
  refused = (r, p.refused);
  eligible = p.eligible;
  next = p.next;
  signal = p.signal;
}

-- What a call of `select` with `skip_idle` unset answers.
abbrev pub Chooses : ℕ → Entries → Option Selected → Type 0
Chooses cpu_id es none = All (Refused cpu_id) es
Chooses cpu_id es (some sel) = Picks cpu_id es sel

Chooses-cons :
    (cpu_id : ℕ) (e : ℕ × Context) (es : Entries) (o : Option Selected)
    → Refused cpu_id e
    → Chooses cpu_id es o
    → Chooses cpu_id (e ∷ es) o
Chooses-cons cpu_id e es none r h = (r, h)
Chooses-cons cpu_id e es (some sel) r h = Picks-cons cpu_id e es sel r h

chosen-Chooses :
    (cpu_id cid : ℕ) (c : Context) (es : Entries) (u : Option Bool × Context) (o : Option Selected)
    → upgrade_runnable c cpu_id ≡ u
    → Chooses cpu_id es o
    → Chooses cpu_id ((cid, c) ∷ es) (chosen u o)
chosen-Chooses cpu_id cid c es (none, c') o e h =
    Chooses-cons cpu_id (cid, c) es o (upgrade_runnable-none c cpu_id e).1 h
chosen-Chooses cpu_id cid c es (some signal, c') o e h =
    let (eligible, next, flag) = upgrade_runnable-some c cpu_id e in
    record {
      before = [];
      picked = (cid, c);
      after = es;
      split = refl;
      refused = tt;
      eligible = eligible;
      next = next;
      signal = flag;
    }

and_false : (b : Bool) → b && false ≡ false
and_false true = refl
and_false false = refl

-- The scheduler takes the first eligible context of the list, and none only if none is eligible;
-- the idle context is not treated otherwise than the rest.
pub select-Chooses :
    (cpu_id idle_id : ℕ) (es : Entries) → Chooses cpu_id es (select cpu_id idle_id false es)
unfolding select
select-Chooses cpu_id idle_id [] = tt
select-Chooses cpu_id idle_id ((cid, c) ∷ es) = rw (and_false (cid == idle_id)) (
    chosen-Chooses cpu_id cid c es (upgrade_runnable c cpu_id) (select cpu_id idle_id false es) refl
      (select-Chooses cpu_id idle_id es))

entry_path :
    (i j : ℕ) (d c : Context)
    → (i == j) ≡ true
    → some d ≡ some c
    → ◌≡◌ {A = ℕ × Context} (i, d) (j, c)
entry_path i j d c h e = ground arith

above_ne : (k i j : ℕ) → ltb k i ≡ false → k < j → (i == j) ≡ false
above_ne k i j h l = ground arith

below_ne : (k i j : ℕ) → ltb i k ≡ false → j < k → (i == j) ≡ false
below_ne k i j h l = ground arith

module _ (P : ℕ × Context → Type 0) where
  All-above : (k : ℕ) (m : Entries) → All P m → All (λ e. P e × (e.0 ≢ k)) (above k m)
  unfolding above
  All-above k [] a = tt
  All-above k ((j, c) ∷ m) a = elim (Bool-cases (ltb k j)) [
    | inl e ↦ rw (above, e) ((a.0, ground arith), All-above k m a.1)
    | inr e ↦ rw (above, e) (All-above k m a.1)
  ]

  All-below : (k : ℕ) (m : Entries) → All P m → All (λ e. P e × (e.0 ≢ k)) (below k m)
  unfolding below
  All-below k [] a = tt
  All-below k ((j, c) ∷ m) a = elim (Bool-cases (ltb j k)) [
    | inl e ↦ rw (below, e) ((a.0, ground arith), All-below k m a.1)
    | inr e ↦ rw (below, e) (All-below k m a.1)
  ]

  lookup_of_above :
      (k j : ℕ) (c : Context) (m : Entries)
      → All P (above k m)
      → k < j
      → lookup j m ≡ some c
      → P (j, c)
  unfolding above lookup
  lookup_of_above k j c [] a h e = cc
  lookup_of_above k j c ((i, d) ∷ m) a h e = elim (Bool-cases (ltb k i)) [
    | inl t ↦
        let a' = rw (above, t) at a in
        elim (Bool-cases (i == j)) [
          | inl same ↦ subst P (entry_path i j d c same (rw (lookup, same) at e)) a'.0
          | inr diff ↦ lookup_of_above k j c m a'.1 h (rw (lookup, diff) at e)
        ]
    | inr t ↦ lookup_of_above k j c m (rw (above, t) at a) h (rw (lookup, above_ne k i j t h) at e)
  ]

  lookup_of_below :
      (k j : ℕ) (c : Context) (m : Entries)
      → All P (below k m)
      → j < k
      → lookup j m ≡ some c
      → P (j, c)
  unfolding below lookup
  lookup_of_below k j c [] a h e = cc
  lookup_of_below k j c ((i, d) ∷ m) a h e = elim (Bool-cases (ltb i k)) [
    | inl t ↦
        let a' = rw (below, t) at a in
        elim (Bool-cases (i == j)) [
          | inl same ↦ subst P (entry_path i j d c same (rw (lookup, same) at e)) a'.0
          | inr diff ↦ lookup_of_below k j c m a'.1 h (rw (lookup, diff) at e)
        ]
    | inr t ↦ lookup_of_below k j c m (rw (below, t) at a) h (rw (lookup, below_ne k i j t h) at e)
  ]

-- The last range of the chain, from the idle context up to itself, is empty.
between_self : (k : ℕ) (m : Entries) → between k k m ≡ []
unfolding between
between_self k [] = refl
between_self k ((j, c) ∷ m) = ground (arith, between_self k m)

contexts_iter-append :
    (m : Entries) (prev idle : ℕ) → contexts_iter m prev idle ≡ above prev m ++ below prev m
unfolding contexts_iter
contexts_iter-append m prev idle =
    ap (λ l. above prev m ++ l)
      (ap (λ l. below prev m ++ l) (between_self idle m) ∙ append-nil (below prev m))

-- Every context but the previous one is a candidate, and no other.
pub contexts_iter-Found :
    (m : Entries) (prev idle : ℕ)
    → All (Found m) m
    → All (λ e. Found m e × (e.0 ≢ prev)) (contexts_iter m prev idle)
contexts_iter-Found m prev idle f =
    subst (All (λ e. Found m e × (e.0 ≢ prev))) (sym (contexts_iter-append m prev idle)) (
      All-append _ (above prev m) (below prev m) (All-above (Found m) prev m f)
        (All-below (Found m) prev m f))

pub contexts_iter-all :
    (P : ℕ × Context → Type 0) (m : Entries) (prev idle j : ℕ) (c : Context)
    → All P (contexts_iter m prev idle)
    → j ≢ prev
    → lookup j m ≡ some c
    → P (j, c)
contexts_iter-all P m prev idle j c a ne e =
    let a' = subst (All P) (contexts_iter-append m prev idle) a in
    elim (Bool-cases (ltb prev j)) [
      | inl up ↦
          lookup_of_above P prev j c m (All-append_left P (above prev m) (below prev m) a')
            (ltb→lt prev j up) e
      | inr down ↦
          lookup_of_below P prev j c m (All-append_right P (above prev m) (below prev m) a')
            (omega (arith, ltb→le prev j down)) e
    ]
