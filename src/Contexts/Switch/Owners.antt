-- ===== src/Contexts/Switch/Owners.antt =====
-- Who runs where: each processor runs the context that it names, and no two run the same.
use miniature.Base.{
  ℕ, ◌≡◌, refl, sym, ap, ◌∙◌, subst, ◌≢◌, true, false, inl, inr, Option-cases, ◌∷◌, ◌++◌, Option,
  none, some, All, All-append_right, ◌==◌, if◌then◌else◌, done, ◌>>=◌, or_panic, arith,
}
use miniature.Contexts.Context.{Context}
use miniature.Contexts.Storage.{Entries, lookup, put}
use miniature.Contexts.Storage.Laws.{
  IsOrdered, Ordered-Found, Ordered-put, lookup-put, lookup-id, Found,
}
use miniature.Contexts.Switch.{
  Cpu, Selected, SwitchResult, switched, all_contexts_idle, select, contexts_iter, hand_over,
  post_switch_context, switch_context,
}
use miniature.Contexts.Switch.Select.{
  IsEligible, Refused, Picks, Chooses, select-Chooses, contexts_iter-Found, contexts_iter-all,
}

-- The processor runs the context: it stands in the storage under its identifier, is marked as
-- running, and is bound to the processor.
pub record Owns (m : Entries) (cpu_id id : ℕ) : Type 0 where
  pub context : Context
  pub stored : lookup id m ≡ some context
  pub running : context.running ≡ true
  pub bound : context.cpu_id ≡ some cpu_id

post_switch_context-id : (cpu : Cpu) → (post_switch_context cpu).context_id ≡ cpu.context_id
unfolding post_switch_context
post_switch_context-id cpu = ground arith

post_switch_context-cpu_id : (cpu : Cpu) → (post_switch_context cpu).cpu_id ≡ cpu.cpu_id
unfolding post_switch_context
post_switch_context-cpu_id cpu = ground arith

module _ (cpu : Cpu) (m : Entries) (prev : Context) (e : lookup cpu.context_id m ≡ some prev) where
  abbrev choice : Option Selected
  choice = select cpu.cpu_id cpu.idle_id false (contexts_iter m prev.id cpu.idle_id)

  switch_context-none :
      choice ≡ none
      → switch_context cpu m ≡ done (all_contexts_idle, record cpu { pit_ticks = 0 }, m)
  unfolding switch_context
  switch_context-none s = rw (switch_context, e, or_panic, ◌>>=◌, s)

  switch_context-some :
      (sel : Selected)
      → choice ≡ some sel
      → let (prev', next', cpu') = hand_over cpu prev sel in
        switch_context cpu m
        ≡ done (
          switched cpu'.switch_signal,
          post_switch_context cpu',
          put next'.id next' (put prev'.id prev' m),
        )
  unfolding switch_context
  switch_context-some sel s = rw (switch_context, e, or_panic, ◌>>=◌, s)

-- What a switch did: the processor runs a context that was eligible, and the one it ran is free.
pub record Switches (cpu : Cpu) (m : Entries) (cpu' : Cpu) (m' : Entries) : Type 0 where
  pub picked : Context
  pub stored : lookup cpu'.context_id m ≡ some picked
  pub eligible : IsEligible cpu.cpu_id picked
  pub other : cpu'.context_id ≢ cpu.context_id
  pub owns : Owns m' cpu.cpu_id cpu'.context_id
  pub released : (c : Context) × (lookup cpu.context_id m' ≡ some c) × (c.running ≡ false)
  pub rest : (j : ℕ) → j ≢ cpu.context_id → j ≢ cpu'.context_id → lookup j m' ≡ lookup j m
  pub ordered : IsOrdered m'
  pub numbered : cpu'.cpu_id ≡ cpu.cpu_id

picked-Found :
    (m : Entries) (prev idle : ℕ) (before : Entries) (e : ℕ × Context) (after : Entries)
    → All (Found m) m
    → contexts_iter m prev idle ≡ before ++ e ∷ after
    → Found m e × (e.0 ≢ prev)
picked-Found m prev idle before e after f s =
    (All-append_right (λ e. Found m e × (e.0 ≢ prev)) before (e ∷ after)
      (subst (All (λ e. Found m e × (e.0 ≢ prev))) s (contexts_iter-Found m prev idle f))).0

-- Two writes to the map under different keys.
lookup-put_two :
    (a n j : ℕ) (x y : Context) (m : Entries)
    → lookup j (put n y (put a x m))
      ≡ (if n == j then some y else if a == j then some x else lookup j m)
lookup-put_two a n j x y m =
    lookup-put n j y (put a x m) ∙ ap (λ o. if n == j then some y else o) (lookup-put a j x m)

put_two_new :
    (a n j : ℕ) (x y : Context) (m : Entries) → j ≡ n → lookup j (put n y (put a x m)) ≡ some y
put_two_new a n j x y m h = ground (arith, lookup-put_two a n j x y m)

put_two_old :
    (a n j : ℕ) (x y : Context) (m : Entries)
    → j ≡ a
    → n ≢ a
    → lookup j (put n y (put a x m)) ≡ some x
put_two_old a n j x y m h k = ground (arith, lookup-put_two a n j x y m)

put_two_rest :
    (a n j : ℕ) (x y : Context) (m : Entries)
    → j ≢ a
    → j ≢ n
    → lookup j (put n y (put a x m)) ≡ lookup j m
put_two_rest a n j x y m h k = ground (arith, lookup-put_two a n j x y m)

module _ (cpu : Cpu) (m : Entries) (ordered : IsOrdered m) (prev : Context)
    (e : lookup cpu.context_id m ≡ some prev) (named : prev.id ≡ cpu.context_id) where
  picked-Switches :
      (sel : Selected)
      → Picks cpu.cpu_id (contexts_iter m prev.id cpu.idle_id) sel
      → let (prev', next', cpu') = hand_over cpu prev sel in
        Switches cpu m (post_switch_context cpu') (put next'.id next' (put prev'.id prev' m))
  unfolding hand_over
  picked-Switches sel p =
      let (prev', next', cpu') = hand_over cpu prev sel in
      let ((at, under), ne) =
        picked-Found m prev.id cpu.idle_id p.before p.picked p.after (Ordered-Found 0 m ordered)
          p.split in
      let next_id : next'.id ≡ p.picked.0 = ap (λ c. c.id) p.next ∙ under in
      let id_is : (post_switch_context cpu').context_id ≡ next'.id = post_switch_context-id cpu' in
      record {
        picked = p.picked.1;
        stored = rw (id_is, next_id) at;
        eligible = p.eligible;
        other = λ q. ne (sym next_id ∙ sym id_is ∙ q ∙ sym named);
        owns = record {
          context = next';
          stored = put_two_new prev.id next'.id _ prev' next' m id_is;
          running = refl;
          bound = refl;
        };
        released = (
          prev',
          put_two_old prev.id next'.id _ prev' next' m (sym named) (λ q. ne (sym next_id ∙ q)),
          refl,
        );
        rest = λ j a b.
            put_two_rest prev.id next'.id j prev' next' m (λ q. a (q ∙ named))
              (λ q. b (q ∙ sym id_is));
        ordered =
            Ordered-put next'.id 0 next' (put prev.id prev' m)
              (Ordered-put prev.id 0 prev' m ordered (omega arith) refl) (omega arith) refl;
        numbered = post_switch_context-cpu_id cpu';
      }

-- What a call of the scheduler answers.
abbrev pub Answers : Cpu → Entries → SwitchResult → Cpu → Entries → Type 0
Answers cpu m (switched signal) cpu' m' = Switches cpu m cpu' m'
Answers cpu m all_contexts_idle cpu' m' =
    (m' ≡ m)
    × (cpu' ≡ record cpu { pit_ticks = 0 })
    × ((j : ℕ) (c : Context) → j ≢ cpu.context_id → lookup j m ≡ some c → ¬ IsEligible cpu.cpu_id c)

abbrev Call : Type 0
Call = SwitchResult × Cpu × Entries

-- The scheduler never fails while the current context is stored. It switches to an eligible
-- context, which it marks as running here while the old one is freed and no other is touched; or no
-- other context is eligible, and it changes nothing but the tick counter.
pub switch_context-Answers :
    (cpu : Cpu) (m : Entries)
    → IsOrdered m
    → Owns m cpu.cpu_id cpu.context_id
    → (result : SwitchResult) × (cpu' : Cpu) × (m' : Entries) × (switch_context cpu m
        ≡ done (result, cpu', m'))
      × Answers cpu m result cpu' m'
switch_context-Answers cpu m o owns =
    let named : owns.context.id ≡ cpu.context_id =
      lookup-id 0 cpu.context_id m owns.context o owns.stored in
    let chooses =
      select-Chooses cpu.cpu_id cpu.idle_id (contexts_iter m owns.context.id cpu.idle_id) in
    elim (Option-cases (choice cpu m owns.context owns.stored)) [
      | inl s ↦ (
        all_contexts_idle,
        record cpu { pit_ticks = 0 },
        m,
        switch_context-none cpu m owns.context owns.stored s,
        (
          refl,
          refl,
          λ j c ne e.
              contexts_iter-all (Refused cpu.cpu_id) m owns.context.id cpu.idle_id j c
                (subst (Chooses cpu.cpu_id (contexts_iter m owns.context.id cpu.idle_id)) s chooses)
                (λ q. ne (q ∙ named)) e,
        ),
      )
      | inr (sel, s) ↦ (
        switched _,
        _,
        _,
        switch_context-some cpu m owns.context owns.stored sel s,
        picked-Switches cpu m o owns.context owns.stored named sel
            (subst (Chooses cpu.cpu_id (contexts_iter m owns.context.id cpu.idle_id)) s chooses),
      )
    ]
