-- ===== src/Contexts/Ids/Ledger.antt =====
-- Which identifiers are in use, over any history of calls by clients that give back only what they
-- hold.
use miniature.Base.{
  ℕ, ◌≤◌, ◌<◌, ◌≡◌, refl, sym, subst, ◌≢◌, true, inl, inr, Bool-cases, List, [], ◌∷◌, All,
  All-append, All-map, All-both, member, Absent, Distinct, without, Absent-of_member, Distinct-snoc,
  All-without, All-member, Distinct-without, Absent-without, done, >>=-eq-done, add64, add64-done,
  done-injective, arith,
}
use miniature.Contexts.Ids.{ContextIdAllocator, new, alloc, dealloc}

-- The allocator, with the identifiers that its clients hold.
pub record Ledger : Type 0 where
  pub allocator : ContextIdAllocator
  pub held : List ℕ

pub data Step (l : Ledger) : Ledger → Type 0 where
  takes :
      {id : ℕ} {a : ContextIdAllocator}
      → alloc l.allocator ≡ done (id, a)
      → Step l (record { allocator = a; held = id ∷ l.held })
  gives :
      (id : ℕ)
      → member l.held id ≡ true
      → Step l (record { allocator = (dealloc l.allocator id).1; held = without id l.held })

pub data Reach (l : Ledger) : Ledger → Type 0 where
  here : Reach l l
  next : {m n : Ledger} → Reach l m → Step m n → Reach l n

-- Held identifiers are above the first one, not above the head, and not waiting in the queue.
abbrev pub InUse : ℕ → ContextIdAllocator → ℕ → Type 0
InUse first a id = (first < id) × (id ≤ a.head) × Absent id a.recycled

abbrev pub Waiting : ℕ → ContextIdAllocator → ℕ → Type 0
Waiting first a id = (first < id) × (id ≤ a.head)

pub record IsValid (first : ℕ) (l : Ledger) : Type 0 where
  pub distinct : Distinct l.held
  pub queue : Distinct l.allocator.recycled
  pub in_use : All (InUse first l.allocator) l.held
  pub waiting : All (Waiting first l.allocator) l.allocator.recycled
  pub started : first ≤ l.allocator.head

-- No held identifier is the one that heads the queue.
Absent-of_held :
    (id : ℕ) (queue : List ℕ) (held : List ℕ)
    → All (λ x. Absent x (id ∷ queue)) held
    → Absent id held
Absent-of_held id queue [] h = tt
Absent-of_held id queue (x ∷ held) h = ((λ e. h.0.0 (sym e)), Absent-of_held id queue held h.1)

module _ (first : ℕ) where
  takes-IsValid :
      (l : Ledger) (queue : List ℕ) {id : ℕ} {a : ContextIdAllocator}
      → l.allocator.recycled ≡ queue
      → IsValid first l
      → alloc l.allocator ≡ done (id, a)
      → IsValid first (record { allocator = a; held = id ∷ l.held })
  unfolding alloc
  takes-IsValid l [] q v e =
      let (head, e₁, e₂) = >>=-eq-done (add64 l.allocator.head 1) _ (rw (q, alloc) at e) in
      let head_is = (add64-done l.allocator.head 1 e₁).0 in
      let a₁ : ContextIdAllocator = record { head = head; recycled = l.allocator.recycled } in
      subst
        (λ (t : ℕ × ContextIdAllocator).
          IsValid first (record { allocator = t.1; held = t.0 ∷ l.held }))
        (done-injective e₂)
        (record {
          distinct = (
            All-map (InUse first l.allocator) (λ x. x ≢ head) l.held
                (λ x h. omega (arith, head_is, h.1)) v.in_use,
            v.distinct,
          );
          queue = v.queue;
          in_use = (
            (omega (arith, head_is, v.started), omega arith, subst (Absent head) (sym q) tt),
            All-map (InUse first l.allocator) (InUse first a₁) l.held
                (λ x h. (h.0, omega (arith, head_is, h.1), h.2)) v.in_use,
          );
          waiting =
              All-map (Waiting first l.allocator) (Waiting first a₁) l.allocator.recycled
                (λ x h. (h.0, omega (arith, head_is, h.1))) v.waiting;
          started = omega (arith, head_is, v.started);
        })
  takes-IsValid l (x ∷ queue) q v e =
      let eq = done-injective (rw (q, alloc) at e) in
      let q₁ : Distinct (x ∷ queue) = subst Distinct q v.queue in
      let w₁ : All (Waiting first l.allocator) (x ∷ queue) =
        subst (All (Waiting first l.allocator)) q v.waiting in
      let apart : All (λ y. Absent y (x ∷ queue)) l.held =
        All-map (InUse first l.allocator) (λ y. Absent y (x ∷ queue)) l.held
          (λ y h. subst (Absent y) q h.2) v.in_use in
      let a₁ : ContextIdAllocator = record { head = l.allocator.head; recycled = queue } in
      subst
        (λ (t : ℕ × ContextIdAllocator).
          IsValid first (record { allocator = t.1; held = t.0 ∷ l.held }))
        eq
        (record {
          distinct = (Absent-of_held x queue l.held apart, v.distinct);
          queue = q₁.1;
          in_use = (
            (w₁.0.0, w₁.0.1, q₁.0),
            All-map (InUse first l.allocator) (InUse first a₁) l.held
                (λ y h. (h.0, h.1, (subst (Absent y) q h.2).1)) v.in_use,
          );
          waiting = w₁.1;
          started = v.started;
        })

  gives-IsValid :
      (l : Ledger) (id : ℕ)
      → IsValid first l
      → member l.held id ≡ true
      → IsValid first (record { allocator = (dealloc l.allocator id).1; held = without id l.held })
  unfolding dealloc
  gives-IsValid l id v m = elim (Bool-cases (member l.allocator.recycled id)) [
    | inl old ↦
        rw (dealloc, old)
          (record {
            distinct = Distinct-without id l.held v.distinct;
            queue = v.queue;
            in_use = All-without (InUse first l.allocator) id l.held v.in_use;
            waiting = v.waiting;
            started = v.started;
          })
    | inr new_one ↦
        rw (dealloc, new_one)
          (record {
            distinct = Distinct-without id l.held v.distinct;
            queue =
                Distinct-snoc l.allocator.recycled id v.queue
                  (Absent-of_member id l.allocator.recycled new_one);
            in_use =
                All-map (λ y. InUse first l.allocator y × (y ≢ id)) _ (without id l.held)
                  (λ y h. (
                    h.0.0,
                    h.0.1,
                    All-append (λ z. z ≢ y) l.allocator.recycled (id ∷ []) h.0.2
                        ((λ e. h.1 (sym e)), tt),
                  ))
                  (All-both (InUse first l.allocator) (λ y. y ≢ id) (without id l.held)
                    (All-without (InUse first l.allocator) id l.held v.in_use)
                    (Absent-without id l.held v.distinct));
            waiting =
                All-append (Waiting first l.allocator) l.allocator.recycled (id ∷ []) v.waiting (
                  let h = All-member (InUse first l.allocator) id l.held v.in_use m in
                  ((h.0, h.1), tt));
            started = v.started;
          })
  ]

  Step-IsValid : {l m : Ledger} → Step l m → IsValid first l → IsValid first m
  Step-IsValid {l} (takes e) v = takes-IsValid l l.allocator.recycled refl v e
  Step-IsValid {l} (gives id m) v = gives-IsValid l id v m

  Reach-IsValid : {l m : Ledger} → Reach l m → IsValid first l → IsValid first m
  Reach-IsValid here v = v
  Reach-IsValid (next r s) v = Step-IsValid s (Reach-IsValid r v)

abbrev pub start : ℕ → Ledger
start first = record { allocator = new first; held = [] }

-- After any history in which clients give back only what they hold, no two clients hold one
-- identifier, all are above the initial one, and none that is held waits to be handed out again.
pub Reach-start-IsValid : (first : ℕ) {l : Ledger} → Reach (start first) l → IsValid first l
unfolding new
Reach-start-IsValid first r =
    Reach-IsValid first r
      (record { distinct = tt; queue = tt; in_use = tt; waiting = tt; started = omega arith })
