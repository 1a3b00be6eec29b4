-- ===== src/Contexts/Switch/Processors.antt =====
-- All processors together: each one calls the scheduler when it likes, under the switch lock.
use Prim.Native.String.{String}
use miniature.Base.{
  ℕ, ◌<◌, ◌≡◌, refl, sym, ap, ◌∙◌, subst, ◌≢◌, false, inl, inr, Bool-cases, ◌==◌, ==_iff,
  if◌then◌else◌, done, none, some, done-injective, arith,
}
use miniature.Contexts.Context.{Context, soft_block, unblock}
use miniature.Contexts.Context
use miniature.Contexts.Storage.{Entries, lookup, put}
use miniature.Contexts.Storage.Laws.{IsOrdered, Ordered-put, lookup-put, lookup-id}
use miniature.Contexts.Switch.{Cpu, SwitchResult, switched, all_contexts_idle, switch_context}
use miniature.Contexts.Switch.Owners.{Owns, Answers, switch_context-Answers}

-- The answer of a call that is known to have returned.
Answers-of_done :
    (cpu : Cpu) (m : Entries) {result : SwitchResult} {cpu' : Cpu} {m' : Entries}
    → IsOrdered m
    → Owns m cpu.cpu_id cpu.context_id
    → switch_context cpu m ≡ done (result, cpu', m')
    → Answers cpu m result cpu' m'
Answers-of_done cpu m {result} {cpu'} {m'} o owns e =
    let (r, c, n, q, a) = switch_context-Answers cpu m o owns in
    subst (λ (t : SwitchResult × Cpu × Entries). Answers cpu m t.0 t.1 t.2)
      (done-injective (sym q ∙ e)) a

-- What a call keeps: the processor runs a context, and who ran another one still does.
pub record Keeps (cpu : Cpu) (m : Entries) (cpu' : Cpu) (m' : Entries) : Type 0 where
  pub own : Owns m' cpu.cpu_id cpu'.context_id
  pub theirs :
      (other id : ℕ)
      → Owns m other id
      → id ≢ cpu.context_id
      → Owns m' other id × (id ≢ cpu'.context_id)
  pub ordered : IsOrdered m'
  pub numbered : cpu'.cpu_id ≡ cpu.cpu_id

Answers-Keeps :
    (cpu : Cpu) (m : Entries) (result : SwitchResult) (cpu' : Cpu) (m' : Entries)
    → IsOrdered m
    → Owns m cpu.cpu_id cpu.context_id
    → Answers cpu m result cpu' m'
    → Keeps cpu m cpu' m'
Answers-Keeps cpu m (switched signal) cpu' m' o own s = record {
  own = s.owns;
  theirs = λ other id theirs ne.
      let apart : id ≢ cpu'.context_id = λ q.
        cc (s.stored, theirs.stored, ap (λ k. lookup k m) q, theirs.running, s.eligible.idle) in
      (
        record {
          context = theirs.context;
          stored = s.rest id ne apart ∙ theirs.stored;
          running = theirs.running;
          bound = theirs.bound;
        },
        apart,
      );
  ordered = s.ordered;
  numbered = s.numbered;
}
Answers-Keeps cpu m all_contexts_idle cpu' m' o own (same, cpu_is, none_eligible) = record {
  own =
      subst (λ (t : Cpu). Owns m' cpu.cpu_id t.context_id) (sym cpu_is)
        (subst (λ n. Owns n cpu.cpu_id cpu.context_id) (sym same) own);
  theirs = λ other id theirs ne. (
    subst (λ n. Owns n other id) (sym same) theirs,
    λ q. ne (q ∙ ap (λ (t : Cpu). t.context_id) cpu_is),
  );
  ordered = subst IsOrdered (sym same) o;
  numbered = ap (λ (t : Cpu). t.cpu_id) cpu_is;
}

pub record System : Type 0 where
  pub cpus : ℕ → Cpu
  pub contexts : Entries

abbrev pub update : (ℕ → Cpu) → ℕ → Cpu → ℕ → Cpu
update cpus i cpu j = if i == j then cpu else cpus j

-- A processor calls the scheduler, or some code blocks or wakes a context or creates one.
pub data Step (count : ℕ) (s : System) : System → Type 0 where
  schedules :
      {result : SwitchResult} {cpu : Cpu} {m : Entries} (i : ℕ)
      → i < count
      → switch_context (s.cpus i) s.contexts ≡ done (result, cpu, m)
      → Step count s (record { cpus = update s.cpus i cpu; contexts = m })
  blocks :
      (id : ℕ) (c : Context) (reason : String)
      → lookup id s.contexts ≡ some c
      → Step count s (record s { contexts = put id (soft_block c reason).1 s.contexts })
  wakes :
      (id : ℕ) (c : Context)
      → lookup id s.contexts ≡ some c
      → Step count s (record s { contexts = put id (unblock c).1 s.contexts })
  creates :
      (id : ℕ)
      → lookup id s.contexts ≡ none
      → Step count s (record s { contexts = put id (Context.new id) s.contexts })

pub data Reach (count : ℕ) (s : System) : System → Type 0 where
  here : Reach count s s
  next : {t u : System} → Reach count s t → Step count t u → Reach count s u

-- Each processor runs the context that it names, and no two name the same.
pub record IsConsistent (count : ℕ) (s : System) : Type 0 where
  pub ordered : IsOrdered s.contexts
  pub numbered : (i : ℕ) → i < count → (s.cpus i).cpu_id ≡ i
  pub runs : (i : ℕ) → i < count → Owns s.contexts i (s.cpus i).context_id
  pub apart :
      (i j : ℕ) → i < count → j < count → i ≢ j → (s.cpus i).context_id ≢ (s.cpus j).context_id

-- A write that leaves alone who runs the context.
Owns-put :
    (id k cpu_id : ℕ) (c : Context) (m : Entries)
    → ((old : Context)
        → lookup id m ≡ some old
        → (c.running ≡ old.running) × (c.cpu_id ≡ old.cpu_id))
    → Owns m cpu_id k
    → Owns (put id c m) cpu_id k
Owns-put id k cpu_id c m same o = elim (Bool-cases (id == k)) [
  | inl e ↦
      let q = (==_iff id k).0 e in
      let (r, b) = same o.context (ap (λ j. lookup j m) q ∙ o.stored) in
      record {
        context = c;
        stored = lookup-put id k c m ∙ rw e;
        running = r ∙ o.running;
        bound = b ∙ o.bound;
      }
  | inr e ↦ record {
    context = o.context;
    stored = lookup-put id k c m ∙ rw e o.stored;
    running = o.running;
    bound = o.bound;
  }
]

put-IsConsistent :
    (count : ℕ) (s : System) (id : ℕ) (c : Context)
    → c.id ≡ id
    → ((old : Context)
        → lookup id s.contexts ≡ some old
        → (c.running ≡ old.running) × (c.cpu_id ≡ old.cpu_id))
    → IsConsistent count s
    → IsConsistent count (record s { contexts = put id c s.contexts })
put-IsConsistent count s id c e same v = record {
  ordered = Ordered-put id 0 c s.contexts v.ordered (omega arith) e;
  numbered = v.numbered;
  runs = λ i h. Owns-put id (s.cpus i).context_id i c s.contexts same (v.runs i h);
  apart = v.apart;
}

soft_block-same :
    (c : Context) (reason : String)
    → let c' = (soft_block c reason).1 in
      (c'.running ≡ c.running) × (c'.cpu_id ≡ c.cpu_id) × (c'.id ≡ c.id)
unfolding soft_block
soft_block-same c reason = ground arith

unblock-same :
    (c : Context)
    → let c' = (unblock c).1 in (c'.running ≡ c.running) × (c'.cpu_id ≡ c.cpu_id) × (c'.id ≡ c.id)
unfolding unblock
unblock-same c = ground arith

new-id : (id : ℕ) → (Context.new id).id ≡ id
unfolding Context.new
new-id id = refl

some-injective : {a b : Context} → some a ≡ some b → a ≡ b
some-injective e = cc

scheduled-IsConsistent :
    (count : ℕ) (s : System) (i : ℕ) (cpu : Cpu) (m : Entries)
    → i < count
    → IsConsistent count s
    → Keeps (s.cpus i) s.contexts cpu m
    → IsConsistent count (record { cpus = update s.cpus i cpu; contexts = m })
scheduled-IsConsistent count s i cpu m h v k = record {
  ordered = k.ordered;
  numbered = λ j lt. elim (Bool-cases (i == j)) [
    | inl e ↦ rw e (k.numbered ∙ v.numbered i h ∙ (==_iff i j).0 e)
    | inr e ↦ rw e (v.numbered j lt)
  ];
  runs = λ j lt. elim (Bool-cases (i == j)) [
    | inl e ↦ rw e (subst (λ n. Owns m n cpu.context_id) (v.numbered i h ∙ (==_iff i j).0 e) k.own)
    | inr e ↦ rw e (others j lt e).0
  ];
  apart = λ a b la lb ne. elim (Bool-cases (i == a)) [
    | inl ea ↦ elim (Bool-cases (i == b)) [
      | inl eb ↦ absurd (ne (sym ((==_iff i a).0 ea) ∙ (==_iff i b).0 eb))
      | inr eb ↦ rw (ea, eb) (λ q. (others b lb eb).1 (sym q))
    ]
    | inr ea ↦ elim (Bool-cases (i == b)) [
      | inl eb ↦ rw (ea, eb) (others a la ea).1
      | inr eb ↦ rw (ea, eb) (v.apart a b la lb ne)
    ]
  ];
}
  where
    others :
        (j : ℕ)
        → j < count
        → (i == j) ≡ false
        → Owns m j (s.cpus j).context_id × ((s.cpus j).context_id ≢ cpu.context_id)
    others j lt e =
        k.theirs j (s.cpus j).context_id (v.runs j lt)
          (v.apart j i lt h (λ q. cc (e, (==_iff i j).1 (sym q))))

Step-IsConsistent :
    (count : ℕ) {s t : System} → Step count s t → IsConsistent count s → IsConsistent count t
Step-IsConsistent count {s} (schedules {result} {cpu} {m} i h e) v =
    let own =
      subst (λ n. Owns s.contexts n (s.cpus i).context_id) (sym (v.numbered i h)) (v.runs i h) in
    scheduled-IsConsistent count s i cpu m h v (
      Answers-Keeps (s.cpus i) s.contexts result cpu m v.ordered own
        (Answers-of_done (s.cpus i) s.contexts v.ordered own e))
Step-IsConsistent count {s} (blocks id c reason e) v =
    let (r, b, n) = soft_block-same c reason in
    put-IsConsistent count s id (soft_block c reason).1
      (n ∙ lookup-id 0 id s.contexts c v.ordered e)
      (λ old q. (
        r ∙ ap (λ (x : Context). x.running) (some-injective (sym e ∙ q)),
        b ∙ ap (λ (x : Context). x.cpu_id) (some-injective (sym e ∙ q)),
      ))
      v
Step-IsConsistent count {s} (wakes id c e) v =
    let (r, b, n) = unblock-same c in
    put-IsConsistent count s id (unblock c).1 (n ∙ lookup-id 0 id s.contexts c v.ordered e)
      (λ old q. (
        r ∙ ap (λ (x : Context). x.running) (some-injective (sym e ∙ q)),
        b ∙ ap (λ (x : Context). x.cpu_id) (some-injective (sym e ∙ q)),
      ))
      v
Step-IsConsistent count {s} (creates id e) v =
    put-IsConsistent count s id (Context.new id) (new-id id) (λ old q. cc) v

-- From a consistent system, over any history in which the processors call the scheduler and code
-- blocks, wakes and creates contexts: each processor still runs the context that it names, marked as running and bound to it, and
-- no two processors run one context.
pub Reach-IsConsistent :
    (count : ℕ) {s t : System} → Reach count s t → IsConsistent count s → IsConsistent count t
Reach-IsConsistent count here v = v
Reach-IsConsistent count (next r step) v =
    Step-IsConsistent count step (Reach-IsConsistent count r v)
