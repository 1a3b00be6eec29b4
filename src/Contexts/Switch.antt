-- ===== src/Contexts/Switch.antt =====
-- kernel/src/context/switch.rs: the scheduler of one processor, and the hand-over of the processor.
pub mod Select
pub mod Owners
pub mod Processors
pub mod Registers
use miniature.Base.{
  ℕ, ◌+◌, ◌*◌, ◌/◌, ◌%◌, ◌^◌, Bool, true, false, not, ◌&&◌, ◌||◌, List, [], ◌∷◌, ◌++◌, Option, none,
  some, ltb, leb, ◌==◌, if◌then◌else◌, Outcome, done, panic, ◌>>=◌, or_panic,
}
use miniature.Contexts.Context.{
  Context, is_soft_blocked, is_runnable, deliverable, unblock_no_ipi, Root, table_of, ptr_eq,
}
use miniature.Contexts.Storage.{Entries, lookup, put}

-- `PercpuBlock` of kernel/src/cpu.rs, with `CR3` and the fields of the processor control region.
pub record Cpu : Type 0 where
  pub cpu_id : ℕ
  pub pit_ticks : ℕ
  pub context_id : ℕ
  pub idle_id : ℕ
  pub switch_signal : Bool
  pub switch_result : Option (Context × Context)
  pub inside_syscall : Bool
  pub cr3 : Root
  pub tss_stack : ℕ
  pub userspace_io_allowed : Bool
  pub fsbase : ℕ
  pub kernel_gsbase : ℕ

abbrev pub on_cpu : Option ℕ → ℕ → Bool
on_cpu none cpu_id = true
on_cpu (some x) cpu_id = x == cpu_id

-- `none` is `Err(())`; the context is left as it is changed on the way.
pub upgrade_runnable : Context → ℕ → Option Bool × Context
unfolding is_soft_blocked is_runnable unblock_no_ipi
upgrade_runnable c cpu_id =
    if c.running
    then (none, c)
    else if not (on_cpu c.cpu_id cpu_id)
    then (none, c)
    else (let signal_deliverable = not (deliverable c.signal == 0) in
        let c' =
          (if is_soft_blocked c.status && signal_deliverable then (unblock_no_ipi c).1 else c) in
        if is_runnable c'.status then (some signal_deliverable, c') else (none, c'))

-- The ranges of the map: above a key, below it, and from a key up to it, both ends exclusive above.
pub above : ℕ → Entries → Entries
above k [] = []
above k ((j, c) ∷ m) = if ltb k j then (j, c) ∷ above k m else above k m

pub below : ℕ → Entries → Entries
below k [] = []
below k ((j, c) ∷ m) = if ltb j k then (j, c) ∷ below k m else below k m

pub between : ℕ → ℕ → Entries → Entries
between from to [] = []
between from to ((j, c) ∷ m) =
    if leb from j && ltb j to then (j, c) ∷ between from to m else between from to m

unfoldable pub contexts_iter : Entries → ℕ → ℕ → Entries
unfolding above below between
contexts_iter m prev idle = above prev m ++ (below prev m ++ between idle idle m)

-- What the loop over the contexts chose: the context as it was changed, and its signal flag.
pub record Selected : Type 0 where
  pub next_ctx : Context
  pub signal : Bool

abbrev pub chosen : Option Bool × Context → Option Selected → Option Selected
chosen (some signal, c) rest = some (record { next_ctx = c; signal = signal })
chosen (none, c) rest = rest

-- A context that is refused is not changed in the storage (`Select.upgrade_runnable-none`).
unfoldable pub select : ℕ → ℕ → Bool → Entries → Option Selected
unfolding upgrade_runnable
select cpu_id idle_id skip_idle [] = none
select cpu_id idle_id skip_idle ((cid, ctx) ∷ rest) =
    let skips = cid == idle_id && skip_idle in
    let after = select cpu_id idle_id (if skips then false else skip_idle) rest in
    if skips then after else chosen (upgrade_runnable ctx cpu_id) after

-- `rdmsr` leaves the register in `edx:eax`, and only `eax` is stored.
abbrev pub save_base : ℕ → ℕ → ℕ
save_base old msr = old / 2 ^ 32 * 2 ^ 32 + msr % 2 ^ 32

pub data SwitchResult : Type 0 where
  switched : Bool → SwitchResult
  all_contexts_idle : SwitchResult

abbrev pub tss_of : Context → ℕ → ℕ
tss_of c old = elim c.kstack [ some stack ↦ stack.base + stack.len | none ↦ old ]

-- The two contexts and the processor when one takes over from the other, before the registers are
-- exchanged: `rest` is the code from the selection to `switch_context_inner`.
pub hand_over : Cpu → Context → Selected → Context × Context × Cpu
hand_over cpu prev sel =
    let prev' : Context = record prev {
      running = false;
      inside_syscall = cpu.inside_syscall;
      ctx_regs = record prev.ctx_regs {
        fsbase = save_base prev.ctx_regs.fsbase cpu.fsbase;
        gsbase = save_base prev.ctx_regs.gsbase cpu.kernel_gsbase;
      };
    } in
    let next' : Context = record sel.next_ctx { running = true; cpu_id = some cpu.cpu_id } in
    (
      prev',
      next',
      record cpu {
        pit_ticks = 0;
        context_id = next'.id;
        switch_signal = sel.signal;
        switch_result = some (prev', next');
        inside_syscall = next'.inside_syscall;
        tss_stack = tss_of next' cpu.tss_stack;
        userspace_io_allowed = next'.ctx_regs.userspace_io_allowed;
        fsbase = next'.ctx_regs.fsbase;
        kernel_gsbase = next'.ctx_regs.gsbase;
      },
    )

abbrev pub same_space : Option ℕ → Option ℕ → Bool
same_space (some p) (some n) = p == n
same_space (some p) none = false
same_space none (some n) = false
same_space none none = true

-- The switch lock is released here as well; the whole switch is one step under it.
pub post_switch_context : Cpu → Cpu
post_switch_context cpu = elim cpu.switch_result [
  | none ↦ cpu
  | some (prev, next) ↦
      let cpu' : Cpu = record cpu { switch_result = none } in
      if same_space prev.addrsp next.addrsp
      then cpu'
      else elim next.addrsp [ none ↦ cpu' | some a ↦ record cpu' { cr3 = table_of a } ]
]

unfoldable pub switch_context : Cpu → Entries → Outcome (SwitchResult × Cpu × Entries)
unfolding lookup put contexts_iter select hand_over post_switch_context
switch_context cpu m = or_panic (lookup cpu.context_id m) >>= λ prev.
    elim (select cpu.cpu_id cpu.idle_id false (contexts_iter m prev.id cpu.idle_id)) [
      | none ↦ done (all_contexts_idle, record cpu { pit_ticks = 0 }, m)
      | some sel ↦
          let (prev', next', cpu') = hand_over cpu prev sel in
          done (
            switched cpu'.switch_signal,
            post_switch_context cpu',
            put next'.id next' (put prev'.id prev' m),
          )
    ]
