-- ===== src/Contexts/Examples.antt =====
-- Runs of the scheduler and the storage, and their theorems at concrete contexts.
use miniature.Base.{
  ℕ, ◌≡◌, refl, sym, subst, ◌↔◌, ◌≢◌, true, false, [], ◌∷◌, none, some, done, arith, ◌<◌,
}
use miniature.Contexts.Switch.Registers.{
  GeneralReg, read_reg, read_field, word_below, Machine, switch_context_inner,
  switch_context_inner-resumes,
}
use miniature.Contexts.Context.{ContextRegisters, no_registers}
use miniature.Contexts.Ids
use miniature.Contexts.Ids.Ledger.{
  Ledger, takes, gives, Reach, here, next, start, IsValid, Reach-start-IsValid,
}
use miniature.Contexts.Context
use miniature.Contexts.Context.{
  Context, runnable, soft_blocked, is_runnable, is_soft_blocked, unblock_no_ipi, deliverable,
  kernel_table,
}
use miniature.Contexts.Storage.{Entries, ContextStorage, lookup, insert_context, eagain, ok, err}
use miniature.Contexts.Storage.Laws.{insert_context-lookup}
use miniature.Contexts.Switch.{Cpu, switch_context, SwitchResult, switched, select, contexts_iter}
use miniature.Contexts.Switch.Select.{Chooses, select-Chooses}
use miniature.Contexts.Switch.Owners.{Owns, Answers, switch_context-Answers}
use miniature.Contexts.Switch.Processors
use miniature.Contexts.Switch.Processors.{System, IsConsistent, Reach-IsConsistent, schedules}

-- The allocator of one processor: 2 and 3 are taken, and 2 is given back.
abbrev first_ledger : Ledger
first_ledger = record { allocator = record { head = 3; recycled = 2 ∷ [] }; held = 3 ∷ [] }

history : Reach (start 1) first_ledger
unfolding Ids.new Ids.alloc Ids.dealloc
history = next (next (next here (takes {id = 2} refl)) (takes {id = 3} refl)) (gives 2 refl)

Reach-start-IsValid_example : IsValid 1 first_ledger
Reach-start-IsValid_example = Reach-start-IsValid 1 history

-- The idle context of processor 0, on which it runs, and two contexts beside it.
abbrev idle_context : Context
idle_context = record {
  id = 0;
  running = true;
  cpu_id = some 0;
  inside_syscall = false;
  kstack = none;
  status = runnable;
  signal = record { pending = 0; procmask = 0 };
  ctx_regs = Context.no_registers;
  userspace = false;
  addrsp = none;
}

abbrev sleeper : Context
sleeper = record idle_context {
  id = 2;
  running = false;
  cpu_id = none;
  status = soft_blocked "io";
  addrsp = some 7;
}

abbrev worker : Context
worker = record sleeper { id = 3; status = runnable }

abbrev entries : Entries
entries = (0, idle_context) ∷ (2, sleeper) ∷ (3, worker) ∷ []

abbrev cpu : Cpu
cpu = record {
  cpu_id = 0;
  pit_ticks = 5;
  context_id = 0;
  idle_id = 0;
  switch_signal = false;
  switch_result = none;
  inside_syscall = false;
  cr3 = kernel_table;
  tss_stack = 0;
  userspace_io_allowed = false;
  fsbase = 0;
  kernel_gsbase = 0;
}

idle-Owns : Owns entries 0 0
unfolding lookup
idle-Owns = record { context = idle_context; stored = refl; running = refl; bound = refl }

-- The sleeper has no signal, so the worker is next.
select_runs :
    select 0 0 false (contexts_iter entries 0 0)
    ≡ some (record { next_ctx = worker; signal = false })
unfolding select contexts_iter deliverable
select_runs = refl

switch_context-Answers_example :
    (result : SwitchResult) × (cpu' : Cpu) × (m' : Entries) × (switch_context cpu entries
      ≡ done (result, cpu', m'))
    × Answers cpu entries result cpu' m'
switch_context-Answers_example = switch_context-Answers cpu entries (omega arith) idle-Owns

abbrev system : System
system = record { cpus = λ _. cpu; contexts = entries }

below_one : (i : ℕ) → i < 1 → i ≡ 0
below_one i h = omega arith

system-IsConsistent : IsConsistent 1 system
system-IsConsistent = record {
  ordered = omega arith;
  numbered = λ i h. omega arith;
  runs = λ i h. subst (λ n. Owns entries n 0) (sym (below_one i h)) idle-Owns;
  apart = λ i j hi hj ne. absurd (omega arith);
}

abbrev after : System
after = record {
  cpus =
      Processors.update (λ _. cpu) 0
        (record cpu { pit_ticks = 0; context_id = 3; cr3 = Context.table_of 7 });
  contexts =
      (0, record idle_context { running = false })
      ∷ (2, sleeper)
      ∷ (3, record worker { running = true; cpu_id = some 0 })
      ∷ [];
}

Reach-after : Processors.Reach 1 system after
unfolding switch_context deliverable
Reach-after =
    Processors.next Processors.here (schedules {result = switched false} 0 (omega arith) refl)

Reach-IsConsistent_example : IsConsistent 1 after
Reach-IsConsistent_example = Reach-IsConsistent 1 Reach-after system-IsConsistent

abbrev storage : ContextStorage
storage = record { map = entries; id_allocator = record { head = 3; recycled = [] } }

-- Identifier 2 is in use.
insert_context-lookup_example :
    let (reply, s') = insert_context storage 2 in
    (lookup 2 s'.map ≡ some (Context.new 2))
    × ((reply ≡ ok 2) ↔ (lookup 2 entries ≡ none))
    × ((reply ≡ err eagain) ↔ (lookup 2 entries ≢ none))
insert_context-lookup_example = insert_context-lookup storage 2 2

select-Chooses_example : Chooses 0 entries (select 0 0 false entries)
select-Chooses_example = select-Chooses 0 0 entries

abbrev some_machine : Machine
some_machine = record {
  rflags = 2;
  rbx = 11;
  r12 = 12;
  r13 = 13;
  r14 = 14;
  r15 = 15;
  rbp = 16;
  rsp = 0x8010;
  memory = λ a. a;
}

abbrev other_registers : ContextRegisters
other_registers = record no_registers { rsp = 0x9000 }

switch_context_inner-resumes_example :
    let away = switch_context_inner some_machine no_registers other_registers in
    let back = switch_context_inner (record some_machine { rsp = 99 }) no_registers away.prev in
    ((r : GeneralReg) → read_reg back.machine r ≡ read_reg some_machine r)
    × (back.machine.rflags ≡ 2)
    × ((r : GeneralReg) → read_reg away.machine r ≡ read_field other_registers r)
    × ((a : ℕ) → a ≢ word_below 0x9000 → away.machine.memory a ≡ a)
    × ((a : ℕ) → a ≢ word_below 0x8010 → back.machine.memory a ≡ a)
    × (away.prev.fsbase ≡ 0)
    × (away.prev.gsbase ≡ 0)
    × (away.prev.userspace_io_allowed ≡ false)
switch_context_inner-resumes_example =
    switch_context_inner-resumes some_machine (record some_machine { rsp = 99 }) no_registers
      other_registers no_registers (omega arith) (omega arith)
