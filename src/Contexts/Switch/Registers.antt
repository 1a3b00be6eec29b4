-- ===== src/Contexts/Switch/Registers.antt =====
-- `switch_context_inner` of kernel/src/context/switch.rs, instruction by instruction: the exchange of
-- the registers that a function call preserves, and of the flags over the stack.
use miniature.Base.{
  ℕ, ◌+◌, ◌-◌, ◌%◌, ◌<◌, ◌≡◌, ◌≢◌, refl, ap, ◌∙◌, List, [], ◌∷◌, ◌==◌, if◌then◌else◌, word, arith,
}
use miniature.Loader.Remap.{==_self, ==_ne}
use miniature.Contexts.Context.{ContextRegisters}

pub data GeneralReg : Type 0 where
  rbx r12 r13 r14 r15 rbp rsp : GeneralReg

-- The registers of the processor that take part, the flags as `pushfq` shows them, and the words of
-- the memory by their addresses. Stack pointers are multiples of 8, so that words do not overlap.
pub record Machine : Type 0 where
  pub rflags : ℕ
  pub rbx : ℕ
  pub r12 : ℕ
  pub r13 : ℕ
  pub r14 : ℕ
  pub r15 : ℕ
  pub rbp : ℕ
  pub rsp : ℕ
  pub memory : ℕ → ℕ

-- `rdi` points to `prev` and `rsi` to `next`; the two structures are apart from each other and from
-- the stacks.
pub record Exchange : Type 0 where
  pub machine : Machine
  pub prev : ContextRegisters
  pub next : ContextRegisters

abbrev pub read_reg : Machine → GeneralReg → ℕ
read_reg m rbx = m.rbx
read_reg m r12 = m.r12
read_reg m r13 = m.r13
read_reg m r14 = m.r14
read_reg m r15 = m.r15
read_reg m rbp = m.rbp
read_reg m rsp = m.rsp

abbrev write_reg : Machine → GeneralReg → ℕ → Machine
write_reg m rbx v = record m { rbx = v }
write_reg m r12 v = record m { r12 = v }
write_reg m r13 v = record m { r13 = v }
write_reg m r14 v = record m { r14 = v }
write_reg m r15 v = record m { r15 = v }
write_reg m rbp v = record m { rbp = v }
write_reg m rsp v = record m { rsp = v }

-- The field at the offset of a register.
abbrev pub read_field : ContextRegisters → GeneralReg → ℕ
read_field c rbx = c.rbx
read_field c r12 = c.r12
read_field c r13 = c.r13
read_field c r14 = c.r14
read_field c r15 = c.r15
read_field c rbp = c.rbp
read_field c rsp = c.rsp

abbrev write_field : ContextRegisters → GeneralReg → ℕ → ContextRegisters
write_field c rbx v = record c { rbx = v }
write_field c r12 v = record c { r12 = v }
write_field c r13 v = record c { r13 = v }
write_field c r14 v = record c { r14 = v }
write_field c r15 v = record c { r15 = v }
write_field c rbp v = record c { rbp = v }
write_field c rsp v = record c { rsp = v }

-- The address of the word below an address, and a word written.
abbrev pub word_below : ℕ → ℕ
word_below a = (a + (word - 8)) % word

abbrev poke : (ℕ → ℕ) → ℕ → ℕ → ℕ → ℕ
poke memory at v a = if a == at then v else memory a

abbrev push_word : ℕ → Machine → Machine
push_word v m = record m { rsp = word_below m.rsp; memory = poke m.memory (word_below m.rsp) v }

abbrev pop_word : Machine → ℕ × Machine
pop_word m = (m.memory m.rsp, record m { rsp = (m.rsp + 8) % word })

-- `mov [rdi + off], r`, `mov r, [rsi + off]`, `pushfq`, `pop QWORD PTR [rdi + off_rflags]`,
-- `push QWORD PTR [rsi + off_rflags]` and `popfq`.
pub data Instr : Type 0 where
  save load : GeneralReg → Instr
  pushfq pop_prev_rflags push_next_rflags popfq : Instr

abbrev popped_prev : Exchange → ℕ × Machine → Exchange
popped_prev s (v, m) = record s { machine = m; prev = record s.prev { rflags = v } }

abbrev popped_flags : Exchange → ℕ × Machine → Exchange
popped_flags s (v, m) = record s { machine = record m { rflags = v } }

abbrev pub step_instr : Instr → Exchange → Exchange
step_instr (save r) s = record s { prev = write_field s.prev r (read_reg s.machine r) }
step_instr (load r) s = record s { machine = write_reg s.machine r (read_field s.next r) }
step_instr pushfq s = record s { machine = push_word s.machine.rflags s.machine }
step_instr pop_prev_rflags s = popped_prev s (pop_word s.machine)
step_instr push_next_rflags s = record s { machine = push_word s.next.rflags s.machine }
step_instr popfq s = popped_flags s (pop_word s.machine)

abbrev pub exec_all : List Instr → Exchange → Exchange
exec_all [] s = s
exec_all (i ∷ is) s = exec_all is (step_instr i s)

abbrev pub instructions : List Instr
instructions =
    save rbx
    ∷ load rbx
    ∷ save r12
    ∷ load r12
    ∷ save r13
    ∷ load r13
    ∷ save r14
    ∷ load r14
    ∷ save r15
    ∷ load r15
    ∷ save rbp
    ∷ load rbp
    ∷ save rsp
    ∷ load rsp
    ∷ pushfq
    ∷ pop_prev_rflags
    ∷ push_next_rflags
    ∷ popfq
    ∷ []

-- Up to the jump to `post_switch_context`.
pub switch_context_inner : Machine → ContextRegisters → ContextRegisters → Exchange
switch_context_inner m prev next =
    exec_all instructions (record { machine = m; prev = prev; next = next })

push_pop :
    (v : ℕ) (m : Machine)
    → m.rsp < word
    → pop_word (push_word v m) ≡ (v, record m { memory = poke m.memory (word_below m.rsp) v })
push_pop v m h =
    let memory = poke m.memory (word_below m.rsp) v in
    let value : memory (word_below m.rsp) ≡ v = rw (==_self (word_below m.rsp)) refl in
    ap (λ (x : ℕ). (x, record m { memory = memory; rsp = (word_below m.rsp + 8) % word })) value
    ∙ ap (λ (top : ℕ). (v, record m { memory = memory; rsp = top })) (above m.rsp h)
  where
    above : (a : ℕ) → a < word → (word_below a + 8) % word ≡ a
    above a h = ground arith

-- The saved registers, and the machine afterwards.
abbrev saved : Machine → ContextRegisters → ContextRegisters
saved m prev = record prev {
  rbx = m.rbx;
  r12 = m.r12;
  r13 = m.r13;
  r14 = m.r14;
  r15 = m.r15;
  rbp = m.rbp;
  rsp = m.rsp;
  rflags = m.rflags;
}

abbrev loaded : Machine → ContextRegisters → Machine
loaded m next = record {
  rflags = m.rflags;
  rbx = next.rbx;
  r12 = next.r12;
  r13 = next.r13;
  r14 = next.r14;
  r15 = next.r15;
  rbp = next.rbp;
  rsp = next.rsp;
  memory = m.memory;
}

abbrev switched_to : Machine → ContextRegisters → Machine
switched_to m next = record (loaded m next) {
  rflags = next.rflags;
  memory = poke (poke m.memory (word_below next.rsp) m.rflags) (word_below next.rsp) next.rflags;
}

switch_context_inner-is :
    (m : Machine) (prev next : ContextRegisters)
    → next.rsp < word
    → switch_context_inner m prev next
      ≡ record { machine = switched_to m next; prev = saved m prev; next = next }
unfolding switch_context_inner
switch_context_inner-is m prev next h =
    let start : Exchange = record { machine = loaded m next; prev = saved m prev; next = next } in
    let first = push_pop m.rflags (loaded m next) h in
    ap
      (λ (p : ℕ × Machine).
        let s = popped_prev start p in popped_flags s (pop_word (push_word next.rflags s.machine)))
      first
    ∙ ap (popped_flags start) (
        push_pop next.rflags
          (record (loaded m next) { memory = poke m.memory (word_below next.rsp) m.rflags }) h)

-- The context of `m` is switched away from and later back to, from any other context and any state
-- of the processor and the memory at that time, for stack pointers of 64 bits. It finds its
-- registers, its stack pointer and its flags as they were, and the bases and the right to use ports
-- that are saved with them; each of the two switches changes no word of the memory but the one below
-- the stack pointer that it loads.
pub switch_context_inner-resumes :
    (m later : Machine) (prev next other : ContextRegisters)
    → m.rsp < word
    → next.rsp < word
    → let away = switch_context_inner m prev next in
      let back = switch_context_inner later other away.prev in
      ((r : GeneralReg) → read_reg back.machine r ≡ read_reg m r)
      × (back.machine.rflags ≡ m.rflags)
      × ((r : GeneralReg) → read_reg away.machine r ≡ read_field next r)
      × ((a : ℕ) → a ≢ word_below next.rsp → away.machine.memory a ≡ m.memory a)
      × ((a : ℕ) → a ≢ word_below m.rsp → back.machine.memory a ≡ later.memory a)
      × (away.prev.fsbase ≡ prev.fsbase)
      × (away.prev.gsbase ≡ prev.gsbase)
      × (away.prev.userspace_io_allowed ≡ prev.userspace_io_allowed)
switch_context_inner-resumes m later prev next other h k =
    let away = switch_context_inner-is m prev next k in
    let back =
      ap (λ (s : Exchange). switch_context_inner later other s.prev) away
      ∙ switch_context_inner-is later other (saved m prev) h in
    (
      λ r. ap (λ (s : Exchange). read_reg s.machine r) back ∙ as_before r,
      ap (λ (s : Exchange). s.machine.rflags) back,
      λ r. ap (λ (s : Exchange). read_reg s.machine r) away ∙ as_next r,
      λ a ne.
          ap (λ (s : Exchange). s.machine.memory a) away ∙ kept m.memory m.rflags next.rflags a ne,
      λ a ne.
          ap (λ (s : Exchange). s.machine.memory a) back
          ∙ kept later.memory later.rflags m.rflags a ne,
      ap (λ (s : Exchange). s.prev.fsbase) away,
      ap (λ (s : Exchange). s.prev.gsbase) away,
      ap (λ (s : Exchange). s.prev.userspace_io_allowed) away,
    )
  where
    as_before : (r : GeneralReg) → read_reg (switched_to later (saved m prev)) r ≡ read_reg m r
    as_before rbx = refl
    as_before r12 = refl
    as_before r13 = refl
    as_before r14 = refl
    as_before r15 = refl
    as_before rbp = refl
    as_before rsp = refl

    as_next : (r : GeneralReg) → read_reg (switched_to m next) r ≡ read_field next r
    as_next rbx = refl
    as_next r12 = refl
    as_next r13 = refl
    as_next r14 = refl
    as_next r15 = refl
    as_next rbp = refl
    as_next rsp = refl

    kept :
        (memory : ℕ → ℕ) (v w : ℕ) {at : ℕ} (a : ℕ)
        → a ≢ at
        → poke (poke memory at v) at w a ≡ memory a
    kept memory v w {at} a ne = rw (==_ne a at ne) refl
