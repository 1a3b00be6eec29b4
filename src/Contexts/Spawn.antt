-- ===== src/Contexts/Spawn.antt =====
-- `ContextStorage::spawn` of kernel/src/context/list.rs: a new context with a stack of its own.
pub mod Starts
mod Examples
use miniature.Base.{
  ℕ, ◌+◌, ◌-◌, ◌*◌, Bool, true, false, List, [], ◌∷◌, Option, none, some, length, Outcome, done,
  ◌>>=◌,
}
use miniature.Contexts.Context
use miniature.Contexts.Context.{
  Context, Slice, Root, set_addr_space, set_stack_pointer, interrupt_stack_size,
}
use miniature.Contexts.Storage.{ContextStorage, Reply, ok, err, put, new_context}
use miniature.KernelEntry.{InterruptStack, words}
use miniature.KernelEntry.Syscall
use miniature.KernelEntry.Syscall.{init}

abbrev pub enomem : ℕ
enomem = 12

-- 64 pages.
abbrev pub kstack_size : ℕ
kstack_size = 4096 * 64

-- Where the program sees the kernel stack.
abbrev pub user_kstack : ℕ
user_kstack = 0x7f80000000

-- `offset_of!(InterruptStack, iret) + offset_of!(IretRegisters, rsp)`
abbrev pub rsp_field_offset : ℕ
rsp_field_offset = (6 + 9) * 8 + 3 * 8

abbrev pub zeroed : InterruptStack
zeroed = record {
  preserved = record { r15 = 0; r14 = 0; r13 = 0; r12 = 0; rbp = 0; rbx = 0 };
  scratch = record {
    r11 = 0;
    r10 = 0;
    r9 = 0;
    r8 = 0;
    rsi = 0;
    rdi = 0;
    rdx = 0;
    rcx = 0;
    rax = 0;
  };
  iret = record { rip = 0; cs = 0; rflags = 0; rsp = 0; ss = 0 };
}

-- The address of `enter_usermode`, and the selectors of the program's segments.
pub record Targets : Type 0 where
  pub enter_usermode : ℕ
  pub user_code : ℕ
  pub user_data : ℕ

module _ (targets : Targets) where
  pub intr_stack : InterruptStack
  intr_stack =
      Syscall.set_stack_pointer (init targets.user_code targets.user_data zeroed)
        (user_kstack + kstack_size - interrupt_stack_size + rsp_field_offset + 8)

  -- The words that are written at the end of the stack, from the top of the stack on.
  pub stack_words : Bool → ℕ → List ℕ
  unfolding words
  stack_words true func = func ∷ targets.enter_usermode ∷ words intr_stack
  stack_words false func = func ∷ []

  pub with_stack : ℕ → Bool → ℕ → Context → Context
  with_stack stack userspace_allowed func c = record c {
    ctx_regs =
        set_stack_pointer c.ctx_regs
          (stack + kstack_size - 8 * length (stack_words userspace_allowed func));
    kstack = some (record { base = stack; len = kstack_size });
    userspace = userspace_allowed;
  }

  -- The rest of the call, once there is a context.
  abbrev pub furnish :
      ℕ
      → Root
      → ℕ
      → ℕ
      → Bool
      → ℕ
      → Reply ℕ
      → ContextStorage
      → Outcome (Reply ℕ × ContextStorage × Root × List ℕ)
  furnish current cr3 stack addrsp userspace_allowed func (err e) s = done (err e, s, cr3, [])
  furnish current cr3 stack addrsp userspace_allowed func (ok id) s = do
    (old, c, cr3') ← set_addr_space current cr3 (Context.new id) (some addrsp)
    done (
      ok id,
      record s { map = put id (with_stack stack userspace_allowed func c) s.map },
      cr3',
      stack_words userspace_allowed func,
    )

  -- From the answer of `frame_alloc_n(64)` and the name of the new address space, whose pages for the
  -- stack are mapped to it. The identifier stands for the reference to the context; the words are
  -- those at the end of the stack.
  pub spawn :
      ℕ
      → Root
      → Option ℕ
      → ℕ
      → ContextStorage
      → Bool
      → ℕ
      → Outcome (Reply ℕ × ContextStorage × Root × List ℕ)
  spawn current cr3 none addrsp s userspace_allowed func = done (err enomem, s, cr3, [])
  spawn current cr3 (some stack) addrsp s userspace_allowed func = do
    (reply, s') ← new_context s
    furnish current cr3 stack addrsp userspace_allowed func reply s'
