-- ===== src/Contexts/Context.antt =====
-- kernel/src/context/mod.rs, status.rs and signal.rs: one task context.
use miniature.Base.{
  ℕ, ◌+◌, ◌-◌, ◌*◌, ◌^◌, bit_and, bit_or, Bool, true, false, not, Option, none, some, ◌==◌, leb,
  if◌then◌else◌, Outcome, done, ◌>>◌, assert, word,
}
use Prim.Native.String.{String}

pub data HardBlockedReason : Type 0 where
  not_yet_started : HardBlockedReason

pub data Status : Type 0 where
  runnable : Status
  soft_blocked : String → Status
  hard_blocked : HardBlockedReason → Status
  stopped existed : ℕ → Status

unfoldable pub is_runnable : Status → Bool
is_runnable runnable = true
is_runnable (soft_blocked reason) = false
is_runnable (hard_blocked reason) = false
is_runnable (stopped n) = false
is_runnable (existed n) = false

unfoldable pub is_soft_blocked : Status → Bool
is_soft_blocked runnable = false
is_soft_blocked (soft_blocked reason) = true
is_soft_blocked (hard_blocked reason) = false
is_soft_blocked (stopped n) = false
is_soft_blocked (existed n) = false

-- Two bit sets of 64 bits.
pub record SignalState : Type 0 where
  pub pending : ℕ
  pub procmask : ℕ

abbrev pub sigkill : ℕ
sigkill = 9

abbrev pub sigstop : ℕ
sigstop = 19

abbrev pub cant_block : ℕ
cant_block = bit_or (2 ^ (sigkill - 1)) (2 ^ (sigstop - 1))

-- `!x` of a `u64`
abbrev pub complement : ℕ → ℕ
complement x = word - 1 - x

unfoldable pub deliverable : SignalState → ℕ
deliverable s = bit_and s.pending (bit_or cant_block (complement s.procmask))

pub record ContextRegisters : Type 0 where
  pub rflags : ℕ
  pub rbx : ℕ
  pub r12 : ℕ
  pub r13 : ℕ
  pub r14 : ℕ
  pub r15 : ℕ
  pub rbp : ℕ
  pub rsp : ℕ
  pub fsbase : ℕ
  pub gsbase : ℕ
  pub userspace_io_allowed : Bool

abbrev pub no_registers : ContextRegisters
no_registers = record {
  rflags = 0;
  rbx = 0;
  r12 = 0;
  r13 = 0;
  r14 = 0;
  r15 = 0;
  rbp = 0;
  rsp = 0;
  fsbase = 0;
  gsbase = 0;
  userspace_io_allowed = false;
}

unfoldable pub set_stack_pointer : ContextRegisters → ℕ → ContextRegisters
set_stack_pointer r address = record r { rsp = address }

-- A slice of bytes: its address and its length.
pub record Slice : Type 0 where
  pub base : ℕ
  pub len : ℕ

-- An address space is named by its `Arc`: two are `ptr_eq` when the numbers are equal.
pub record Context : Type 0 where
  pub id : ℕ
  pub running : Bool
  pub cpu_id : Option ℕ
  pub inside_syscall : Bool
  pub kstack : Option Slice
  pub status : Status
  pub signal : SignalState
  pub ctx_regs : ContextRegisters
  pub userspace : Bool
  pub addrsp : Option ℕ

unfoldable pub new : ℕ → Context
new id = record {
  id = id;
  running = false;
  cpu_id = none;
  inside_syscall = false;
  kstack = none;
  status = hard_blocked not_yet_started;
  signal = record { pending = 0; procmask = complement 0 };
  ctx_regs = no_registers;
  userspace = false;
  addrsp = none;
}

-- Each method returns its result and the context that it leaves.
unfoldable pub soft_block : Context → String → Bool × Context
unfolding is_runnable
soft_block c reason =
    if is_runnable c.status then (true, record c { status = soft_blocked reason }) else (false, c)

pub hard_block : Context → HardBlockedReason → Bool × Context
unfolding is_runnable
hard_block c reason =
    if is_runnable c.status then (true, record c { status = hard_blocked reason }) else (false, c)

unfoldable pub unblock_no_ipi : Context → Bool × Context
unfolding is_soft_blocked
unblock_no_ipi c =
    if is_soft_blocked c.status then (true, record c { status = runnable }) else (false, c)

-- The message to the other processor is commented out in the source.
unfoldable pub unblock : Context → Bool × Context
unfolding unblock_no_ipi
unblock c = let (unblocked, c') = unblock_no_ipi c in if unblocked then (true, c') else (false, c')

-- What `CR3` points to: the kernel's table, or the table of an address space.
pub data Root : Type 0 where
  kernel_table : Root
  table_of : ℕ → Root

-- `Arc::ptr_eq` where both are present.
abbrev pub ptr_eq : Option ℕ → Option ℕ → Bool
ptr_eq (some p) (some n) = p == n
ptr_eq (some p) none = false
ptr_eq none (some n) = false
ptr_eq none none = false

abbrev pub root_of : Option ℕ → Root
root_of (some new) = table_of new
root_of none = kernel_table

-- `current` is `context_id()`; the result is the old address space, or the given one if they are
-- the same.
unfoldable pub set_addr_space : ℕ → Root → Context → Option ℕ → Outcome (Option ℕ × Context × Root)
set_addr_space current cr3 c addrsp =
    if ptr_eq c.addrsp addrsp
    then done (addrsp, c, cr3)
    else if c.id == current
    then done (c.addrsp, record c { addrsp = addrsp }, root_of addrsp)
    else (assert (not c.running) >> done (c.addrsp, record c { addrsp = addrsp }, cr3))

-- `size_of::<InterruptStack>()`: 6 preserved, 9 scratch and 5 return registers of 8 bytes.
abbrev pub interrupt_stack_size : ℕ
interrupt_stack_size = (6 + 9 + 5) * 8

-- `regs` and `regs_mut`: the address of the registers saved at the end of the kernel stack.
unfoldable pub regs : Context → Option ℕ
regs c =
    if c.userspace
    then elim c.kstack [
      | none ↦ none
      | some stack ↦
          if leb interrupt_stack_size stack.len
          then some (stack.base + (stack.len - interrupt_stack_size))
          else none
    ]
    else none
