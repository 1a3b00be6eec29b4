-- ===== src/KernelEntry.antt =====
-- kernel/src/syscall.rs and kernel/src/interrupt_macro.rs: the registers on the way into the kernel and back.
pub mod Syscall
pub mod Interrupt
mod Examples
use miniature.Base.{
  ℕ, ◌+◌, ◌-◌, ◌*◌, ◌/◌, ◌%◌, ◌^◌, Bool, true, false, not, List, [], ◌∷◌, ◌++◌, Option, none, some,
  ltb, leb, ◌||◌, ◌&&◌, Outcome, done, panic, spins, ◌==◌, if◌then◌else◌,
}

pub data Reg : Type 0 where
  rax rbx rcx rdx rsi rdi rbp r8 r9 r10 r11 r12 r13 r14 r15 : Reg

-- The registers but for the stack pointer and the flags.
abbrev pub Registers : Type 0
Registers = Reg → ℕ

abbrev pub reg_code : Reg → ℕ
reg_code rax = 0
reg_code rbx = 1
reg_code rcx = 2
reg_code rdx = 3
reg_code rsi = 4
reg_code rdi = 5
reg_code rbp = 6
reg_code r8 = 7
reg_code r9 = 8
reg_code r10 = 9
reg_code r11 = 10
reg_code r12 = 11
reg_code r13 = 12
reg_code r14 = 13
reg_code r15 = 14

abbrev pub set_reg : Registers → Reg → ℕ → Registers
set_reg regs r v q = if reg_code q == reg_code r then v else regs q

-- The words of the kernel's stack from the stack pointer on.
pub record Machine : Type 0 where
  pub regs : Registers
  pub stack : List ℕ

-- `push` and `pop`, in the order of the lines.
pub push_all : List Reg → Machine → Machine
push_all [] m = m
push_all (r ∷ rs) m = push_all rs (record m { stack = m.regs r ∷ m.stack })

abbrev pub pop_into : Reg → Machine → List ℕ → Option Machine
pop_into r m [] = none
pop_into r m (v ∷ rest) = some (record { regs = set_reg m.regs r v; stack = rest })

abbrev pub and_then {ℓ} : {A B : Type ℓ} → Option A → (A → Option B) → Option B
and_then none f = none
and_then (some a) f = f a

pub pop_all : List Reg → Machine → Option Machine
pop_all [] m = some m
pop_all (r ∷ rs) m = and_then (pop_into r m m.stack) (λ m'. pop_all rs m')

abbrev pub push_scratch : Machine → Machine
push_scratch = push_all (rcx ∷ rdx ∷ rdi ∷ rsi ∷ r8 ∷ r9 ∷ r10 ∷ r11 ∷ [])

abbrev pub pop_scratch : Machine → Option Machine
pop_scratch = pop_all (r11 ∷ r10 ∷ r9 ∷ r8 ∷ rsi ∷ rdi ∷ rdx ∷ rcx ∷ rax ∷ [])

abbrev pub push_preserved : Machine → Machine
push_preserved = push_all (rbx ∷ rbp ∷ r12 ∷ r13 ∷ r14 ∷ r15 ∷ [])

abbrev pub pop_preserved : Machine → Option Machine
pop_preserved = pop_all (r15 ∷ r14 ∷ r13 ∷ r12 ∷ rbp ∷ rbx ∷ [])

pub record PreservedRegisters : Type 0 where
  pub r15 : ℕ
  pub r14 : ℕ
  pub r13 : ℕ
  pub r12 : ℕ
  pub rbp : ℕ
  pub rbx : ℕ

pub record ScratchRegisters : Type 0 where
  pub r11 : ℕ
  pub r10 : ℕ
  pub r9 : ℕ
  pub r8 : ℕ
  pub rsi : ℕ
  pub rdi : ℕ
  pub rdx : ℕ
  pub rcx : ℕ
  pub rax : ℕ

pub record IretRegisters : Type 0 where
  pub rip : ℕ
  pub cs : ℕ
  pub rflags : ℕ
  pub rsp : ℕ
  pub ss : ℕ

pub record InterruptStack : Type 0 where
  pub preserved : PreservedRegisters
  pub scratch : ScratchRegisters
  pub iret : IretRegisters

-- The structure in memory, from its first field on: each field is one word.
unfoldable pub words : InterruptStack → List ℕ
words s =
    s.preserved.r15 ∷ s.preserved.r14 ∷ s.preserved.r13 ∷ s.preserved.r12 ∷ s.preserved.rbp
    ∷ s.preserved.rbx ∷ s.scratch.r11 ∷ s.scratch.r10 ∷ s.scratch.r9 ∷ s.scratch.r8 ∷ s.scratch.rsi
    ∷ s.scratch.rdi ∷ s.scratch.rdx ∷ s.scratch.rcx ∷ s.scratch.rax ∷ s.iret.rip ∷ s.iret.cs
    ∷ s.iret.rflags ∷ s.iret.rsp ∷ s.iret.ss ∷ []

-- The structure that a pointer to the stack gives, and the words after it.
pub read_stack : List ℕ → Option (InterruptStack × List ℕ)
read_stack (a ∷ b ∷ c ∷ d ∷ e ∷ f ∷ g ∷ h ∷ i ∷ j ∷ k ∷ l ∷ m ∷ n ∷ o ∷ p ∷ q ∷ r ∷ s ∷ t ∷ rest) =
    some (
      record {
        preserved = record { r15 = a; r14 = b; r13 = c; r12 = d; rbp = e; rbx = f };
        scratch = record {
          r11 = g;
          r10 = h;
          r9 = i;
          r8 = j;
          rsi = k;
          rdi = l;
          rdx = m;
          rcx = n;
          rax = o;
        };
        iret = record { rip = p; cs = q; rflags = r; rsp = s; ss = t };
      },
      rest,
    )
read_stack other = none

-- The program as it goes on, whether the GS base is the kernel's, and what is left of the kernel's stack.
pub record Resumed : Type 0 where
  pub regs : Registers
  pub iret : IretRegisters
  pub kernel_gs : Bool
  pub stack : List ℕ

abbrev returned {ℓ} : {A : Type ℓ} → Outcome A → Option A
returned (done a) = some a
returned panic = none
returned spins = none

-- A call of a function of the kernel with a pointer to the stack: it may change the structure and, of
-- the registers, `clobber` says what it leaves. `none` is a panic.
pub call_inner :
    (Registers → Registers) → (InterruptStack → Outcome InterruptStack) → Machine → Option Machine
unfolding words read_stack
call_inner clobber inner m = and_then (read_stack m.stack) (λ (s, rest).
    and_then (returned (inner s))
      (λ s'. some (record { regs = clobber m.regs; stack = words s' ++ rest })))

-- The processor's test of an address: the upper 17 bits are equal.
pub is_canonical : ℕ → Bool
is_canonical a = ltb a (2 ^ 47) || (leb (2 ^ 64 - 2 ^ 47) a && ltb a (2 ^ 64))

-- `iretq` takes five words. Where the address is not canonical it does not resume, but raises a
-- general protection exception, which is `none`.
abbrev pub pop_iret : List ℕ → Option (IretRegisters × List ℕ)
pop_iret (a ∷ b ∷ c ∷ d ∷ e ∷ rest) =
    some (record { rip = a; cs = b; rflags = c; rsp = d; ss = e }, rest)
pop_iret other = none

abbrev pub iretq : Bool → Machine → Option Resumed
iretq kernel_gs m = and_then (pop_iret m.stack) (λ (iret, rest).
    if is_canonical iret.rip
    then some (record { regs = m.regs; iret = iret; kernel_gs = kernel_gs; stack = rest })
    else none)
