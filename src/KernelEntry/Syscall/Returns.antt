-- ===== src/KernelEntry/Syscall/Returns.antt =====
-- What a program finds when a system call returns, and when it starts.
use miniature.Base.{
  not, ℕ, ◌-◌, ◌/◌, ◌%◌, ◌^◌, ◌≤◌, ◌<◌, ◌≡◌, ◌≢◌, ◌⊎◌, inl, inr, refl, sym, ◌∙◌, Bool-cases, Bool,
  true, false, List, [], ◌∷◌, ◌++◌, some, ◌==◌, ap, done, if◌then◌else◌, arith,
}
use miniature.Errors.{ok, mux}
use miniature.KernelEntry.{
  Reg, rax, rbx, rcx, rdx, rsi, rdi, rbp, r8, r9, r10, r11, r12, r13, r14, r15, Registers, set_reg,
  push_all, pop_all, words, read_stack, InterruptStack, call_inner, Resumed, is_canonical,
}
use miniature.KernelEntry.Syscall.{
  user_selector, sign_extended, star, set_syscall_ret_reg, inner_syscall_instruction,
  enter_usermode, syscall_instruction,
}

-- An address of 48 bits with its sign extended.
abbrev pub IsCanonical : ℕ → Type 0
IsCanonical a = (a < 2 ^ 47) ⊎ ((2 ^ 64 - 2 ^ 47 ≤ a) × (a < 2 ^ 64))

pub sign_extended-same : (a : ℕ) → IsCanonical a → sign_extended a ≡ a
sign_extended-same a h = ground arith

pub is_canonical-holds : (a : ℕ) → IsCanonical a → is_canonical a ≡ true
unfolding is_canonical
is_canonical-holds a h = ground arith

-- The registers that the structure holds.
abbrev pub saved : InterruptStack → Registers
saved s rax = s.scratch.rax
saved s rbx = s.preserved.rbx
saved s rcx = s.scratch.rcx
saved s rdx = s.scratch.rdx
saved s rsi = s.scratch.rsi
saved s rdi = s.scratch.rdi
saved s rbp = s.preserved.rbp
saved s r8 = s.scratch.r8
saved s r9 = s.scratch.r9
saved s r10 = s.scratch.r10
saved s r11 = s.scratch.r11
saved s r12 = s.preserved.r12
saved s r13 = s.preserved.r13
saved s r14 = s.preserved.r14
saved s r15 = s.preserved.r15

-- Whether the program is traced.
abbrev pub traced : InterruptStack → Bool
traced s = s.iret.rflags / 2 ^ 8 % 2 == 1

-- The structure that the entry of a system call leaves on the stack.
abbrev pub frame_of : Registers → ℕ → InterruptStack
frame_of regs rsp = record {
  preserved = record {
    r15 = regs r15;
    r14 = regs r14;
    r13 = regs r13;
    r12 = regs r12;
    rbp = regs rbp;
    rbx = regs rbx;
  };
  scratch = record {
    r11 = regs r11;
    r10 = regs r10;
    r9 = regs r9;
    r8 = regs r8;
    rsi = regs rsi;
    rdi = regs rdi;
    rdx = regs rdx;
    rcx = regs rcx;
    rax = regs rax;
  };
  iret = record {
    rip = regs rcx;
    cs = user_selector 5;
    rflags = regs r11;
    rsp = rsp;
    ss = user_selector 4;
  };
}

-- The registers after `pop_preserved` and `pop_scratch`, and after two more are set.
abbrev set_all : List (Reg × ℕ) → Registers → Registers
set_all [] regs = regs
set_all ((r, v) ∷ rest) regs = set_all rest (set_reg regs r v)

abbrev popped : Registers → InterruptStack → ℕ → ℕ → Registers
popped regs s c f =
    set_all
      ((r15, s.preserved.r15)
        ∷ (r14, s.preserved.r14)
        ∷ (r13, s.preserved.r13)
        ∷ (r12, s.preserved.r12)
        ∷ (rbp, s.preserved.rbp)
        ∷ (rbx, s.preserved.rbx)
        ∷ (r11, s.scratch.r11)
        ∷ (r10, s.scratch.r10)
        ∷ (r9, s.scratch.r9)
        ∷ (r8, s.scratch.r8)
        ∷ (rsi, s.scratch.rsi)
        ∷ (rdi, s.scratch.rdi)
        ∷ (rdx, s.scratch.rdx)
        ∷ (rcx, s.scratch.rcx)
        ∷ (rax, s.scratch.rax)
        ∷ (rcx, c)
        ∷ (r11, f)
        ∷ [])
      regs

module _ (sysret_cs sysret_ss : ℕ → ℕ) where
  -- The program as a structure describes it, but for the two registers that the return takes.
  pub record Enters (gs : Bool) (s : InterruptStack) (u : Resumed) : Type 0 where
    pub regs : (r : Reg) → r ≢ rcx → r ≢ r11 → u.regs r ≡ saved s r
    pub rip : u.iret.rip ≡ s.iret.rip
    pub rflags : u.iret.rflags ≡ s.iret.rflags
    pub rsp : u.iret.rsp ≡ s.iret.rsp
    pub kernel_gs : u.kernel_gs ≡ not gs

  entered :
      (regs : Registers) (s : InterruptStack) (c f : ℕ) (r : Reg)
      → r ≢ rcx
      → r ≢ r11
      → popped regs s c f r ≡ saved s r
  entered regs s c f rax a b = refl
  entered regs s c f rbx a b = refl
  entered regs s c f rcx a b = absurd (a refl)
  entered regs s c f rdx a b = refl
  entered regs s c f rsi a b = refl
  entered regs s c f rdi a b = refl
  entered regs s c f rbp a b = refl
  entered regs s c f r8 a b = refl
  entered regs s c f r9 a b = refl
  entered regs s c f r10 a b = refl
  entered regs s c f r11 a b = absurd (b refl)
  entered regs s c f r12 a b = refl
  entered regs s c f r13 a b = refl
  entered regs s c f r14 a b = refl
  entered regs s c f r15 a b = refl

  -- A frame on the stack whose program goes on at a canonical address: the program is entered with the registers, the address, the flags and the stack pointer of the frame, and the
  -- GS base is exchanged. Only `rcx` and `r11` differ: they are the address and the flags, or zero if the
  -- program is traced.
  pub enter_usermode-Enters :
      (gs : Bool) (regs : Registers) (s : InterruptStack) (rest : List ℕ)
      → IsCanonical s.iret.rip
      → (u : Resumed) × (enter_usermode sysret_cs sysret_ss gs
            (record { regs = regs; stack = words s ++ rest })
          ≡ some u)
        × Enters gs s u
        × (u.regs rcx ≡ (if traced s then 0 else s.iret.rip))
        × (u.regs r11 ≡ (if traced s then 0 else s.iret.rflags))
  unfolding enter_usermode words pop_all
  enter_usermode-Enters gs regs s rest h = elim (Bool-cases (traced s)) [
    | inl t ↦ (
      record { regs = popped regs s 0 0; iret = s.iret; kernel_gs = not gs; stack = rest },
      rw (t, is_canonical-holds s.iret.rip h) refl,
      record {
        regs = λ r a b. entered regs s 0 0 r a b;
        rip = refl;
        rflags = refl;
        rsp = refl;
        kernel_gs = refl;
      },
      rw t refl,
      rw t refl,
    )
    | inr t ↦
        let same = sign_extended-same s.iret.rip h in
        (
          record {
            regs = popped regs s (sign_extended s.iret.rip) s.iret.rflags;
            iret = record s.iret {
              rip = sign_extended s.iret.rip;
              cs = sysret_cs star;
              ss = sysret_ss star;
            };
            kernel_gs = not gs;
            stack = s.iret.ss ∷ rest;
          },
          rw t refl,
          record {
            regs = λ r a b. entered regs s (sign_extended s.iret.rip) s.iret.rflags r a b;
            rip = same;
            rflags = refl;
            rsp = refl;
            kernel_gs = refl;
          },
          rw t same,
          rw t refl,
        )
  ]

  -- A system call of a program whose next instruction stands at a canonical address, traced or not,
  -- whatever the call inside leaves in the registers: the program goes on there, with its flags, its
  -- stack pointer and its GS base; all registers are as they were but for `rcx` and `r11`, and for
  -- `rax`, which has the result.
  pub syscall_instruction-returns :
      (clobber : Registers → Registers) (gs : Bool) (regs : Registers) (rsp : ℕ)
      → IsCanonical (regs rcx)
      → (u : Resumed) × (syscall_instruction sysret_cs sysret_ss clobber inner_syscall_instruction
            gs regs rsp
          ≡ some u)
        × ((r : Reg) → r ≢ rax → r ≢ rcx → r ≢ r11 → u.regs r ≡ regs r)
        × (mux (ok 0) ≡ done (u.regs rax))
        × (u.iret.rip ≡ regs rcx)
        × (u.iret.rflags ≡ regs r11)
        × (u.iret.rsp ≡ rsp)
        × (u.kernel_gs ≡ gs)
  unfolding syscall_instruction call_inner push_all read_stack inner_syscall_instruction
      set_syscall_ret_reg mux
  syscall_instruction-returns clobber gs regs rsp h =
      let frame = set_syscall_ret_reg (frame_of regs rsp) 0 in
      let (u, e, enters, c, f) = enter_usermode-Enters (not gs) (clobber regs) frame [] h in
      (
        u,
        e,
        λ r a b c. enters.regs r b c ∙ kept r a,
        ap done (sym (enters.regs rax (λ q. cc) (λ q. cc))),
        enters.rip,
        enters.rflags,
        enters.rsp,
        enters.kernel_gs ∙ twice gs,
      )
    where
      twice : (b : Bool) → not (not b) ≡ b
      twice true = refl
      twice false = refl

      kept : (r : Reg) → r ≢ rax → saved (set_syscall_ret_reg (frame_of regs rsp) 0) r ≡ regs r
      kept rax a = absurd (a refl)
      kept rbx a = refl
      kept rcx a = refl
      kept rdx a = refl
      kept rsi a = refl
      kept rdi a = refl
      kept rbp a = refl
      kept r8 a = refl
      kept r9 a = refl
      kept r10 a = refl
      kept r11 a = refl
      kept r12 a = refl
      kept r13 a = refl
      kept r14 a = refl
      kept r15 a = refl
