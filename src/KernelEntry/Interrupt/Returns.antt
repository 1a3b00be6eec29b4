-- ===== src/KernelEntry/Interrupt/Returns.antt =====
-- What is interrupted goes on as the handler leaves it, and handlers run with the kernel's GS base.
use miniature.Base.{
  ℕ, ◌+◌, ◌*◌, ◌/◌, ◌%◌, ◌≡◌, refl, Bool, true, false, not, List, [], ◌∷◌, ◌++◌, some, ◌==◌,
  if◌then◌else◌, arith,
}
use miniature.KernelEntry.{
  Reg, rax, rbx, rcx, rdx, rsi, rdi, rbp, r8, r9, r10, r11, r12, r13, r14, r15, Registers, set_reg,
  push_all, pop_all, words, read_stack, InterruptStack, IretRegisters, call_inner, Resumed,
}
use miniature.KernelEntry.Syscall.Returns.{IsCanonical, is_canonical-holds, saved}
use miniature.KernelEntry.Interrupt.{
  conditional_swapgs_paranoid, interrupt_stack, interrupt_stack_paranoid, interrupt,
  interrupt_error,
}

-- What the processor pushes.
abbrev pub iret_words : IretRegisters → List ℕ
iret_words i = i.rip ∷ i.cs ∷ i.rflags ∷ i.rsp ∷ i.ss ∷ []

-- The structure that a handler gets.
abbrev pub interrupted : Registers → IretRegisters → InterruptStack
interrupted regs iret = record {
  preserved = record {
    r15 = regs r15;
    r14 = regs r14;
    r13 = regs r13;
    r12 = regs r12;
    rbp = regs rbp;
    rbx = regs rbx;
  };
  scratch = record {
    r11 = regs r11;
    r10 = regs r10;
    r9 = regs r9;
    r8 = regs r8;
    rsi = regs rsi;
    rdi = regs rdi;
    rdx = regs rdx;
    rcx = regs rcx;
    rax = regs rax;
  };
  iret = iret;
}

-- The kernel's code has the kernel's GS base, and a program has its own.
abbrev pub owner_gs : IretRegisters → Bool
owner_gs iret = iret.cs % 4 == 0

-- What goes on is the structure, with a GS base, and its words are off the stack.
pub record GoesOn (s : InterruptStack) (gs : Bool) (rest : List ℕ) (u : Resumed) : Type 0 where
  pub regs : (r : Reg) → u.regs r ≡ saved s r
  pub iret : u.iret ≡ s.iret
  pub kernel_gs : u.kernel_gs ≡ gs
  pub stack : u.stack ≡ rest

-- The registers after all pops.
abbrev restored : Registers → InterruptStack → Registers
restored regs s =
    set_reg
      (set_reg
        (set_reg
          (set_reg
            (set_reg
              (set_reg
                (set_reg
                  (set_reg
                    (set_reg
                      (set_reg
                        (set_reg
                          (set_reg
                            (set_reg
                              (set_reg (set_reg regs r15 s.preserved.r15) r14 s.preserved.r14) r13
                              s.preserved.r13)
                            r12 s.preserved.r12)
                          rbp s.preserved.rbp)
                        rbx s.preserved.rbx)
                      r11 s.scratch.r11)
                    r10 s.scratch.r10)
                  r9 s.scratch.r9)
                r8 s.scratch.r8)
              rsi s.scratch.rsi)
            rdi s.scratch.rdi)
          rdx s.scratch.rdx)
        rcx s.scratch.rcx)
      rax s.scratch.rax

restored-saved : (regs : Registers) (s : InterruptStack) (r : Reg) → restored regs s r ≡ saved s r
restored-saved regs s rax = refl
restored-saved regs s rbx = refl
restored-saved regs s rcx = refl
restored-saved regs s rdx = refl
restored-saved regs s rsi = refl
restored-saved regs s rdi = refl
restored-saved regs s rbp = refl
restored-saved regs s r8 = refl
restored-saved regs s r9 = refl
restored-saved regs s r10 = refl
restored-saved regs s r11 = refl
restored-saved regs s r12 = refl
restored-saved regs s r13 = refl
restored-saved regs s r14 = refl
restored-saved regs s r15 = refl

abbrev scratch_restored : Registers → Registers → Registers
scratch_restored left regs =
    set_reg
      (set_reg
        (set_reg
          (set_reg
            (set_reg
              (set_reg (set_reg (set_reg (set_reg left r11 (regs r11)) r10 (regs r10)) r9 (regs r9))
                r8 (regs r8))
              rsi (regs rsi))
            rdi (regs rdi))
          rdx (regs rdx))
        rcx (regs rcx))
      rax (regs rax)

-- The registers that a call preserves.
abbrev pub is_preserved : Reg → Bool
is_preserved rax = false
is_preserved rbx = true
is_preserved rcx = false
is_preserved rdx = false
is_preserved rsi = false
is_preserved rdi = false
is_preserved rbp = true
is_preserved r8 = false
is_preserved r9 = false
is_preserved r10 = false
is_preserved r11 = false
is_preserved r12 = true
is_preserved r13 = true
is_preserved r14 = true
is_preserved r15 = true

owner_swap : (b : Bool) → (if b then b else not b) ≡ true
owner_swap true = refl
owner_swap false = refl

swap_back : (b : Bool) → (if b then true else not true) ≡ b
swap_back true = refl
swap_back false = refl

module _ (clobber : Registers → Registers) where
  abbrev gone_on : Registers → InterruptStack → Bool → List ℕ → Resumed
  gone_on regs s kernel_gs rest = record {
    regs = restored (clobber regs) s;
    iret = s.iret;
    kernel_gs = kernel_gs;
    stack = rest;
  }

  gone_on-GoesOn :
      (regs : Registers) (s : InterruptStack) (b : Bool) (rest : List ℕ)
      → GoesOn s b rest (gone_on regs s b rest)
  gone_on-GoesOn regs s b rest = record {
    regs = λ r. restored-saved (clobber regs) s r;
    iret = refl;
    kernel_gs = refl;
    stack = refl;
  }

  -- An interrupt without an error code, at a moment where the GS base is the owner's: the handler
  -- gets the registers and runs with the kernel's GS base; what it leaves in the structure goes on,
  -- with the GS base of its owner, whatever the call leaves in the registers, if its address is
  -- canonical.
  pub interrupt_stack-GoesOn :
      (inner : Bool → InterruptStack → InterruptStack) (regs : Registers) (iret : IretRegisters)
      (rest : List ℕ)
      → IsCanonical (inner true (interrupted regs iret)).iret.rip
      → (u : Resumed) × (interrupt_stack clobber inner
            (owner_gs iret)
            (record { regs = regs; stack = iret_words iret ++ rest })
          ≡ some u)
        × GoesOn
            (inner true (interrupted regs iret))
            (owner_gs (inner true (interrupted regs iret)).iret)
            rest
            u
  unfolding interrupt_stack call_inner push_all pop_all words read_stack
  interrupt_stack-GoesOn inner regs iret rest canonical =
      let s = inner true (interrupted regs iret) in
      (
        gone_on regs s (owner_gs s.iret) rest,
        rw
            (
              owner_swap (owner_gs iret),
              swap_back (owner_gs s.iret),
              is_canonical-holds s.iret.rip canonical,
            )
            refl,
        gone_on-GoesOn regs s (owner_gs s.iret) rest,
      )

  -- An interrupt with an error code, if the GS base is the owner's: the kernel's for code of the
  -- kernel, and the program's for a program. If the handler leaves a canonical address, what it
  -- leaves in the structure goes on, with the GS base of its owner, whatever the call leaves in the
  -- registers; the handler gets the registers and the code, and runs with the kernel's GS base.
  pub interrupt_error-GoesOn :
      (inner : Bool → InterruptStack → ℕ → InterruptStack) (kernel_gs : Bool) (regs : Registers)
      (iret : IretRegisters) (code : ℕ) (rest : List ℕ)
      → kernel_gs ≡ owner_gs iret
      → IsCanonical (inner true (interrupted regs iret) code).iret.rip
      → (u : Resumed) × (interrupt_error clobber inner kernel_gs
            (record { regs = regs; stack = code ∷ iret_words iret ++ rest })
          ≡ some u)
        × GoesOn
            (inner true (interrupted regs iret) code)
            (owner_gs (inner true (interrupted regs iret) code).iret)
            rest
            u
  unfolding interrupt_error call_inner push_all pop_all words read_stack
  interrupt_error-GoesOn inner kernel_gs regs iret code rest owner canonical =
      let s = inner true (interrupted regs iret) code in
      (
        gone_on (set_reg regs rsi code) s (owner_gs s.iret) rest,
        rw
            (
              owner,
              owner_swap (owner_gs iret),
              swap_back (owner_gs s.iret),
              is_canonical-holds s.iret.rip canonical,
            )
            refl,
        gone_on-GoesOn (set_reg regs rsi code) s (owner_gs s.iret) rest,
      )

  -- A paranoid interrupt at any moment, if the GS base is the address of the kernel's region exactly
  -- when it is the kernel's, the call keeps `rbx`, and the handler leaves a canonical address: it runs with the kernel's GS base,
  -- what it leaves in the structure goes on, and the GS base is again what it was.
  pub interrupt_stack_paranoid-GoesOn :
      (base : Bool → ℕ) (pcr : ℕ) (overwrite : Registers → Registers)
      (inner : Bool → InterruptStack → InterruptStack) (kernel_gs : Bool) (regs : Registers)
      (iret : IretRegisters) (rest : List ℕ)
      → ((b : Bool) → (base b == pcr) ≡ b)
      → ((regs : Registers) → clobber regs rbx ≡ regs rbx)
      → IsCanonical (inner true (interrupted regs iret)).iret.rip
      → (u : Resumed) × (interrupt_stack_paranoid clobber base pcr overwrite inner kernel_gs
            (record { regs = regs; stack = iret_words iret ++ rest })
          ≡ some u)
        × GoesOn (inner true (interrupted regs iret)) kernel_gs rest u
  unfolding interrupt_stack_paranoid conditional_swapgs_paranoid call_inner push_all pop_all words
      read_stack
  interrupt_stack_paranoid-GoesOn base pcr overwrite inner kernel_gs regs iret rest own keeps
        canonical =
      let s = inner true (interrupted regs iret) in
      let swapped =
        set_reg (overwrite regs) rbx (regs rbx / 256 * 256 + (if kernel_gs then 1 else 0)) in
      (
        gone_on swapped s kernel_gs rest,
        rw
            (
              own kernel_gs,
              owner_swap kernel_gs,
              keeps swapped,
              bl_tells (regs rbx) kernel_gs,
              is_canonical-holds s.iret.rip canonical,
            )
            refl,
        gone_on-GoesOn swapped s kernel_gs rest,
      )
    where
      bl_tells :
          (v : ℕ) (b : Bool)
          → (if (v / 256 * 256 + (if b then 1 else 0)) % 256 == 0 then false else true) ≡ b
      bl_tells v b = ground arith

  -- An interrupt without a structure at a canonical address, if the call keeps the registers that a
  -- call preserves, and the GS base is the owner's: every
  -- register and the frame of the processor are as they were, with the owner's GS base.
  pub interrupt-same :
      (regs : Registers) (iret : IretRegisters) (rest : List ℕ)
      → ((regs : Registers) (r : Reg) → is_preserved r ≡ true → clobber regs r ≡ regs r)
      → IsCanonical iret.rip
      → (u : Resumed) × (interrupt clobber
            (owner_gs iret)
            (record { regs = regs; stack = iret_words iret ++ rest })
          ≡ some u)
        × ((r : Reg) → u.regs r ≡ regs r)
        × (u.iret ≡ iret)
        × (u.kernel_gs ≡ owner_gs iret)
        × (u.stack ≡ rest)
  unfolding interrupt push_all pop_all
  interrupt-same regs iret rest keeps canonical = (
    record {
      regs = scratch_restored (clobber regs) regs;
      iret = iret;
      kernel_gs = owner_gs iret;
      stack = rest;
    },
    rw
        (
          owner_swap (owner_gs iret),
          swap_back (owner_gs iret),
          is_canonical-holds iret.rip canonical,
        )
        refl,
    back,
    refl,
    refl,
    refl,
  )
    where
      back : (r : Reg) → scratch_restored (clobber regs) regs r ≡ regs r
      back rax = refl
      back rbx = keeps regs rbx refl
      back rcx = refl
      back rdx = refl
      back rsi = refl
      back rdi = refl
      back rbp = keeps regs rbp refl
      back r8 = refl
      back r9 = refl
      back r10 = refl
      back r11 = refl
      back r12 = keeps regs r12 refl
      back r13 = keeps regs r13 refl
      back r14 = keeps regs r14 refl
      back r15 = keeps regs r15 refl
