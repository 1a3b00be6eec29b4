-- ===== src/KernelEntry/Examples.antt =====
-- A program that is interrupted and calls the kernel.
use miniature.Base.{
  ℕ, ◌+◌, ◌≡◌, ◌≢◌, refl, Bool, true, false, inl, [], ◌∷◌, ◌++◌, some, done, arith, ◌==◌,
  if◌then◌else◌,
}
use miniature.Errors.{ok, mux}
use miniature.KernelEntry.{
  Reg, rax, rcx, r11, reg_code, Registers, InterruptStack, IretRegisters, Resumed,
}
use miniature.KernelEntry.Syscall.{inner_syscall_instruction, syscall_instruction}
use miniature.KernelEntry.Syscall.Returns.{syscall_instruction-returns}
use miniature.KernelEntry.Interrupt.{interrupt_stack_paranoid, interrupt_error}
use miniature.KernelEntry.Interrupt.Returns.{
  is_preserved, iret_words, interrupted, GoesOn, interrupt_error-GoesOn,
  interrupt_stack_paranoid-GoesOn,
}

abbrev registers : Registers
registers r = 1000 + reg_code r

-- A call that keeps what a call preserves, and loses the rest.
abbrev call : Registers → Registers
call regs r = if is_preserved r then regs r else 0

abbrev selector : ℕ → ℕ
selector star = 43

syscall_instruction-returns_example :
    (u : Resumed) × (syscall_instruction selector selector call inner_syscall_instruction false
        registers 0x7000
      ≡ some u)
    × ((r : Reg) → r ≢ rax → r ≢ rcx → r ≢ r11 → u.regs r ≡ registers r)
    × (mux (ok 0) ≡ done (u.regs rax))
    × (u.iret.rip ≡ 1002)
    × (u.iret.rflags ≡ 1010)
    × (u.iret.rsp ≡ 0x7000)
    × (u.kernel_gs ≡ false)
syscall_instruction-returns_example =
    syscall_instruction-returns selector selector call false registers 0x7000 (inl (omega arith))

abbrev program : IretRegisters
program = record { rip = 0x400000; cs = 43; rflags = 0x202; rsp = 0x7000; ss = 35 }

-- A handler that puts the error code into `rax`.
abbrev code_to_rax : Bool → InterruptStack → ℕ → InterruptStack
code_to_rax gs s code = if gs then record s { scratch = record s.scratch { rax = code } } else s

interrupt_error-GoesOn_example :
    (u : Resumed) × (interrupt_error call code_to_rax false
        (record { regs = registers; stack = 14 ∷ iret_words program ++ 7 ∷ [] })
      ≡ some u)
    × GoesOn (code_to_rax true (interrupted registers program) 14) false (7 ∷ []) u
interrupt_error-GoesOn_example =
    interrupt_error-GoesOn call code_to_rax false registers program 14 (7 ∷ []) refl
      (inl (omega arith))

abbrev base : Bool → ℕ
base kernel_gs = if kernel_gs then 500 else 9

base_is : (b : Bool) → (base b == 500) ≡ b
base_is true = refl
base_is false = refl

abbrev unchanged : Bool → InterruptStack → InterruptStack
unchanged gs s = s

interrupt_stack_paranoid-GoesOn_example :
    (u : Resumed) × (interrupt_stack_paranoid call base 500
        (λ regs. regs)
        unchanged
        false
        (record { regs = registers; stack = iret_words program ++ [] })
      ≡ some u)
    × GoesOn (interrupted registers program) false [] u
interrupt_stack_paranoid-GoesOn_example =
    interrupt_stack_paranoid-GoesOn call base 500 (λ regs. regs) unchanged false registers program
      [] base_is (λ regs. refl) (inl (omega arith))
