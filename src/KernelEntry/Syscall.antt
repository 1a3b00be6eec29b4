-- ===== src/KernelEntry/Syscall.antt =====
-- `syscall_instruction` and `init_syscall` of kernel/src/syscall.rs.
pub mod Returns
use miniature.Base.{
  not, ℕ, ◌+◌, ◌-◌, ◌*◌, ◌/◌, ◌%◌, ◌^◌, bit_or, Bool, true, false, List, [], ◌∷◌, Option, none,
  some, ltb, ◌==◌, if◌then◌else◌, word, Outcome, done, ◌>>=◌,
}
use miniature.Errors.{KResult, ok, mux}
use miniature.KernelEntry.{
  Reg, rax, rcx, r11, Registers, set_reg, Machine, push_all, pop_into, and_then, pop_all,
  push_scratch, pop_scratch, push_preserved, pop_preserved, InterruptStack, call_inner, Resumed,
  iretq, IretRegisters,
}

-- `SegmentSelector::new(index, Ring3)`
abbrev pub user_selector : ℕ → ℕ
user_selector index = index * 8 + 3

-- `RFlags::INTERRUPT_FLAG`
abbrev pub interrupt_flag : ℕ
interrupt_flag = 0x200

-- `init`, from the two selectors of the program's segments.
unfoldable pub init : ℕ → ℕ → InterruptStack → InterruptStack
init user_code user_data s = record s {
  iret = record s.iret { rflags = interrupt_flag; cs = user_code; ss = user_data };
}

unfoldable pub set_stack_pointer : InterruptStack → ℕ → InterruptStack
set_stack_pointer s rsp = record s { iret = record s.iret { rsp = rsp } }

unfoldable pub set_instr_pointer : InterruptStack → ℕ → InterruptStack
set_instr_pointer s rip = record s { iret = record s.iret { rip = rip } }

pub set_syscall_ret_reg : InterruptStack → ℕ → InterruptStack
set_syscall_ret_reg s ret = record s { scratch = record s.scratch { rax = ret } }

-- `__inner_syscall_instruction`, up to its output: no call does anything yet.
pub inner_syscall_instruction : InterruptStack → Outcome InterruptStack
inner_syscall_instruction s = mux (ok 0) >>= λ ret. done (set_syscall_ret_reg s ret)

-- The words that `init_syscall` writes: IA32_STAR, IA32_FMASK and IA32_EFER.
abbrev pub syscall_cs_ss_base : ℕ
syscall_cs_ss_base = 1 * 8

abbrev pub sysret_cs_ss_base : ℕ
sysret_cs_ss_base = bit_or (3 * 8) 3

abbrev pub star : ℕ
star = bit_or syscall_cs_ss_base (sysret_cs_ss_base * 2 ^ 16) * 2 ^ 32

abbrev pub fmask : ℕ
fmask =
    bit_or (bit_or 0x400 (bit_or 0x200 (bit_or 0x100 0x40000)))
      (bit_or 0x1 (bit_or 0x4 (bit_or 0x10 (bit_or 0x40 (bit_or 0x80 0x800)))))

abbrev pub efer : ℕ → ℕ
efer before = bit_or before 1

-- `shl rcx, 16; sar rcx, 16`
abbrev pub sign_extended : ℕ → ℕ
sign_extended v =
    let shifted = v * 2 ^ 16 % word in
    if ltb shifted (2 ^ 63) then shifted / 2 ^ 16 else shifted / 2 ^ 16 + (2 ^ 64 - 2 ^ 48)

-- What the instruction `sysretq` does with IA32_STAR, `rcx` and `r11` is the processor's; it gives the
-- selectors.
module _ (sysret_cs sysret_ss : ℕ → ℕ) where
  -- After the test of the trap flag: `pop rcx`, the selector dropped, `pop r11`, `pop rsp`.
  abbrev pub leave_fast : Bool → Machine → List ℕ → Option Resumed
  leave_fast kernel_gs m (rip ∷ cs ∷ rflags ∷ rsp ∷ rest) =
      let rcx_value = sign_extended rip in
      some (record {
        regs = set_reg (set_reg m.regs rcx rcx_value) r11 rflags;
        iret = record {
          rip = rcx_value;
          cs = sysret_cs star;
          rflags = rflags;
          rsp = rsp;
          ss = sysret_ss star;
        };
        kernel_gs = kernel_gs;
        stack = rest;
      })
  leave_fast kernel_gs m other = none

  abbrev pub leave_traced : Bool → Machine → Option Resumed
  leave_traced kernel_gs m =
      iretq kernel_gs (record m { regs = set_reg (set_reg m.regs rcx 0) r11 0 })

  -- `test BYTE PTR [rsp + 17], 1` looks at bit 8 of the saved flags, the trap flag.
  abbrev pub leave : Bool → Machine → List ℕ → Option Resumed
  leave kernel_gs m (rip ∷ cs ∷ rflags ∷ rest) =
      let fast = leave_fast kernel_gs m m.stack in
      if rflags / 2 ^ 8 % 2 == 1 then leave_traced kernel_gs m else fast
  leave kernel_gs m other = none

  -- From the label on; `kernel_gs` says whether the GS base is the kernel's, and `swapgs` exchanges it.
  pub enter_usermode : Bool → Machine → Option Resumed
  enter_usermode kernel_gs m =
      and_then (pop_preserved m)
        (λ m₁. and_then (pop_scratch m₁) (λ m₂. leave (not kernel_gs) m₂ m₂.stack))

  -- The stack of the kernel is empty when it is loaded. `SYSCALL` has put the address of the next
  -- instruction into `rcx` and the flags into `r11`; `rsp` is the program's.
  pub syscall_instruction :
      (Registers → Registers)
      → (InterruptStack → Outcome InterruptStack)
      → Bool
      → Registers
      → ℕ
      → Option Resumed
  syscall_instruction clobber inner kernel_gs regs rsp =
      let frame = regs rcx ∷ user_selector 5 ∷ regs r11 ∷ rsp ∷ user_selector 4 ∷ [] in
      let pushed = push_all (rax ∷ []) (record { regs = regs; stack = frame }) in
      and_then (call_inner clobber inner (push_preserved (push_scratch pushed)))
        (enter_usermode (not kernel_gs))
