-- ===== src/KernelEntry/Interrupt.antt =====
-- `interrupt_stack`, `interrupt` and `interrupt_error` of kernel/src/interrupt_macro.rs. The
-- processor has pushed its five words, and an error code after them where there is one.
pub mod Returns
use miniature.Base.{
  ℕ, ◌+◌, ◌*◌, ◌/◌, ◌%◌, Bool, true, false, not, List, [], ◌∷◌, ◌++◌, Option, none, some, ◌==◌,
  get_or, set, if◌then◌else◌, done,
}
use miniature.KernelEntry.{
  Reg, rax, rbx, rdi, rsi, Registers, set_reg, Machine, push_all, pop_all, and_then, push_scratch,
  pop_scratch, push_preserved, pop_preserved, words, read_stack, InterruptStack, call_inner,
  Resumed, iretq,
}

-- `swapgs` where the last two bits of a word of the stack, the code segment, are not zero. `true` is
-- the GS base of the kernel.
abbrev pub swapgs_iff_ring3 : ℕ → Bool → List ℕ → Bool
swapgs_iff_ring3 index kernel_gs stack =
    if get_or stack index 0 % 4 == 0 then kernel_gs else not kernel_gs

abbrev pub swapgs_iff_ring3_fast : Bool → List ℕ → Bool
swapgs_iff_ring3_fast = swapgs_iff_ring3 1

abbrev pub swapgs_iff_ring3_fast_errorcode : Bool → List ℕ → Bool
swapgs_iff_ring3_fast_errorcode = swapgs_iff_ring3 2

-- The GS base is compared with the address of the kernel's region, and `bl` says whether they are equal.
module _ (base : Bool → ℕ) (pcr : ℕ) where
  abbrev pub set_bl : ℕ → Bool → ℕ
  set_bl value equal = value / 256 * 256 + (if equal then 1 else 0)

  -- `rdi`, `rdx`, `rax` and `rcx` are overwritten; what they get is not used again.
  pub conditional_swapgs_paranoid : (Registers → Registers) → Bool → Machine → Bool × Machine
  conditional_swapgs_paranoid overwrite kernel_gs m =
      let equal = base kernel_gs == pcr in
      (
        if equal then kernel_gs else not kernel_gs,
        record m { regs = set_reg (overwrite m.regs) rbx (set_bl (m.regs rbx) equal) },
      )

abbrev pub conditional_swapgs_back_paranoid : Bool → Machine → Bool
conditional_swapgs_back_paranoid kernel_gs m =
    if m.regs rbx % 256 == 0 then not kernel_gs else kernel_gs

abbrev pub push_frame : Machine → Machine
push_frame m = push_preserved (push_scratch (push_all (rax ∷ []) m))

abbrev pub pop_frame : Machine → Option Machine
pop_frame m = and_then (pop_preserved m) pop_scratch

-- The handler is told whether the GS base is the kernel's.
module _ (clobber : Registers → Registers) where
  pub interrupt_stack : (Bool → InterruptStack → InterruptStack) → Bool → Machine → Option Resumed
  interrupt_stack inner kernel_gs m =
      let gs = swapgs_iff_ring3_fast kernel_gs m.stack in
      and_then (call_inner clobber (λ s. done (inner gs s)) (push_frame m))
        (λ m₁. and_then (pop_frame m₁) (λ m₂. iretq (swapgs_iff_ring3_fast gs m₂.stack) m₂))

  pub interrupt_stack_paranoid :
      (Bool → ℕ)
      → ℕ
      → (Registers → Registers)
      → (Bool → InterruptStack → InterruptStack)
      → Bool
      → Machine
      → Option Resumed
  interrupt_stack_paranoid base pcr overwrite inner kernel_gs m =
      let (gs, swapped) = conditional_swapgs_paranoid base pcr overwrite kernel_gs (push_frame m) in
      and_then (call_inner clobber (λ s. done (inner gs s)) swapped)
        (λ m₁. and_then (pop_frame m₁) (iretq (conditional_swapgs_back_paranoid gs m₁)))

  -- No structure is passed, and the registers that a call preserves are not pushed.
  pub interrupt : Bool → Machine → Option Resumed
  interrupt kernel_gs m =
      let gs = swapgs_iff_ring3_fast kernel_gs m.stack in
      let pushed = push_scratch (push_all (rax ∷ []) m) in
      and_then (pop_scratch (record pushed { regs = clobber pushed.regs }))
        (λ m₂. iretq (swapgs_iff_ring3_fast gs m₂.stack) m₂)

  -- `rax_offset` in words: the error code stands where `rax` belongs.
  abbrev pub rax_offset : ℕ
  rax_offset = 14

  abbrev pub take_error_code : Machine → Machine
  take_error_code m = record {
    regs = set_reg m.regs rsi (get_or m.stack rax_offset 0);
    stack = set m.stack rax_offset (m.regs rax);
  }

  pub interrupt_error :
      (Bool → InterruptStack → ℕ → InterruptStack) → Bool → Machine → Option Resumed
  interrupt_error inner kernel_gs m =
      let gs = swapgs_iff_ring3_fast_errorcode kernel_gs m.stack in
      let taken = take_error_code (push_preserved (push_scratch m)) in
      and_then (call_inner clobber (λ s. done (inner gs s (taken.regs rsi))) taken)
        (λ m₁. and_then (pop_frame m₁) (λ m₂. iretq (swapgs_iff_ring3_fast gs m₂.stack) m₂))
