-- ===== src/Contexts/Spawn/Starts.antt =====
-- How a context that has been spawned starts its program.
use miniature.Base.{
  ℕ, ◌+◌, ◌-◌, ◌*◌, ◌≡◌, ◌≢◌, refl, sym, ap, ◌∙◌, subst, Bool, true, false, inl, inr, Bool-cases,
  List, [], ◌∷◌, ◌++◌, Option, some, length, ◌==◌, done, >>=-eq-done, done-injective, arith,
}
use miniature.Loader.Remap.{==_self}
use miniature.Contexts.Context
use miniature.Contexts.Context.{
  Context, Root, set_addr_space, set_stack_pointer, regs, interrupt_stack_size,
}
use miniature.Contexts.Storage.{ContextStorage, Reply, ok, err, lookup, put, new_context}
use miniature.Contexts.Storage.Laws.{lookup-put}
use miniature.Contexts.Spawn.{
  Targets, kstack_size, user_kstack, intr_stack, stack_words, with_stack, furnish, spawn,
}
use miniature.KernelEntry.{
  InterruptStack, Reg, rax, rbx, rcx, rdx, rsi, rdi, rbp, r8, r9, r10, r11, r12, r13, r14, r15,
  Registers, words, Resumed,
}
use miniature.KernelEntry.Syscall
use miniature.KernelEntry.Syscall.{init, set_instr_pointer, enter_usermode}
use miniature.KernelEntry.Syscall.Returns.{IsCanonical, enter_usermode-Enters, saved}

-- A fresh context gets the address space, whether it is the current one or not.
set_addr_space-new :
    (current : ℕ) (cr3 : Root) (id addrsp : ℕ) {old : Option ℕ} {c : Context} {cr3' : Root}
    → set_addr_space current cr3 (Context.new id) (some addrsp) ≡ done (old, c, cr3')
    → c ≡ record (Context.new id) { addrsp = some addrsp }
unfolding set_addr_space Context.new
set_addr_space-new current cr3 id addrsp e = elim (Bool-cases (id == current)) [
  | inl here ↦ sym (ap (λ (p : Option ℕ × Context × Root). p.1) (done-injective (rw here at e)))
  | inr other ↦ sym (ap (λ (p : Option ℕ × Context × Root). p.1) (done-injective (rw other at e)))
]

abbrev Answer : Type 0
Answer = Reply ℕ × ContextStorage × Root × List ℕ

answer_of : Reply ℕ → ℕ
answer_of (ok i) = i
answer_of (err e) = e

ok_injective : {i j : ℕ} → ◌≡◌ {A = Reply ℕ} (ok i) (ok j) → i ≡ j
unfolding answer_of
ok_injective e = ap answer_of e

module _ (targets : Targets) where
  -- The structure that the new context's function completes before it returns.
  abbrev pub ready : ℕ → InterruptStack
  ready entry =
      set_instr_pointer (init targets.user_code targets.user_data (intr_stack targets)) entry

  spawned : ℕ → Bool → ℕ → ℕ → ℕ → Context
  spawned stack allowed func id addrsp =
      with_stack targets stack allowed func (record (Context.new id) { addrsp = some addrsp })

  spawn-done :
      (current : ℕ) (cr3 : Root) (stack addrsp : ℕ) (s : ContextStorage) (allowed : Bool) (func : ℕ)
      {id : ℕ} {s' : ContextStorage} {cr3' : Root} {ws : List ℕ}
      → spawn targets current cr3 (some stack) addrsp s allowed func ≡ done (ok id, s', cr3', ws)
      → (lookup id s'.map ≡ some (spawned stack allowed func id addrsp))
        × (ws ≡ stack_words targets allowed func)
  unfolding spawn spawned
  spawn-done current cr3 stack addrsp s allowed func {id} {s'} {cr3'} {ws} e =
      let ((reply, s₁), e₁, f₁) = >>=-eq-done (new_context s) _ e in by_reply reply s₁ f₁
    where
      put_there : (s₁ : ContextStorage) (c : Context) → lookup id (put id c s₁.map) ≡ some c
      put_there s₁ c = lookup-put id id c s₁.map ∙ rw (==_self id) refl

      by_reply :
          (reply : Reply ℕ) (s₁ : ContextStorage)
          → furnish targets current cr3 stack addrsp allowed func reply s₁
            ≡ done (ok id, s', cr3', ws)
          → (lookup id s'.map ≡ some (spawned stack allowed func id addrsp))
            × (ws ≡ stack_words targets allowed func)
      by_reply (err n) s₁ f = absurd (cc)
      by_reply (ok i) s₁ f =
          let ((old, c, root), e₁, f₁) =
            >>=-eq-done (set_addr_space current cr3 (Context.new i) (some addrsp)) _ f in
          let is = done-injective f₁ in
          let same_id : i ≡ id = ok_injective (ap (λ (p : Answer). p.0) is) in
          let c_is = set_addr_space-new current cr3 i addrsp e₁ in
          (
            subst (λ (p : Answer). lookup id p.1.map ≡ some (spawned stack allowed func id addrsp))
                is
                (subst
                  (λ k.
                    lookup id (put k (with_stack targets stack allowed func c) s₁.map)
                    ≡ some (spawned stack allowed func id addrsp))
                  (sym same_id)
                  (put_there s₁ (with_stack targets stack allowed func c)
                    ∙ ap some (
                        ap (with_stack targets stack allowed func) c_is
                        ∙ ap (λ k. spawned stack allowed func k addrsp) same_id))),
            sym (ap (λ (p : Answer). p.3) is),
          )

  no_registers_saved : (entry : ℕ) (r : Reg) → saved (ready entry) r ≡ 0
  unfolding intr_stack init Syscall.set_stack_pointer set_instr_pointer
  no_registers_saved entry rax = refl
  no_registers_saved entry rbx = refl
  no_registers_saved entry rcx = refl
  no_registers_saved entry rdx = refl
  no_registers_saved entry rsi = refl
  no_registers_saved entry rdi = refl
  no_registers_saved entry rbp = refl
  no_registers_saved entry r8 = refl
  no_registers_saved entry r9 = refl
  no_registers_saved entry r10 = refl
  no_registers_saved entry r11 = refl
  no_registers_saved entry r12 = refl
  no_registers_saved entry r13 = refl
  no_registers_saved entry r14 = refl
  no_registers_saved entry r15 = refl

  -- A context that is spawned for a program, with a function that sets up the structure for an entry
  -- point at a canonical address: the context is stored with its registers where `regs` looks for
  -- them, behind the two words that are returned to, the function and `enter_usermode`; from there
  -- the program starts at the entry point with interrupts on, its stack pointer a word below the end
  -- of its view of the stack, its own GS base, and zero in all registers but `rcx` and `r11`.
  pub spawn-enters :
      (sysret_cs sysret_ss : ℕ → ℕ) (current : ℕ) (cr3 : Root) (stack addrsp : ℕ)
      (s : ContextStorage) (func entry : ℕ) (registers : Registers) {id : ℕ} {s' : ContextStorage}
      {cr3' : Root} {ws : List ℕ}
      → IsCanonical entry
      → spawn targets current cr3 (some stack) addrsp s true func ≡ done (ok id, s', cr3', ws)
      → (c : Context) × (lookup id s'.map ≡ some c)
        × (regs c ≡ some (c.ctx_regs.rsp + 16))
        × (c.ctx_regs.rsp + 8 * length ws ≡ stack + kstack_size)
        × (ws ≡ func ∷ targets.enter_usermode ∷ words (intr_stack targets))
        × ((u : Resumed) × (enter_usermode sysret_cs sysret_ss true
                (record { regs = registers; stack = words (ready entry) ++ [] })
              ≡ some u)
            × ((r : Reg) → r ≢ rcx → r ≢ r11 → u.regs r ≡ 0)
            × (u.iret.rip ≡ entry)
            × (u.iret.rflags ≡ 0x200)
            × (u.iret.rsp ≡ user_kstack + kstack_size - 8)
            × (u.kernel_gs ≡ false))
  unfolding spawned with_stack stack_words words intr_stack set_stack_pointer regs init
      Syscall.set_stack_pointer set_instr_pointer
  spawn-enters sysret_cs sysret_ss current cr3 stack addrsp s func entry registers {id} {ws = ws}
        canonical e =
      let (there, words_are) = spawn-done current cr3 stack addrsp s true func e in
      let (u, entered, enters, c, f) =
        enter_usermode-Enters sysret_cs sysret_ss true registers (ready entry) [] canonical in
      (
        spawned stack true func id addrsp,
        there,
        ap some (above stack),
        ap (λ ws. stack + kstack_size - 176 + 8 * length ws) words_are ∙ whole stack,
        words_are,
        (
          u,
          entered,
          λ r a b. enters.regs r a b ∙ no_registers_saved entry r,
          enters.rip,
          enters.rflags,
          enters.rsp,
          enters.kernel_gs,
        ),
      )
    where
      above : (stack : ℕ) → stack + (4096 * 64 - 160) ≡ stack + 4096 * 64 - 176 + 16
      above stack = omega arith

      whole : (stack : ℕ) → stack + 4096 * 64 - 176 + 8 * 22 ≡ stack + 4096 * 64
      whole stack = omega arith
