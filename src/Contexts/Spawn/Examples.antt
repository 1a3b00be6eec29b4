-- ===== src/Contexts/Spawn/Examples.antt =====
-- The first context for a program.
use miniature.Base.{
  ℕ, ◌+◌, ◌-◌, ◌*◌, ◌≡◌, ◌≢◌, refl, inl, true, false, List, [], ◌∷◌, ◌++◌, some, length, done,
  arith,
}
use miniature.Contexts.Ids
use miniature.Contexts.Context
use miniature.Contexts.Context.{
  Context, Root, kernel_table, set_addr_space, set_stack_pointer, regs,
}
use miniature.Contexts.Storage
use miniature.Contexts.Storage.{ContextStorage, Reply, ok, lookup, put, insert_context, new_context}
use miniature.Contexts.Spawn.{
  Targets, kstack_size, user_kstack, intr_stack, stack_words, with_stack, spawn,
}
use miniature.Contexts.Spawn.Starts.{ready, spawn-enters}
use miniature.KernelEntry.{Reg, rcx, r11, words, Resumed}
use miniature.KernelEntry.Syscall.{enter_usermode}

abbrev targets : Targets
targets = record { enter_usermode = 0x1234; user_code = 43; user_data = 35 }

spawn_run :
    (s' : ContextStorage) × (root : Root) × (ws : List ℕ) × (spawn targets 0 kernel_table
        (some 0x200000)
        5
        (Storage.new 0)
        true
        0x99
      ≡ done (ok 1, s', root, ws))
unfolding spawn new_context Storage.new Ids.new Ids.alloc insert_context set_addr_space Context.new
    lookup put with_stack stack_words intr_stack words
spawn_run = (_, _, _, refl)

spawn-enters_example :
    (c : Context) × (lookup 1 spawn_run.0.map ≡ some c)
    × (regs c ≡ some (c.ctx_regs.rsp + 16))
    × (c.ctx_regs.rsp + 8 * length spawn_run.2 ≡ 0x200000 + kstack_size)
    × (spawn_run.2 ≡ 0x99 ∷ 0x1234 ∷ words (intr_stack targets))
    × ((u : Resumed) × (enter_usermode
            (λ star. 43)
            (λ star. 35)
            true
            (record { regs = λ r. 77; stack = words (ready targets 0x401000) ++ [] })
          ≡ some u)
        × ((r : Reg) → r ≢ rcx → r ≢ r11 → u.regs r ≡ 0)
        × (u.iret.rip ≡ 0x401000)
        × (u.iret.rflags ≡ 0x200)
        × (u.iret.rsp ≡ user_kstack + kstack_size - 8)
        × (u.kernel_gs ≡ false))
spawn-enters_example =
    spawn-enters targets (λ star. 43) (λ star. 35) 0 kernel_table 0x200000 5 (Storage.new 0) 0x99
      0x401000 (λ r. 77) (inl (omega arith)) spawn_run.3
