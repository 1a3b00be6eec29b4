-- ===== src/Contexts/Ids.antt =====
-- `ContextIdAllocator` of kernel/src/context/list.rs. Its spin lock makes each call one step.
pub mod Ledger
use miniature.Base.{
  ℕ, ◌+◌, Bool, List, [], ◌∷◌, ◌++◌, member, if◌then◌else◌, Outcome, done, ◌>>=◌, add64,
}

pub record ContextIdAllocator : Type 0 where
  pub head : ℕ
  pub recycled : List ℕ

unfoldable pub new : ℕ → ContextIdAllocator
new init_id_exclusive = record { head = init_id_exclusive; recycled = [] }

-- The result is `id`, or 0 if the identifier waits in the queue already.
unfoldable pub dealloc : ContextIdAllocator → ℕ → ℕ × ContextIdAllocator
dealloc a id =
    if member a.recycled id then (0, a) else (id, record a { recycled = a.recycled ++ id ∷ [] })

unfoldable pub alloc : ContextIdAllocator → Outcome (ℕ × ContextIdAllocator)
alloc a = elim a.recycled [
  | [] ↦ add64 a.head 1 >>= λ head. done (head, record a { head = head })
  | id ∷ queue ↦ done (id, record a { recycled = queue })
]
