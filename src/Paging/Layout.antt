-- ===== src/Paging/Layout.antt =====
-- bootloader-efi/src/main.rs, kernel.rs and mem/runtime_map.rs: which entries of the kernel's top
-- table the bootloader gives to the kernel, its stack and its data, and at which addresses they start.
mod Examples
use miniature.Base.{
  add64_fits, ap, ℕ, ◌+◌, ◌-◌, ◌*◌, ◌/◌, ◌^◌, ◌≤◌, ◌<◌, ◌≡◌, refl, sym, ap, ◌∙◌, Bool, true, false,
  List, set, replicate, Option, none, some, ◌==◌, Outcome, done, panic, ◌>>=◌, ◌>>◌, assert,
  or_panic, sub64, arith,
}
use miniature.Contexts.Context.{Slice}
use miniature.Paging.Tracked.{
  TrackedMapper, four, new, mark_as_used, mark_as_unused, previous_available, next_available,
  required_pte_size, total_available_mem_size, find_free_space_and_mark,
}

abbrev pub kernel_bytes_p4 : ℕ
kernel_bytes_p4 = 511

abbrev pub bootstrap_bytes_p4 : ℕ
bootstrap_bytes_p4 = 510

abbrev pub kernel_stack_p4 : ℕ
kernel_stack_p4 = 509

abbrev pub framebuffer_p4 : ℕ
framebuffer_p4 = 508

abbrev pub kernel_arg_p4 : ℕ
kernel_arg_p4 = 507

abbrev pub phys_mem_p4 : ℕ
phys_mem_p4 = 0

-- `find_free_space_and_mark` from the top, and the `assert_eq!` on the entry that it finds.
unfoldable pub take_p4 : TrackedMapper → ℕ → ℕ → Outcome TrackedMapper
take_p4 t size expected = do
  (found, t') ← find_free_space_and_mark t size true
  available_p4pti ← or_panic found
  assert (expected == available_p4pti.0)
  done t'

-- Where the parts start in the kernel's address space.
pub record Layout : Type 0 where
  pub kernel : ℕ
  pub bootstrap : ℕ
  pub stack : ℕ
  pub framebuffer : Option ℕ
  pub arg : ℕ

-- The x86_64 crate computes the start of an entry's addresses and aligns down to a page.
module _ (start_address align_down : ℕ → ℕ) where
  abbrev pub offset_in_page : ℕ → ℕ
  offset_in_page phys_addr = phys_addr - align_down phys_addr

  abbrev pub place_framebuffer : TrackedMapper → Option Slice → Outcome (Option ℕ × TrackedMapper)
  place_framebuffer t none = done (none, t)
  place_framebuffer t (some fb) = take_p4 t fb.len framebuffer_p4 >>= λ t'.
      done (some (start_address framebuffer_p4 + offset_in_page fb.base), t')

  -- In the order of the calls of main; a page below the stack is left as a guard. The call of
  -- `mark_range_as_used` on the kernel's segments is left out: the kernel's entry is in use by then.
  pub place_all :
      TrackedMapper → ℕ → Slice → ℕ → Option Slice → Slice → Outcome (Layout × TrackedMapper)
  place_all t kernel_size bootstrap stack_size framebuffer arg = do
    t₀ ← mark_as_unused t phys_mem_p4
    t₁ ← take_p4 t₀ kernel_size kernel_bytes_p4
    t₂ ← take_p4 t₁ bootstrap.len bootstrap_bytes_p4
    t₃ ← take_p4 t₂ (stack_size + 4096) kernel_stack_p4
    (fb, t₄) ← place_framebuffer t₃ framebuffer
    t₅ ← take_p4 t₄ arg.len kernel_arg_p4
    done (
      record {
        kernel = start_address kernel_bytes_p4;
        bootstrap = start_address bootstrap_bytes_p4 + offset_in_page bootstrap.base;
        stack = start_address kernel_stack_p4 + 4096;
        framebuffer = fb;
        arg = start_address kernel_arg_p4 + offset_in_page arg.base;
      },
      t₅,
    )

-- A part takes one entry of 512 GiB.
abbrev pub OneEntry : ℕ → Type 0
OneEntry size = (1 ≤ size) × (size ≤ 2 ^ 39)

one_entry : (size : ℕ) → OneEntry size → required_pte_size four size ≡ done 1
unfolding total_available_mem_size
one_entry size h =
    let count : (size + (2 ^ 39 - 1)) / 2 ^ 39 ≡ 1 = omega (arith, h.0, h.1) in
    rw (add64_fits size (2 ^ 39 - 1) (omega (arith, h.1))) (ap done count)

-- The table after the first `taken` of the entries from the top down have been taken.
abbrev pub used_after : ℕ → List Bool
used_after n = elim n [
  | Prim.Native.Nat.zero ↦ replicate 512 false
  | Prim.Native.Nat.suc (k → rest) ↦ set rest (511 - k) true
]

abbrev pub table : ℕ → TrackedMapper
table taken = record {
  level = four;
  used = used_after taken;
  first_available_index = 0;
  last_available_index = 511 - taken;
}

take_first : (size : ℕ) → OneEntry size → take_p4 (table 0) size 511 ≡ done (table 1)
unfolding take_p4 find_free_space_and_mark mark_as_used previous_available next_available
take_first size h = rw (find_free_space_and_mark, one_entry size h) refl

take_second : (size : ℕ) → OneEntry size → take_p4 (table 1) size 510 ≡ done (table 2)
unfolding take_p4 find_free_space_and_mark mark_as_used previous_available next_available
take_second size h = rw (find_free_space_and_mark, one_entry size h) refl

take_third : (size : ℕ) → OneEntry size → take_p4 (table 2) size 509 ≡ done (table 3)
unfolding take_p4 find_free_space_and_mark mark_as_used previous_available next_available
take_third size h = rw (find_free_space_and_mark, one_entry size h) refl

take_fourth :
    (size : ℕ)
    → OneEntry size
    → (take_p4 (table 3) size 508 ≡ done (table 4)) × (take_p4 (table 3) size 507 ≡ panic)
unfolding take_p4 find_free_space_and_mark mark_as_used previous_available next_available
take_fourth size h = (
  rw (find_free_space_and_mark, one_entry size h) refl,
  rw (find_free_space_and_mark, one_entry size h) refl,
)

take_fifth : (size : ℕ) → OneEntry size → take_p4 (table 4) size 507 ≡ done (table 5)
unfolding take_p4 find_free_space_and_mark mark_as_used previous_available next_available
take_fifth size h = rw (find_free_space_and_mark, one_entry size h) refl

start_table : mark_as_unused (new four) 0 ≡ done (table 0)
unfolding new mark_as_unused
start_table = refl

module _ (start_address align_down : ℕ → ℕ) where
  -- On a new table, for parts of up to 512 GiB: with a framebuffer, each part gets the entry that the
  -- kernel expects, starts in it at its offset in its page, the stack after its guard, and five
  -- entries are used; without a framebuffer the bootloader panics at the kernel's argument.
  pub place_all-four :
      (kernel_size stack_size : ℕ) (bootstrap framebuffer arg : Slice)
      → OneEntry kernel_size
      → OneEntry bootstrap.len
      → OneEntry (stack_size + 4096)
      → OneEntry framebuffer.len
      → OneEntry arg.len
      → (place_all start_address align_down
            (new four)
            kernel_size
            bootstrap
            stack_size
            (some framebuffer)
            arg
          ≡ done (
            record {
              kernel = start_address 511;
              bootstrap = start_address 510 + (bootstrap.base - align_down bootstrap.base);
              stack = start_address 509 + 4096;
              framebuffer =
                  some (start_address 508 + (framebuffer.base - align_down framebuffer.base));
              arg = start_address 507 + (arg.base - align_down arg.base);
            },
            table 5,
          ))
        × (place_all start_address align_down (new four) kernel_size bootstrap stack_size none arg
            ≡ panic)
  unfolding place_all
  place_all-four kernel_size stack_size bootstrap framebuffer arg k b s f a = (
    rw
        (
          start_table,
          take_first kernel_size k,
          take_second bootstrap.len b,
          take_third (stack_size + 4096) s,
          (take_fourth framebuffer.len f).0,
          take_fifth arg.len a,
        )
        refl,
    rw
        (
          start_table,
          take_first kernel_size k,
          take_second bootstrap.len b,
          take_third (stack_size + 4096) s,
          (take_fourth arg.len a).1,
        )
        refl,
  )
