-- ===== src/UserSpace/Alloc/Examples.antt =====
-- An address space with its first two pages, on a machine whose frames are numbered upwards.
use miniature.Base.{ltb, ℕ, ◌+◌, refl, false, [], ◌∷◌, some, done, arith}
use miniature.UserSpace.Alloc.{Machine, UserAddrSpace}
use miniature.UserSpace.Alloc.Unused.{Finds, next_page_unused-first}

abbrev counter : Machine ℕ
counter = record {
  frame_alloc = λ w. (some w, w + 4096);
  virt_addr = λ v. done v;
  is_mapped = λ w v. false;
  map_to = λ page frame w. some w;
}

abbrev space : UserAddrSpace ℕ
space = record {
  machine = 0x900000;
  tracked_large_buffers = [];
  tracked_medium_buffers = record { frame = 0x801000; index = 1 } ∷ [];
  medium_buffer_pointer = 0;
  tracked_small_buffers = record { frame = 0x800000; index = 0 } ∷ [];
  small_buffer_pointer = 0;
  consumed_page_count = 2;
  base_address = 0x1000;
}

-- The pages up to the one at 0x5000 are mapped.
abbrev crowded : Machine ℕ
crowded = record counter { is_mapped = λ w v. ltb v 0x6000 }

next_page_unused-first_example : Finds crowded 0x100000 (λ v h. refl) (omega arith) 8 space
next_page_unused-first_example =
    next_page_unused-first crowded 0x100000 (λ v h. refl) (omega arith) 8 space 4 (omega arith)
      (omega arith) refl
