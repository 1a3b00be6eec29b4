-- ===== src/Paging/Layout/Examples.antt =====
-- The sizes of a small machine.
use miniature.Base.{ℕ, ◌+◌, ◌*◌, ◌/◌, ◌≡◌, some, none, done, panic, arith}
use miniature.Contexts.Context.{Slice}
use miniature.Paging.Tracked.{new, four}
use miniature.Paging.Layout.{place_all, place_all-four, table}

-- The start of an entry of the upper half, and a page boundary.
abbrev start_address : ℕ → ℕ
start_address p4 = 0xffff000000000000 + p4 * 0x8000000000

abbrev align_down : ℕ → ℕ
align_down a = a / 4096 * 4096

abbrev bootstrap : Slice
bootstrap = record { base = 0x5000123; len = 0x20000 }

abbrev framebuffer : Slice
framebuffer = record { base = 0x80000000; len = 0x300000 }

abbrev arg : Slice
arg = record { base = 0x7000040; len = 0x3100 }

place_all-four_example :
    (place_all start_address align_down (new four) 0x200000 bootstrap 0x80000 (some framebuffer) arg
      ≡ done (
        record {
          kernel = 0xffffff8000000000;
          bootstrap = 0xffffff0000000123;
          stack = 0xfffffe8000001000;
          framebuffer = some 0xfffffe0000000000;
          arg = 0xfffffd8000000040;
        },
        table 5,
      ))
    × (place_all start_address align_down (new four) 0x200000 bootstrap 0x80000 none arg ≡ panic)
place_all-four_example =
    place_all-four start_address align_down 0x200000 0x80000 bootstrap framebuffer arg
      (omega arith, omega arith) (omega arith, omega arith) (omega arith, omega arith)
      (omega arith, omega arith) (omega arith, omega arith)
