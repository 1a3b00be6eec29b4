-- ===== src/UserSpace/Create/Examples.antt =====
-- The address space of the first program, whose base is in the entry of the physical memory.
use miniature.Base.{ℕ, ◌+◌, ◌*◌, ◌/◌, ◌≡◌, refl, ap, false, some, done, ◌==◌, if◌then◌else◌, arith}
use miniature.Loader.Remap.{==_self, ==_ne}
use miniature.UserSpace.Alloc.{Machine, UserAddrSpace, alloc}
use miniature.UserSpace.Create.{Tables, new, setup_kernel}
use miniature.UserSpace.Create.First.{new-alloc}
use miniature.UserSpace.Create.Shared.{AreTables, setup_kernel-translates}

-- An entry is the frame before the first of its pages.
abbrev tables : Tables (ℕ → ℕ) ℕ
tables = record {
  entry = λ t i. t i;
  with_entry = λ t i e j. if j == i then e else t j;
  p4_index = λ page. page / 134217728;
  translate = λ t page. some (t (page / 134217728) + page);
}

tables-AreTables : AreTables tables
tables-AreTables = record {
  entry-same = λ t i e. rw (==_self i) refl;
  entry-other = λ t i j e ne. rw (==_ne j i ne) refl;
  by_entry = λ t u page e. ap (λ e. some (e + page)) e;
}

-- The kernel's table maps all memory to itself; the program's first page was mapped to frame 800.
setup_kernel-translates_example :
    tables.translate (setup_kernel tables (λ i. 0) (λ i. 799)) 1 ≡ some 1
setup_kernel-translates_example =
    setup_kernel-translates tables tables-AreTables (λ i. 0) (λ i. 799) 1

abbrev counter : Machine ℕ
counter = record {
  frame_alloc = λ w. (some w, w + 4096);
  virt_addr = λ v. done v;
  is_mapped = λ w v. false;
  map_to = λ page frame w. some w;
}

new_run :
    (s : UserAddrSpace ℕ) × (new counter (λ frame w. w) (λ a. a / 4096 * 4096) 0x800000 0x1000
      ≡ done s)
unfolding new
new_run = (_, refl)

new-alloc_example :
    (s₁ : UserAddrSpace ℕ) × (s₂ : UserAddrSpace ℕ) × (alloc counter 1 new_run.0 40
      ≡ done (record { base = 0x1000; len = 40 }, s₁))
    × (alloc counter 1 s₁ 24 ≡ done (record { base = 0x1000; len = 24 }, s₂))
new-alloc_example =
    new-alloc counter (λ frame w. w) (λ a. a / 4096 * 4096) 0x800000 0x1000 1 40 24 (omega arith)
      refl (omega arith) (omega arith) new_run.1
