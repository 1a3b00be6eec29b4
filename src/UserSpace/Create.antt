-- ===== src/UserSpace/Create.antt =====
-- `UserAddrSpace::new` and `setup_kernel` of kernel/src/mem/user_addr_space.rs.
pub mod Shared
pub mod First
mod Examples
use miniature.Base.{
  ℕ, ◌+◌, ◌*◌, ◌%◌, Bool, true, false, ◌||◌, List, [], ◌∷◌, Option, none, some, ◌==◌, Outcome, done,
  ◌>>=◌, ◌>>◌, assert, or_panic, add64, mul64,
}
use miniature.UserSpace.{page_size}
use miniature.UserSpace.Alloc.{Machine, UserAddrSpace, take_frame, map_page}
use miniature.Paging.Layout.{
  kernel_bytes_p4, bootstrap_bytes_p4, kernel_stack_p4, framebuffer_p4, phys_mem_p4,
}

-- Before the first frames are taken.
abbrev pub bare : {W : Type 0} → W → ℕ → UserAddrSpace W
bare w base = record {
  machine = w;
  tracked_large_buffers = [];
  tracked_medium_buffers = [];
  medium_buffer_pointer = 0;
  tracked_small_buffers = [];
  small_buffer_pointer = 0;
  consumed_page_count = 2;
  base_address = base;
}

-- `write_table` writes an empty table to a frame and takes it for the address space's.
module _ {W : Type 0} (m : Machine W) (write_table : ℕ → W → W) (containing_address : ℕ → ℕ) where
  -- `map_to` of the page `index`, and `or_panic`.
  abbrev pub map_initial : ℕ → ℕ → UserAddrSpace W → Outcome (UserAddrSpace W)
  map_initial index frame s = do
    offset ← mul64 index page_size
    addr ← add64 s.base_address offset
    virt_addr ← m.virt_addr addr
    map_page m (containing_address virt_addr) frame s

  unfoldable pub new : W → ℕ → Outcome (UserAddrSpace W)
  new w base = do
    assert (base % page_size == 0)
    (pml4_frame, s₀) ← take_frame m (bare w base)
    let written = record s₀ { machine = write_table pml4_frame s₀.machine }
    (small_init_frame, s₁) ← take_frame m written
    (medium_init_frame, s₂) ← take_frame m s₁
    s₃ ← map_initial 0 small_init_frame s₂
    s₄ ← map_initial 1 medium_init_frame s₃
    done (record s₄ {
      tracked_medium_buffers = record { frame = medium_init_frame; index = 1 } ∷ [];
      tracked_small_buffers = record { frame = small_init_frame; index = 0 } ∷ [];
    })

-- The top tables: their entries, and the frame of a page. A page is the number of its first byte
-- divided by 4096.
pub record Tables (T E : Type 0) : Type 0 where
  pub entry : T → ℕ → E
  pub with_entry : T → ℕ → E → T
  pub p4_index : ℕ → ℕ
  pub translate : T → ℕ → Option ℕ

module _ {T E : Type 0} (x : Tables T E) where
  abbrev pub clone_entry : T → ℕ → T → T
  clone_entry kernel index t = x.with_entry t index (x.entry kernel index)

  pub setup_kernel : T → T → T
  setup_kernel kernel t₀ =
      let t₁ = clone_entry kernel kernel_bytes_p4 t₀ in
      let t₂ = clone_entry kernel bootstrap_bytes_p4 t₁ in
      let t₃ = clone_entry kernel kernel_stack_p4 t₂ in
      let t₄ = clone_entry kernel framebuffer_p4 t₃ in clone_entry kernel phys_mem_p4 t₄
