-- ===== src/Handover/Regions.antt =====
-- Which addresses the regions cover.
use mathlib.Core.Logic.{∥∥₁_elim}
use mathlib.Core.List.{Perm, Permᴰ}
use miniature.Base.{
  ℕ, ◌+◌, ◌*◌, ◌≡◌, refl, sym, ap, ◌∙◌, subst, Bool, true, false, not, ◌&&◌, ◌||◌, inl, inr,
  Bool-cases, List, [], ◌∷◌, ◌++◌, Option, none, some, length, ltb, leb, done, >>=-eq-done,
  done-injective, assert, mul64, mul64-done,
}
use miniature.Frames.{MemoryRegion}
use miniature.Frames.Merge.{unavailable, IsSorted}
use mathlib.Core.Bool.{Bool-set}
use miniature.BootFrames.{LinearIncFrameAllocator, allocated_region, page_size}
use miniature.Contexts.Context.{Slice}
use miniature.IoApic.{MadtIoApic}
use miniature.Handover.{
  MemoryDescriptor, usable_after_bootloader_exit, write, write_entries, write_io_apics,
  write_framebuffer, reserved, construct_unsafe_phys_mem_region_map, add_kernel_arg,
}

-- The address lies in a block of some length.
abbrev pub within : ℕ → ℕ → ℕ → Bool
within start length a = leb start a && ltb a (start + length)

abbrev pub in_entries : List MemoryDescriptor → ℕ → Bool
in_entries [] a = false
in_entries (rg ∷ rest) a =
    (not (usable_after_bootloader_exit rg.ty) && within rg.phys_start (rg.page_count * page_size) a)
    || in_entries rest a

abbrev pub in_io_apics : List MadtIoApic → ℕ → Bool
in_io_apics [] a = false
in_io_apics (io ∷ rest) a = within io.address page_size a || in_io_apics rest a

abbrev pub in_framebuffer : Option Slice → ℕ → Bool
in_framebuffer none a = false
in_framebuffer (some fb) a = within fb.base fb.len a

or_assoc : (a b c : Bool) → (a || b) || c ≡ a || (b || c)
or_assoc true b c = refl
or_assoc false b c = refl

or_false : (a : Bool) → a || false ≡ a
or_false true = refl
or_false false = refl

unavailable-append :
    (rs ts : List MemoryRegion) (a : ℕ)
    → unavailable (rs ++ ts) a ≡ unavailable rs a || unavailable ts a
unavailable-append [] ts a = refl
unavailable-append (r ∷ rs) ts a =
    ap (λ b. within r.start r.length a || b) (unavailable-append rs ts a)
    ∙ sym (or_assoc (within r.start r.length a) (unavailable rs a) (unavailable ts a))

-- One write.
pub unavailable-write :
    (regions : List MemoryRegion) (region : MemoryRegion) (a : ℕ) {out : List MemoryRegion}
    → write regions region ≡ done out
    → unavailable out a ≡ unavailable regions a || within region.start region.length a
unfolding write
unavailable-write regions region a e =
    let (u, e₁, e₂) = >>=-eq-done (assert (ltb (length regions) 512)) _ e in
    subst (λ out. unavailable out a ≡ unavailable regions a || within region.start region.length a)
      (done-injective e₂)
      (unavailable-append regions (region ∷ []) a
        ∙ ap (λ b. unavailable regions a || b) (or_false (within region.start region.length a)))

unavailable-write_entries :
    (regions : List MemoryRegion) (map : List MemoryDescriptor) (a : ℕ) {out : List MemoryRegion}
    → write_entries regions map ≡ done out
    → unavailable out a ≡ unavailable regions a || in_entries map a
unfolding write_entries
unavailable-write_entries regions [] a e =
    ap (λ out. unavailable out a) (sym (done-injective e)) ∙ sym (or_false (unavailable regions a))
unavailable-write_entries regions (rg ∷ rest) a e =
    elim (Bool-cases (usable_after_bootloader_exit rg.ty)) [
      | inl kept ↦
          rw kept (unavailable-write_entries regions rest a (rw (write_entries, kept) at e))
      | inr lost ↦
          let (length, e₁, e₂) =
            >>=-eq-done (mul64 rg.page_count page_size) _ (rw (write_entries, lost) at e) in
          let (regions', e₃, e₄) =
            >>=-eq-done (write regions (reserved rg.phys_start length)) _ e₂ in
          let size = (mul64-done rg.page_count page_size e₁).0 in
          rw lost (
            unavailable-write_entries regions' rest a e₄
            ∙ ap (λ b. b || in_entries rest a)
                (unavailable-write regions (reserved rg.phys_start length) a e₃
                  ∙ ap (λ n. unavailable regions a || within rg.phys_start n a) size)
            ∙ or_assoc (unavailable regions a) (within rg.phys_start (rg.page_count * page_size) a)
                (in_entries rest a))
    ]

unavailable-write_io_apics :
    (regions : List MemoryRegion) (io_apics : List MadtIoApic) (a : ℕ) {out : List MemoryRegion}
    → write_io_apics regions io_apics ≡ done out
    → unavailable out a ≡ unavailable regions a || in_io_apics io_apics a
unfolding write_io_apics
unavailable-write_io_apics regions [] a e =
    ap (λ out. unavailable out a) (sym (done-injective e)) ∙ sym (or_false (unavailable regions a))
unavailable-write_io_apics regions (io ∷ rest) a e =
    let (regions', e₁, e₂) = >>=-eq-done (write regions (reserved io.address page_size)) _ e in
    unavailable-write_io_apics regions' rest a e₂
    ∙ ap (λ b. b || in_io_apics rest a)
        (unavailable-write regions (reserved io.address page_size) a e₁)
    ∙ or_assoc (unavailable regions a) (within io.address page_size a) (in_io_apics rest a)

unavailable-write_framebuffer :
    (regions : List MemoryRegion) (fb : Option Slice) (a : ℕ) {out : List MemoryRegion}
    → write_framebuffer regions fb ≡ done out
    → unavailable out a ≡ unavailable regions a || in_framebuffer fb a
unavailable-write_framebuffer regions none a e =
    ap (λ out. unavailable out a) (sym (done-injective e)) ∙ sym (or_false (unavailable regions a))
unavailable-write_framebuffer regions (some fb) a e =
    unavailable-write regions (reserved fb.base fb.len) a e

-- What the kernel is told to leave alone: the address is in an entry of the memory map that the
-- firmware keeps, in the region of the boot allocator, in the framebuffer, in the kernel, in a block
-- of the kernel's length at the bootstrap program, or in a page of the local APIC, an I/O APIC, the
-- descriptor table or the top page table.
abbrev pub is_reserved :
    List MemoryDescriptor
    → MemoryRegion
    → Option Slice
    → Slice
    → Slice
    → ℕ
    → List MadtIoApic
    → ℕ
    → ℕ
    → ℕ
    → Bool
is_reserved map allocated fb kernel bootstrap lapic io_apics gdt table a =
    (((((((in_entries map a || within allocated.start allocated.length a) || in_framebuffer fb a)
              || within kernel.base kernel.len a)
            || within bootstrap.base kernel.len a)
          || within lapic page_size a)
        || in_io_apics io_apics a)
      || within gdt page_size a)
    || within table page_size a

-- The regions of the bootloader, if it returns, cover an address exactly when it is one of these; the
-- block of the bootstrap program has the length of the kernel.
pub construct_unsafe_phys_mem_region_map-is_reserved :
    (map : List MemoryDescriptor) (a₀ : LinearIncFrameAllocator) (fb : Option Slice)
    (kernel bootstrap : Slice) (lapic : ℕ) (io_apics : List MadtIoApic) (gdt table a : ℕ)
    {allocated : MemoryRegion} {out : List MemoryRegion}
    → allocated_region a₀ ≡ done allocated
    → construct_unsafe_phys_mem_region_map map a₀ fb kernel bootstrap lapic io_apics gdt table
      ≡ done out
    → unavailable out a ≡ is_reserved map allocated fb kernel bootstrap lapic io_apics gdt table a
unfolding construct_unsafe_phys_mem_region_map
construct_unsafe_phys_mem_region_map-is_reserved map a₀ fb kernel bootstrap lapic io_apics gdt table
      a {allocated} {out} al e =
    let (r₀, e₀, f₀) = >>=-eq-done (write_entries [] map) _ e in
    let (al', ea, f₁) = >>=-eq-done (allocated_region a₀) _ f₀ in
    let (r₁, e₁, f₂) = >>=-eq-done (write r₀ al') _ f₁ in
    let (r₂, e₂, f₃) = >>=-eq-done (write_framebuffer r₁ fb) _ f₂ in
    let (u, eu, f₄) = >>=-eq-done (assert (ltb 0 kernel.len)) _ f₃ in
    let (r₃, e₃, f₅) = >>=-eq-done (write r₂ (reserved kernel.base kernel.len)) _ f₄ in
    let (v, ev, f₆) = >>=-eq-done (assert (ltb 0 bootstrap.len)) _ f₅ in
    let (r₄, e₄, f₇) = >>=-eq-done (write r₃ (reserved bootstrap.base kernel.len)) _ f₆ in
    let (r₅, e₅, f₈) = >>=-eq-done (write r₄ (reserved lapic page_size)) _ f₇ in
    let (r₆, e₆, f₉) = >>=-eq-done (write_io_apics r₅ io_apics) _ f₈ in
    let (r₇, e₇, e₈) = >>=-eq-done (write r₆ (reserved gdt page_size)) _ f₉ in
    let same : al' ≡ allocated = done-injective (sym ea ∙ al) in
    unavailable-write r₇ (reserved table page_size) a e₈
    ∙ ap (λ b. b || within table page_size a)
        (unavailable-write r₆ (reserved gdt page_size) a e₇
          ∙ ap (λ b. b || within gdt page_size a)
              (unavailable-write_io_apics r₅ io_apics a e₆
                ∙ ap (λ b. b || in_io_apics io_apics a)
                    (unavailable-write r₄ (reserved lapic page_size) a e₅
                      ∙ ap (λ b. b || within lapic page_size a)
                          (unavailable-write r₃ (reserved bootstrap.base kernel.len) a e₄
                            ∙ ap (λ b. b || within bootstrap.base kernel.len a)
                                (unavailable-write r₂ (reserved kernel.base kernel.len) a e₃
                                  ∙ ap (λ b. b || within kernel.base kernel.len a)
                                      (unavailable-write_framebuffer r₁ fb a e₂
                                        ∙ ap (λ b. b || in_framebuffer fb a)
                                            (unavailable-write r₀ al' a e₁
                                              ∙ ap
                                                  (λ r.
                                                    unavailable r₀ a
                                                    || within (MemoryRegion.start r)
                                                        (MemoryRegion.length r) a)
                                                  same
                                              ∙ ap
                                                  (λ b.
                                                    b || within allocated.start allocated.length a)
                                                  (unavailable-write_entries [] map a e₀))))))))

or_swap : (a b c : Bool) → a || (b || c) ≡ b || (a || c)
or_swap true true c = refl
or_swap true false c = refl
or_swap false b c = refl

abbrev inside : ℕ → MemoryRegion → Bool
inside a r = within r.start r.length a

unavailable-permᴰ :
    (a : ℕ) {rs ts : List MemoryRegion} → Permᴰ rs ts → unavailable rs a ≡ unavailable ts a
unavailable-permᴰ a Permᴰ.nil = refl
unavailable-permᴰ a (Permᴰ.cons {a = r} {b = t} {l₁ = rs} {l₂ = ts} e d) =
    ap (λ x. inside a x || unavailable rs a) e ∙ ap (λ b. inside a t || b) (unavailable-permᴰ a d)
unavailable-permᴰ a (Permᴰ.swap {a = r} {b = t} {a' = r'} {b' = t'} {l = l} e₁ e₂) =
    or_swap (inside a r) (inside a t) (unavailable l a)
    ∙ ap (λ x. inside a x || (inside a r || unavailable l a)) e₂
    ∙ ap (λ x. inside a r' || (inside a x || unavailable l a)) e₁
unavailable-permᴰ a (Permᴰ.trans d₁ d₂) = unavailable-permᴰ a d₁ ∙ unavailable-permᴰ a d₂

unavailable-perm :
    (a : ℕ) {rs ts : List MemoryRegion} → Perm rs ts → unavailable rs a ≡ unavailable ts a
unavailable-perm a h = ∥∥₁_elim h (Bool-set _ _) (λ d. unavailable-permᴰ a d)

-- What the documentation of `sort_unstable_by_key` says, with the start as the key.
abbrev pub Sorts : (List MemoryRegion → List MemoryRegion) → Type 0
Sorts sort = (rs : List MemoryRegion) → IsSorted (sort rs) × Perm (sort rs) rs

-- The list that the kernel gets, if the bootloader returns it, is in the order of the starts, and covers
-- an address exactly when the first list, the kernel's argument or the region of the boot allocator
-- does.
pub add_kernel_arg-unavailable :
    (sort : List MemoryRegion → List MemoryRegion) (regions : List MemoryRegion) (arg : Slice)
    (a₀ : LinearIncFrameAllocator) {allocated : MemoryRegion} {out : List MemoryRegion}
    → Sorts sort
    → allocated_region a₀ ≡ done allocated
    → add_kernel_arg sort regions arg a₀ ≡ done out
    → IsSorted out
      × ((a : ℕ)
          → unavailable out a
            ≡ (unavailable regions a || within arg.base arg.len a) || inside a allocated)
unfolding add_kernel_arg
add_kernel_arg-unavailable sort regions arg a₀ {allocated} {out} law al e =
    let (r₁, e₁, f₁) = >>=-eq-done (write regions (reserved arg.base arg.len)) _ e in
    let (al', ea, f₂) = >>=-eq-done (allocated_region a₀) _ f₁ in
    let (r₂, e₂, e₃) = >>=-eq-done (write r₁ al') _ f₂ in
    subst
      (λ out.
        IsSorted out
        × ((a : ℕ)
            → unavailable out a
              ≡ (unavailable regions a || within arg.base arg.len a) || inside a allocated))
      (done-injective e₃)
      (
        (law r₂).0,
        λ a.
            unavailable-perm a (law r₂).1
            ∙ unavailable-write r₁ al' a e₂
            ∙ ap (λ r. unavailable r₁ a || inside a r) (done-injective (sym ea ∙ al))
            ∙ ap (λ b. b || inside a allocated)
                (unavailable-write regions (reserved arg.base arg.len) a e₁),
      )
