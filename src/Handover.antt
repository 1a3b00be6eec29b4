-- ===== src/Handover.antt =====
-- bootloader-efi/src/main.rs and mem/runtime_map.rs: the list of the memory regions that the
-- bootloader reports to the kernel as unavailable.
pub mod Regions
pub mod Handed
mod Examples
use miniature.Base.{
  ℕ, ◌+◌, ◌*◌, Bool, true, false, List, [], ◌∷◌, ◌++◌, Option, none, some, length, ltb, Outcome,
  done, ◌>>=◌, ◌>>◌, assert, mul64,
}
use miniature.Frames.{MemoryRegion, MemoryRegionKind, bootloader, usable, unknown_uefi}
use miniature.BootFrames.{Descriptor, LinearIncFrameAllocator, allocated_region, page_size}
use miniature.Contexts.Context.{Slice}
use miniature.IoApic.{MadtIoApic}

-- The values of the uefi crate's `MemoryType` that the code names; `other` is any other tag.
pub data MemoryType : Type 0 where
  conventional boot_services_code boot_services_data : MemoryType
  runtime_services_code runtime_services_data : MemoryType
  other : ℕ → MemoryType

pub record MemoryDescriptor : Type 0 where
  pub ty : MemoryType
  pub phys_start : ℕ
  pub page_count : ℕ

-- The methods of `RTMemoryRegionDescriptor` for it, in mem/memory_descriptor.rs.
abbrev pub start : MemoryDescriptor → ℕ
start d = d.phys_start

pub len : MemoryDescriptor → Outcome ℕ
len d = mul64 d.page_count page_size

-- `tag` is the number of a type, a field of the crate's.
pub kind : (MemoryType → ℕ) → MemoryDescriptor → MemoryRegionKind
kind tag d = elim d.ty [ conventional ↦ usable | ty ↦ unknown_uefi (tag ty) ]

pub usable_after_bootloader_exit : MemoryType → Bool
usable_after_bootloader_exit conventional = true
usable_after_bootloader_exit boot_services_code = true
usable_after_bootloader_exit boot_services_data = true
usable_after_bootloader_exit runtime_services_code = false
usable_after_bootloader_exit runtime_services_data = false
usable_after_bootloader_exit (other tag) = false

abbrev pub region_count : ℕ
region_count = 512

-- `regions[curr_idx].write(·); curr_idx += 1`, where the list is what has been written.
pub write : List MemoryRegion → MemoryRegion → Outcome (List MemoryRegion)
write regions region = assert (ltb (length regions) region_count) >> done (regions ++ region ∷ [])

abbrev pub reserved : ℕ → ℕ → MemoryRegion
reserved start length = record { start = start; length = length; kind = bootloader }

-- The loop over the memory map.
pub write_entries : List MemoryRegion → List MemoryDescriptor → Outcome (List MemoryRegion)
unfolding usable_after_bootloader_exit
write_entries regions [] = done regions
write_entries regions (rg ∷ rest) = elim (usable_after_bootloader_exit rg.ty) [
  | true ↦ write_entries regions rest
  | false ↦ do
    length ← mul64 rg.page_count page_size
    regions' ← write regions (reserved rg.phys_start length)
    write_entries regions' rest
]

pub write_io_apics : List MemoryRegion → List MadtIoApic → Outcome (List MemoryRegion)
write_io_apics regions [] = done regions
write_io_apics regions (io_apic ∷ rest) =
    write regions (reserved io_apic.address page_size) >>= λ regions'. write_io_apics regions' rest

abbrev pub write_framebuffer : List MemoryRegion → Option Slice → Outcome (List MemoryRegion)
write_framebuffer regions none = done regions
write_framebuffer regions (some fb) = write regions (reserved fb.base fb.len)

-- The region of the bootstrap program has the length of the kernel, as in the source.
pub construct_unsafe_phys_mem_region_map :
    List MemoryDescriptor
    → LinearIncFrameAllocator
    → Option Slice
    → Slice
    → Slice
    → ℕ
    → List MadtIoApic
    → ℕ
    → ℕ
    → Outcome (List MemoryRegion)
construct_unsafe_phys_mem_region_map memory_map frame_allocator framebuffer kernel bootstrap
      lapic_base io_apics gdt kernel_page_table =
    do
      entries ← write_entries [] memory_map
      allocated ← allocated_region frame_allocator
      r₁ ← write entries allocated
      r₂ ← write_framebuffer r₁ framebuffer
      assert (ltb 0 kernel.len)
      r₃ ← write r₂ (reserved kernel.base kernel.len)
      assert (ltb 0 bootstrap.len)
      r₄ ← write r₃ (reserved bootstrap.base kernel.len)
      r₅ ← write r₄ (reserved lapic_base page_size)
      r₆ ← write_io_apics r₅ io_apics
      r₇ ← write r₆ (reserved gdt page_size)
      write r₇ (reserved kernel_page_table page_size)

-- The end of `map_kernel_arg`: two more regions, and the order of the starts. The sort is the
-- core library's `sort_unstable_by_key`.
pub add_kernel_arg :
    (List MemoryRegion → List MemoryRegion)
    → List MemoryRegion
    → Slice
    → LinearIncFrameAllocator
    → Outcome (List MemoryRegion)
add_kernel_arg sort_by_start regions kernel_arg frame_allocator = do
  r₁ ← write regions (reserved kernel_arg.base kernel_arg.len)
  allocated ← allocated_region frame_allocator
  r₂ ← write r₁ allocated
  done (sort_by_start r₂)
