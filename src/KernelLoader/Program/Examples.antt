-- ===== src/KernelLoader/Program/Examples.antt =====
-- A kernel with code, data that is relocated, thread local storage and a read-only part.
use miniature.Base.{
  ℕ, ◌+◌, ◌-◌, ◌*◌, ◌/◌, ◌%◌, ◌^◌, ◌≤◌, ◌≡◌, refl, sym, true, false, inr, List, [], ◌∷◌, Option,
  some, none, ltb, leb, if◌then◌else◌, done, arith, Bool,
}
use mathlib.Core.Option.{some-injective}
use miniature.Paging.Tracked.{
  four, new, mark_as_used, mark_entries, mark_range_as_used, previous_available, next_available,
  find_free_space_and_mark, total_available_mem_size,
}
use miniature.Paging.Layout.{take_p4}
use miniature.Loader.{page_span}
use miniature.Loader.Remap.{view}
use miniature.Loader.Examples.{Entry, mapper, mapper-IsMapper, next_frame, next_high}
use miniature.Loader.Segment.{ShType, load, dynamic, gnu_relro, tls, ProgramHeader}
use miniature.Loader.Segment.Fresh.{among}
use miniature.Loader.Segment.Pages.{KeepsOut}
use miniature.Loader.Segment.Contents.{rounded}
use miniature.Loader.Segment.Loaded.{Loads}
use miniature.Loader.Program.{rela, rela_size, rela_ent, virt_bounds, virt_space, read_dynamic}
use miniature.KernelLoader.{
  Image, Addresses, remap_to_copy, copy_page_and_remap, write_page, write_pages,
  copy_pages_and_write, update_page_flag, map_file_frames, map_zeroed, map_bss_pages, Placed,
  clear_file_end, clear_bss, shifted, place_segment, load_placed, mask_range,
}
use miniature.KernelLoader.Files.{space, Intact}
use miniature.KernelLoader.Segments.{AreAddresses, moved, load_placed-Loads}
use miniature.KernelLoader.Program.{
  pos, sub_i128, LoadKernel, executable, KernelFile, apply_rela, apply_relas, load_dynamic,
  mark_placed, load_header, load_headers, clear_mark, clear_marks, load_at, load_kernel_to_virt_mem,
}
use miniature.KernelLoader.Program.Kept.{load_kernel_to_virt_mem-keeps}
use miniature.KernelLoader.Program.Result.{
  add_i128, last_tls, Describes, load_kernel_to_virt_mem-told, place_segment-in_space,
}

abbrev difference : ℕ → ℕ → Option ℕ
difference a n = if leb n a then some (a - n) else none

-- The entries of the upper half have their sign extended.
abbrev addresses : Addresses
addresses = record {
  virt_add = λ a n. some (a + n);
  virt_sub = difference;
  phys_add = λ a n. some (a + n);
  phys_sub = difference;
  pt_index = λ level a. a / 2 ^ 39 % 512;
  p4_start = λ i. if ltb i 256 then i * 2 ^ 39 else 2 ^ 64 - 2 ^ 48 + i * 2 ^ 39;
  align_up = rounded;
}

addresses-AreAddresses : AreAddresses addresses
addresses-AreAddresses = record {
  virt_add = λ a n h. sym (some-injective (a + n) _ h);
  virt_sub = λ a n h. less a n h;
  phys_add = λ a n h. sym (some-injective (a + n) _ h);
  phys_sub = λ a n h. less a n h;
  align_up = λ a. refl;
}
  where
    less : (a n : ℕ) {b : ℕ} → difference a n ≡ some b → b + n ≡ a
    less a n h = ground arith

abbrev header : ShType → ℕ → ℕ → ℕ → Bool → ProgramHeader
header ty offset file_size mem_size is_write = record {
  ty = ty;
  offset = offset;
  virtual_addr = 0x200000 + offset;
  file_size = file_size;
  mem_size = mem_size;
  is_execute = false;
  is_write = is_write;
}

abbrev data_segment : ProgramHeader
data_segment = header load 0x1000 0x800 0x1800 true

abbrev kernel : KernelFile
kernel = record {
  elf = record {
    len = 0x1800;
    phys_addr = 0x10000;
    rela_at =
        λ index. record { symbol_table_index = 0; ty = 8; offset = 0x201010; addend = 0x200123 };
    entries = (rela, 0x201200) ∷ (rela_size, 24) ∷ (rela_ent, 24) ∷ [];
    program_headers =
        header load 0 0x1000 0x1000 false
        ∷ data_segment
        ∷ header dynamic 0x1100 0x100 0x100 true
        ∷ header tls 0x1400 0x10 0x20 true
        ∷ header gnu_relro 0x1000 0x100 0x100 false
        ∷ [];
    entry_point = 0x200040;
  };
  is_sane = true;
  ty = executable;
}

abbrev empty_image : Image (List Entry)
empty_image = record { tracked = new four; page_table = []; memory = λ frame offset. frame }

abbrev kernel_start : ℕ
kernel_start = 0xffffff8000000000

kernel_run :
    (r : LoadKernel) × (im : Image (List Entry)) × (load_kernel_to_virt_mem mapper addresses kernel
        empty_image
      ≡ done (r, im))
    × (r.kernel_entry ≡ kernel_start + 0x40)
    × (view mapper (space im) (kernel_start / 4096 + 1) 0x11 ≡ some 1)
    × (im.memory 17 0x11 ≡ 17)
unfolding load_kernel_to_virt_mem load_at clear_marks clear_mark load_headers load_header
    mark_placed mark_range_as_used mark_entries mark_as_used load_dynamic apply_relas apply_rela
    read_dynamic virt_space virt_bounds take_p4 find_free_space_and_mark total_available_mem_size
    previous_available next_available new place_segment shifted load_placed mask_range
    map_file_frames clear_bss clear_file_end map_bss_pages map_zeroed copy_pages_and_write
    write_pages write_page page_span copy_page_and_remap remap_to_copy update_page_flag sub_i128
kernel_run = (_, _, refl, refl, refl, refl)

keeps_out : KeepsOut mapper mapper-IsMapper 16 2
keeps_out s f h = inr (above s f (some-injective (next_frame s) f h))
  where
    above : (s : List Entry) (f : ℕ) → next_frame s ≡ f → 18 ≤ f
    above s f e = omega (arith, next_high s)

empty-Intact : Intact mapper 16 2 empty_image.memory empty_image
empty-Intact = record {
  owns = λ p f fl at b q g fl' ne at'. cc;
  outside = λ p f fl at b. cc;
  kept = λ f offset a. refl;
}

load_kernel_to_virt_mem-keeps_example : kernel_run.1.memory 17 0x11 ≡ 17
load_kernel_to_virt_mem-keeps_example =
    load_kernel_to_virt_mem-keeps mapper mapper-IsMapper addresses addresses-AreAddresses kernel
      empty_image 17 0x11 refl (omega arith)
      (λ sane. (omega arith, (omega arith, (omega arith, (omega arith, (omega arith, tt))))))
      keeps_out (λ p f fl at. cc) kernel_run.2

load_kernel_to_virt_mem-told_example :
    (defined_start : ℕ) × (size : ℕ) × (virt_space kernel.elf.program_headers
      ≡ done (defined_start, size))
    × (kernel_run.0.kernel_virt_space_offset ≡ sub_i128 kernel_start defined_start)
    × (add_i128 kernel_run.0.kernel_virt_space_offset 0x200040 ≡ pos kernel_run.0.kernel_entry)
    × Describes kernel_run.0.kernel_virt_space_offset
        (last_tls none kernel.elf.program_headers)
        kernel_run.0.tls_template
load_kernel_to_virt_mem-told_example =
    load_kernel_to_virt_mem-told mapper addresses addresses-AreAddresses kernel empty_image
      kernel_run.2

abbrev placed : Placed
placed = record {
  bytes_start = 0x11000;
  bytes_last = 0x117ff;
  seg_start = kernel_start + 0x1000;
  file_end = kernel_start + 0x1800;
  mem_end = kernel_start + 0x2800;
  mem_last = kernel_start + 0x27ff;
}

placed_run : place_segment addresses 0x10000 kernel_start 0x200000 data_segment ≡ done placed
unfolding place_segment shifted
placed_run = refl

segment_run :
    (im : Image (List Entry)) × (load_placed mapper addresses empty_image data_segment placed
      ≡ done im)
unfolding load_placed map_file_frames clear_bss clear_file_end map_bss_pages map_zeroed
    copy_page_and_remap remap_to_copy
segment_run = (_, refl)

load_placed-Loads_example :
    Intact mapper 16 2 empty_image.memory segment_run.0
    × Loads mapper mapper-IsMapper
        (space empty_image)
        0x11000
        (moved data_segment (kernel_start + 0x1000))
        (space segment_run.0)
load_placed-Loads_example =
    load_placed-Loads mapper mapper-IsMapper 16 2 empty_image.memory addresses
      addresses-AreAddresses empty_image data_segment 0x10000 kernel_start 0x200000 placed refl
      (omega arith) (λ f a. second_frame f a) keeps_out empty-Intact placed_run segment_run.1
  where
    second_frame : (f : ℕ) → among 17 1 f ≡ true → among 16 2 f ≡ true
    second_frame f a = ground arith

space_run : virt_space kernel.elf.program_headers ≡ done (0x200000, 0x2800)
unfolding virt_space virt_bounds
space_run = refl

place_segment-in_space_example :
    (kernel_start ≤ kernel_start + 0x1000) × (kernel_start + 0x2800 ≤ kernel_start + 0x2800)
place_segment-in_space_example =
    place_segment-in_space addresses (header load 0 0x1000 0x1000 false ∷ [])
      (header dynamic 0x1100 0x100 0x100 true
        ∷ header tls 0x1400 0x10 0x20 true
        ∷ header gnu_relro 0x1000 0x100 0x100 false
        ∷ [])
      data_segment 0x10000 kernel_start addresses-AreAddresses space_run refl placed_run
