-- ===== src/Lib.antt =====
-- A verification library for the miniature kernel and its UEFI bootloader (Rust, x86_64).
--
-- The bootloader takes the machine from the firmware: it lays out the top-level page table with a
-- bookkeeping of its entries, loads the kernel and passes it the memory regions that are in use. The
-- kernel builds its frame allocator from these regions, sets up the interrupt controllers, loads the
-- first program, and runs contexts (tasks) on the processors: a storage of contexts, an allocator of
-- their identifiers, and a scheduler that each processor calls.
--
-- Which file models which part:
--   Base.antt               lists, Boolean tests, and `Outcome`: what a call ends with, a value, a
--                           panic, or a loop that its fuel does not end (`spins`).
--   Frames.antt             kernel/src/mem/frame_allocator.rs: `LinkedRangeIterator` and
--                           `LinearIncFrameAllocator`; regions of shared/src/arg.rs.
--   Contexts/Ids.antt       `ContextIdAllocator` of kernel/src/context/list.rs.
--   Contexts/Context.antt   kernel/src/context/mod.rs, status.rs and signal.rs: one context.
--   Contexts/Storage.antt   `ContextStorage` of kernel/src/context/list.rs.
--   Contexts/Spawn.antt     `ContextStorage::spawn` of kernel/src/context/list.rs.
--   Contexts/Switch.antt    kernel/src/context/switch.rs and cpu.rs: selection and hand-over.
--                           Switch/Registers.antt has the exchange of the registers, by its
--                           instructions.
--   Paging/Tracked.antt     bootloader-efi/src/mem/tracked_mapper.rs: which entries are in use.
--   Paging/Layout.antt      bootloader-efi/src/main.rs, kernel.rs and mem/runtime_map.rs: the entries of
--                           the kernel's top table.
--   BootFrames.antt         bootloader-efi/src/mem/frame_allocator.rs: frames from the firmware's map.
--   UserSpace.antt          kernel/src/mem/user_addr_space.rs: `resolve`; UserSpace/Alloc.antt: `alloc`;
--                           UserSpace/Create.antt: `new` and `setup_kernel`.
--   Errors.antt             libvdso/src/error.rs: the constants, `KError::mux` and `demux`.
--   Handover.antt           bootloader-efi/src/main.rs and mem/runtime_map.rs: the list of regions
--                           that the kernel is told to leave alone.
--   FramebufferWriter.antt  shared/src/framebuffer_writer.rs: text on the screen.
--   Loader.antt             kernel/src/mem/load_elf.rs: `copy_page_and_remap`, `copy_pages_and_write`
--                           and `update_page_flag`. Loader/Segment.antt has the loadable segments,
--                           Loader/Program.antt the relocations and the whole of a file.
--   LocalApic.antt          kernel/src/acpi/local_apic.rs and kernel/src/ipi.rs: the registers in both
--                           modes, and the words of interrupts between processors.
--   KernelLoader.antt       bootloader-efi/src/kernel.rs: the kernel's file is mapped where it stands, and
--                           copied page by page where it is written. KernelLoader/Program.antt is the
--                           function `load_kernel_to_virt_mem`.
--   KernelEntry.antt        kernel/src/syscall.rs and kernel/src/interrupt_macro.rs: the registers on the
--                           way into the kernel and back.
--   IoApic.antt             kernel/src/acpi/io_apic.rs: the routes of the legacy interrupts.
--
-- Names are the source's. A method that takes `&mut self` returns its result and the new state. The
-- arithmetic of `u64` and `usize` is checked (`add64`, `sub64`, `mul64`), as in a debug build: an
-- overflow is a panic. Locks make each call one step; the processors' calls are the steps of a
-- relation. Physical memory, `CR3` and the model-specific registers are values of the state.
--
-- Fuel: `leave_range` gets one round for each address from the position to the end of the range,
-- and every round moves up by at least one; `next_n_fuel` gets one round for each range, and every
-- round passes one; `search_range` gets one round for each entry of a table; `resolve_pages` gets one
-- round for each byte of the buffer, and every round resolves at least one; the
-- fuel of `next_page_unused` is a parameter, which has to exceed the number of mapped pages ahead,
-- and so is that of the loops of `set_icr`, which has to exceed the reads for which a command is pending.
--
-- Code of the x86_64 crate is a parameter: `containing_address`, which aligns an address down, and
-- the records `PageTable` and `Machine` of UserSpace. Loader has the record `Mapper` of a page
-- table with a frame allocator, and its laws in Loader/Remap.antt; a program file is what the crate
-- xmas_elf reads of it. So is what is read from devices, with the record `Device` of LocalApic.antt;
-- the font of FramebufferWriter.antt; and the sort of the core library in Handover.antt. The
-- entry of the range array that the iterator reads without having written it is the parameter
-- `uninit`, of any value.
--
-- KernelLoader takes the same `Mapper`, and the arithmetic on addresses as the record `Addresses`.
-- What a call leaves in the registers is a parameter of KernelEntry, and so is what the instruction
-- SYSRET reads of its register. Of the tests that the instruction IRETQ makes, that of the return
-- address is modelled, and those of the selectors are not.
--
-- Not modelled: the handlers of interrupts and the table of their addresses, output ports, the
-- firmware's protocols, the mappings of mem/runtime_map.rs, of which only the entries of the top
-- table are taken, the start of the other processors, and the pages through which a program sees the
-- stack that `ContextStorage::spawn` makes.

pub mod Base
pub mod Frames
pub mod Contexts
pub mod Paging
pub mod BootFrames
pub mod UserSpace
pub mod IoApic
pub mod Errors
pub mod Handover
pub mod FramebufferWriter
pub mod Loader
pub mod KernelLoader
pub mod LocalApic
pub mod KernelEntry
