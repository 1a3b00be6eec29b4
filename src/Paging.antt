-- ===== src/Paging.antt =====
-- Page tables: the bootloader's record of used entries, and the user address spaces of the kernel.
pub mod Tracked
pub mod Layout
