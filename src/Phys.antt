-- ===== src/Phys.antt =====
-- kernel/mem/phys.c, the physical page allocator.
pub mod Layout
pub mod Blocks
pub mod Region
pub mod FreeMemory
pub mod Levels
pub mod Buddy
pub mod Fill
pub mod Allocator
pub mod Pages
mod Examples
