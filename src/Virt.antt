-- ===== src/Virt.antt =====
-- kernel/mem/virt.c, the virtual memory of the kernel.
pub mod Pages
pub mod Tables
pub mod Mapping
pub mod Shadow
pub mod Grow
pub mod Walk
pub mod Write
pub mod Ranges
pub mod Map
pub mod MapRange
pub mod AllocPage
pub mod AllocRange
pub mod Query
pub mod RemapRange
pub mod PageFault
pub mod Demand
pub mod Init
pub mod Booted
pub mod Examples
