-- ===== src/Memory.antt =====
-- src/components/memory: the allocators of the compute node and of the memory node, and remote pointers.
pub mod Page
pub mod Classes
pub mod Bounds
pub mod Allocate
pub mod Segments
pub mod Bitmap
pub mod Pointer
pub mod Polymorphic
pub mod Remote
