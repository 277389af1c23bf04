-- ===== src/Memory.antt =====
-- The heap of the runtime, core/include/solix/runtime.hpp and `Memory` of core/src/runtime.cpp.
pub mod BlockTag
pub mod Heap
pub mod FreeLists
pub mod State
pub mod References
pub mod Allocate
pub mod Deallocate
pub mod Blocks
pub mod Tiling
pub mod Stored
pub mod FreeSpace
pub mod Allocation
pub mod AllocateSafe
pub mod Limits
pub mod Release
pub mod Weak
pub mod DeallocateSafe
pub mod Tests
