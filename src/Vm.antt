-- ===== src/Vm.antt =====
-- The virtual machine, `RuntimeContext` of core/src/runtime.cpp.
pub mod State
pub mod Host
pub mod Arithmetic
pub mod Comparison
pub mod Conversion
pub mod Variables
pub mod Objects
pub mod Calls
pub mod Classes
pub mod Exceptions
pub mod Natives
pub mod Tuples
pub mod Release
pub mod Control
pub mod Engine
pub mod Frames
pub mod Words
pub mod Subtraction
pub mod Unwinding
pub mod Elements
pub mod Division
pub mod Inheritance
pub mod Counting
pub mod Closures
pub mod LastReference
pub mod Tests
