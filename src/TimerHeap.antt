-- ===== src/TimerHeap.antt =====
-- timer_heap<T> of cotamer/timer_heap.hh (and its copy in pset2/detail).
pub mod Array
pub mod Defs
pub mod Order
pub mod Up
pub mod Down
pub mod Cull
pub mod Ops
pub mod Emplace
mod Tests
