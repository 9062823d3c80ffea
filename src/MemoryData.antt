-- ===== src/MemoryData.antt =====
-- services/memory_data.py, the memory of fields and values, and its collection.
pub mod Sources
pub mod Store
pub mod Empty
pub mod RoundTrip
pub mod Strategy
pub mod Service
pub mod Normal
pub mod ReadBack
pub mod Filters
pub mod Shown
mod Tests
