-- ===== src/Pagecache.antt =====
-- src/pagecache/: the pointers to disk, the heap's slabs, the header of an I/O buffer, the recovered
-- snapshot and the segment accountant.
pub mod DiskPtr
pub mod Message
pub mod Header
pub mod Heap
pub mod PageState
pub mod Snapshot
pub mod Segment
pub mod Cleaner
pub mod Accountant
pub mod Tip
pub mod Stability
pub mod SegmentHeader
pub mod IoBuf
