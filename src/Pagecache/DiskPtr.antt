-- ===== src/Pagecache/DiskPtr.antt =====
-- `HeapId` of src/pagecache/heap.rs and `DiskPtr` of src/pagecache/disk_pointer.rs.
use sled.Prelude.{ℕ, Option, none, some, Bool, true, false, if◌then◌else◌, ◌==◌}
use sled.Prelude.Int.{ℤ}
use sled.Prelude.Outcome.{Outcome, ok, panic}

pub record HeapId : Type 0 where
  pub location : ℕ
  pub original_lsn : ℤ

-- The offset of a heap item's log entry is `Some(NonZeroU64)`, here the number itself.
pub data DiskPtr : Type 0 where
  inline : ℕ → DiskPtr
  heap : Option ℕ → HeapId → DiskPtr

unfoldable pub new_inline : ℕ → DiskPtr
new_inline l = inline l

-- `NonZeroU64::new(lid).unwrap()`
unfoldable pub new_heap_item : ℕ → HeapId → Outcome DiskPtr
new_heap_item lid id = if lid == 0 then panic else ok (heap (some lid) id)

unfoldable pub is_inline : DiskPtr → Bool
is_inline (inline lid) = true
is_inline (heap lid id) = false

unfoldable pub is_heap_item : DiskPtr → Bool
is_heap_item (inline lid) = false
is_heap_item (heap lid id) = true

unfoldable pub heap_id : DiskPtr → Option HeapId
heap_id (inline lid) = none
heap_id (heap lid id) = some id

unfoldable pub lid : DiskPtr → Option ℕ
lid (inline l) = some l
lid (heap l id) = l

unfoldable pub forget_heap_log_coordinates : DiskPtr → DiskPtr
forget_heap_log_coordinates (inline l) = inline l
forget_heap_log_coordinates (heap l id) = heap none id

unfoldable pub original_lsn : DiskPtr → Outcome ℤ
original_lsn (inline l) = panic
original_lsn (heap l id) = ok id.original_lsn

unfoldable pub heap_pointer_merged_into_snapshot : DiskPtr → Bool
heap_pointer_merged_into_snapshot (heap none id) = true
heap_pointer_merged_into_snapshot _ = false
