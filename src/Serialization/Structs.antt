-- ===== src/Serialization/Structs.antt =====
-- The implementations of `Serialize` for the types of the log and of the snapshot
-- (src/serialization.rs).
use sled.Prelude.{ℕ, ◌+◌, length, ◌==◌, if◌then◌else◌}
use sled.Prelude.Int.{ℤ}
use sled.Prelude.Outcome.{Outcome, ok, err, corruption}
use sled.Prelude.Reader.{Reader, pure, lift, read_at_least, ◌>>=◌}
use sled.Serialization.{Buffer, ◌▸◌, ◌⊕◌, Serialize}
use sled.Serialization.Ints.{u64, i64, u32, u8, non_var_u64, read_byte}
use sled.Serialization.Compose.{option_nonzero_u64, ivec}
use sled.Pagecache.DiskPtr.{DiskPtr, HeapId, inline, heap}
use sled.Pagecache.Message.{MessageHeader, into, from_u8}
use sled.Link.{
  Link, set, replace, del, parent_merge_intention, parent_merge_confirm, child_merge_cap,
}

-- `return Err(Error::corruption(None))`
abbrev corrupt : {A : Type 0} → Reader A
corrupt = lift (err corruption)

-- impl Serialize for BatchManifest, a wrapper of an i64
abbrev pub batch_manifest : Serialize ℤ
batch_manifest = i64

-- impl Serialize for HeapId
abbrev pub heap_id : Serialize HeapId
heap_id = record {
  serialized_size = λ h. ok 16;
  serialize_into = λ h. non_var_u64.serialize_into h.location ▸ i64.serialize_into h.original_lsn;
  deserialize = (do
    location ← non_var_u64.deserialize
    original_lsn ← i64.deserialize
    pure (record { location = location; original_lsn = original_lsn }));
}

-- impl Serialize for DiskPtr
unfoldable pub disk_ptr_size : DiskPtr → Outcome ℕ
disk_ptr_size (inline a) = ok 1 ⊕ u64.serialized_size a
disk_ptr_size (heap a b) = ok 1 ⊕ option_nonzero_u64.serialized_size a ⊕ heap_id.serialized_size b

unfoldable pub write_disk_ptr : DiskPtr → Buffer → Outcome Buffer
write_disk_ptr (inline log_offset) = u8.serialize_into 0 ▸ u64.serialize_into log_offset
write_disk_ptr (heap log_offset id) =
    u8.serialize_into 1 ▸ option_nonzero_u64.serialize_into log_offset ▸ heap_id.serialize_into id

unfoldable pub disk_ptr_body : ℕ → Reader DiskPtr
disk_ptr_body discriminant =
    if discriminant == 0
    then (do log_offset ← u64.deserialize; pure (inline log_offset))
    else if discriminant == 1
    then (do
      log_offset ← option_nonzero_u64.deserialize
      id ← heap_id.deserialize
      pure (heap log_offset id))
    else corrupt

-- A slice of fewer than two bytes is refused.
unfoldable pub read_disk_ptr : Reader DiskPtr
read_disk_ptr = read_at_least 2 (do d ← read_byte; disk_ptr_body d)

abbrev pub disk_ptr : Serialize DiskPtr
disk_ptr = record {
  serialized_size = disk_ptr_size;
  serialize_into = write_disk_ptr;
  deserialize = read_disk_ptr;
}

-- impl Serialize for MessageHeader
abbrev pub message_header : Serialize MessageHeader
message_header = record {
  serialized_size = λ h.
      ok (4 + 1)
      ⊕ u64.serialized_size h.len
      ⊕ u64.serialized_size h.segment_number
      ⊕ u64.serialized_size h.pid;
  serialize_into = λ h.
      u32.serialize_into h.crc32
      ▸ u8.serialize_into (into h.kind)
      ▸ u64.serialize_into h.len
      ▸ u64.serialize_into h.segment_number
      ▸ u64.serialize_into h.pid;
  deserialize = (do
    crc32 ← u32.deserialize
    kind ← u8.deserialize
    len ← u64.deserialize
    segment_number ← u64.deserialize
    pid ← u64.deserialize
    pure (record {
      crc32 = crc32;
      kind = from_u8 kind;
      segment_number = segment_number;
      pid = pid;
      len = len;
    }));
}

-- impl Serialize for Link
unfoldable pub link_size : Link → Outcome ℕ
link_size (set key value) =
    ok 1
    ⊕ u64.serialized_size (length key)
    ⊕ u64.serialized_size (length value)
    ⊕ ok (length key)
    ⊕ ok (length value)
link_size (replace index value) =
    ok 1 ⊕ u64.serialized_size index ⊕ u64.serialized_size (length value) ⊕ ok (length value)
link_size (del index) = ok 1 ⊕ u64.serialized_size index
link_size (parent_merge_intention a) = ok 1 ⊕ u64.serialized_size a
link_size parent_merge_confirm = ok 1
link_size child_merge_cap = ok 1

unfoldable pub write_link : Link → Buffer → Outcome Buffer
write_link (set key value) =
    u8.serialize_into 0 ▸ ivec.serialize_into key ▸ ivec.serialize_into value
write_link (replace index value) =
    u8.serialize_into 5 ▸ u64.serialize_into index ▸ ivec.serialize_into value
write_link (del index) = u8.serialize_into 1 ▸ u64.serialize_into index
write_link (parent_merge_intention pid) = u8.serialize_into 2 ▸ u64.serialize_into pid
write_link parent_merge_confirm = u8.serialize_into 3
write_link child_merge_cap = u8.serialize_into 4

unfoldable pub link_body : ℕ → Reader Link
link_body d =
    if d == 0
    then (do key ← ivec.deserialize; value ← ivec.deserialize; pure (set key value))
    else if d == 5
    then (do index ← u64.deserialize; value ← ivec.deserialize; pure (replace index value))
    else if d == 1
    then (do index ← u64.deserialize; pure (del index))
    else if d == 2
    then (do pid ← u64.deserialize; pure (parent_merge_intention pid))
    else if d == 3
    then pure parent_merge_confirm
    else if d == 4
    then pure child_merge_cap
    else corrupt

abbrev pub link : Serialize Link
link = record {
  serialized_size = link_size;
  serialize_into = write_link;
  deserialize = (do d ← read_byte; link_body d);
}
