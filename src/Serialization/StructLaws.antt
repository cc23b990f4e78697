-- ===== src/Serialization/StructLaws.antt =====
-- `HeapId`, `DiskPtr`, `MessageHeader` and `Link` satisfy the laws of `Lawful`
-- (src/serialization.rs).
use sled.Prelude.{ℕ, ◌+◌, ◌≡◌, refl, ap, ◌∙◌, arith, List, ◌∷◌, ◌++◌, length, length-append}
use sled.Prelude.Outcome.{ok}
use sled.Prelude.Bytes.{IsU64}
use sled.Prelude.Reader.{Reads, Reads-last, Reads-bind, Reads-at_least}
use sled.Serialization.Rules.{Writes, Writes-▸, Lawful, length-encoding, ⊕-eq-ok}
use sled.Serialization.Ints.{u64, i64, non_var_u64, read_byte}
use sled.Serialization.IntLaws.{
  u64-Lawful, i64-Lawful, non_var_u64-Lawful, IsI64, Reads-byte, Writes-u8,
}
use sled.Serialization.Compose.{option_nonzero_u64}
use sled.Serialization.ComposeLaws.{option_nonzero_u64-Lawful, IsNonZeroU64}
use sled.Serialization.TupleLaws.{length-u64, u64_some_byte}
use sled.Serialization.Structs.{
  heap_id, disk_ptr, disk_ptr_size, write_disk_ptr, disk_ptr_body, read_disk_ptr,
}
use sled.Pagecache.DiskPtr.{DiskPtr, HeapId, inline, heap}

pub length-append_bytes : (xs ys : List ℕ) → length (xs ++ ys) ≡ length xs + length ys
length-append_bytes xs ys = length-append xs ys

abbrev pub IsHeapId : HeapId → Type 0
IsHeapId h = IsU64 h.location × IsI64 h.original_lsn

pub heap_id-Lawful : Lawful heap_id IsHeapId
heap_id-Lawful = record {
  encoding = λ h. non_var_u64-Lawful.encoding h.location ++ i64-Lawful.encoding h.original_lsn;
  size = λ h v. ap ok (
      omega (
        arith,
        length-append_bytes,
        length-encoding non_var_u64-Lawful h.location 8 v.0 refl,
        length-encoding i64-Lawful h.original_lsn 8 v.1 refl,
      ));
  writes = λ h v.
      Writes-▸ (non_var_u64-Lawful.writes h.location v.0) (i64-Lawful.writes h.original_lsn v.1);
  reads = λ h v. Reads-bind non_var_u64.deserialize _ (non_var_u64-Lawful.reads h.location v.0) (
      Reads-last i64.deserialize (λ lsn. record { location = h.location; original_lsn = lsn })
        (i64-Lawful.reads h.original_lsn v.1));
}

abbrev pub IsDiskPtr : DiskPtr → Type 0
IsDiskPtr (inline a) = IsU64 a
IsDiskPtr (heap a b) = IsNonZeroU64 a × IsHeapId b

disk_ptr_encoding : DiskPtr → List ℕ
disk_ptr_encoding (inline a) = 0 ∷ u64-Lawful.encoding a
disk_ptr_encoding (heap a b) =
    1 ∷ (option_nonzero_u64-Lawful.encoding a ++ heap_id-Lawful.encoding b)

disk_ptr_size-encoding :
    (p : DiskPtr) → IsDiskPtr p → disk_ptr_size p ≡ ok (length (disk_ptr_encoding p))
unfolding disk_ptr_size disk_ptr_encoding
disk_ptr_size-encoding (inline a) v = ap ok (omega (arith, length-u64 a v))
disk_ptr_size-encoding (heap a b) v =
    ⊕-eq-ok (⊕-eq-ok refl (option_nonzero_u64-Lawful.size a v.0)) (heap_id-Lawful.size b v.1)
    ∙ ap ok (omega (arith, length-append_bytes))

write_disk_ptr-Writes :
    (p : DiskPtr) → IsDiskPtr p → Writes (write_disk_ptr p) (disk_ptr_encoding p)
unfolding write_disk_ptr disk_ptr_encoding
write_disk_ptr-Writes (inline a) v = Writes-▸ (Writes-u8 0) (u64-Lawful.writes a v)
write_disk_ptr-Writes (heap a b) v =
    Writes-▸ (Writes-u8 1)
      (Writes-▸ (option_nonzero_u64-Lawful.writes a v.0) (heap_id-Lawful.writes b v.1))

read_disk_ptr-Reads : (p : DiskPtr) → IsDiskPtr p → Reads read_disk_ptr (disk_ptr_encoding p) p
unfolding read_disk_ptr disk_ptr_encoding disk_ptr_body
read_disk_ptr-Reads (inline a) v = Reads-at_least 2 (omega (arith, u64_some_byte a v)) (
    Reads-bind read_byte disk_ptr_body (Reads-byte 0)
      (Reads-last u64.deserialize inline (u64-Lawful.reads a v)))
read_disk_ptr-Reads (heap a b) v =
    Reads-at_least 2
      (omega (arith, length-append_bytes, length-encoding heap_id-Lawful b 16 v.1 refl))
      (Reads-bind read_byte disk_ptr_body (Reads-byte 1) (
        Reads-bind option_nonzero_u64.deserialize _ (option_nonzero_u64-Lawful.reads a v.0)
          (Reads-last heap_id.deserialize (heap a) (heap_id-Lawful.reads b v.1))))

pub disk_ptr-Lawful : Lawful disk_ptr IsDiskPtr
disk_ptr-Lawful = record {
  encoding = disk_ptr_encoding;
  size = disk_ptr_size-encoding;
  writes = write_disk_ptr-Writes;
  reads = read_disk_ptr-Reads;
}
