-- ===== src/Serialization/RoundTrip.antt =====
-- What is written to the log and to the snapshot is read back (src/serialization.rs).
use sled.Prelude.{ℕ, Option, List}
use sled.Prelude.Int.{ℤ}
use sled.Serialization.Rules.{RoundTrips, deserialize-serialize}
use sled.Serialization.Compose.{option_u64, option_i64, ivec}
use sled.Serialization.ComposeLaws.{
  option_u64-Lawful, option_i64-Lawful, IsShiftableU64, IsShiftableI64,
}
use sled.Serialization.TupleLaws.{ivec-Lawful, IsIvec}
use sled.Serialization.Structs.{disk_ptr, message_header, link}
use sled.Serialization.StructLaws.{disk_ptr-Lawful, IsDiskPtr}
use sled.Serialization.LinkLaws.{message_header-Lawful, IsMessageHeader, link-Lawful, IsLink}
use sled.Serialization.PageStates.{page_state, snapshot}
use sled.Serialization.SnapshotLaws.{page_state-Lawful, IsPageState, snapshot-Lawful, IsSnapshot}
use sled.Pagecache.DiskPtr.{DiskPtr}
use sled.Pagecache.Message.{MessageHeader}
use sled.Pagecache.PageState.{PageState, Snapshot}
use sled.Link.{Link}

-- An option of an i64 other than the largest one, with anything behind it, is read back.
pub option_i64-round_trip :
    (o : Option ℤ) (rest : List ℕ) → IsShiftableI64 o → RoundTrips option_i64 o rest
option_i64-round_trip o rest v = deserialize-serialize option_i64-Lawful o rest v

-- An option of a u64 other than the largest one, with anything behind it, is read back.
pub option_u64-round_trip :
    (o : Option ℕ) (rest : List ℕ) → IsShiftableU64 o → RoundTrips option_u64 o rest
option_u64-round_trip o rest v = deserialize-serialize option_u64-Lawful o rest v

-- A byte string whose length is a u64, with anything behind it, is read back.
pub ivec-round_trip : (v : List ℕ) (rest : List ℕ) → IsIvec v → RoundTrips ivec v rest
ivec-round_trip v rest h = deserialize-serialize ivec-Lawful v rest h

-- A link between tree nodes, whichever of the six it is, with indexes, page ids and lengths that are
-- u64s and anything behind it, is read back.
pub link-round_trip : (l : Link) (rest : List ℕ) → IsLink l → RoundTrips link l rest
link-round_trip l rest v = deserialize-serialize link-Lawful l rest v

-- A message header of the log whose checksum is a u32 and whose other numbers are u64s, with
-- anything behind it, is read back.
pub message_header-round_trip :
    (h : MessageHeader) (rest : List ℕ) → IsMessageHeader h → RoundTrips message_header h rest
message_header-round_trip h rest v = deserialize-serialize message_header-Lawful h rest v

-- A pointer into the log or into the heap whose numbers fit their machine integers and whose log
-- offset, if it points into the heap, is absent or not zero, with anything behind it, is read back.
pub disk_ptr-round_trip : (p : DiskPtr) (rest : List ℕ) → IsDiskPtr p → RoundTrips disk_ptr p rest
disk_ptr-round_trip p rest v = deserialize-serialize disk_ptr-Lawful p rest v

-- The state of a page that is free, or that has a base and at most 254 fragments, with numbers that
-- fit their machine integers and anything behind it, is read back.
pub page_state-round_trip :
    (p : PageState) (rest : List ℕ) → IsPageState p → RoundTrips page_state p rest
page_state-round_trip p rest v = deserialize-serialize page_state-Lawful p rest v

-- A snapshot of such pages, whose stable lsn is not the largest i64 and whose active segment is not
-- the largest u64, with anything behind it, is read back whole, in the order of its pages.
pub snapshot-round_trip : (s : Snapshot) (rest : List ℕ) → IsSnapshot s → RoundTrips snapshot s rest
snapshot-round_trip s rest v = deserialize-serialize snapshot-Lawful s rest v
