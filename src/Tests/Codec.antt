-- ===== src/Tests/Codec.antt =====
-- Runs of src/varint.rs and src/serialization.rs.
use sled.Prelude.{
  ℕ, zero, suc, ◌+◌, ◌^◌, ◌≤◌, ◌<◌, ◌≡◌, refl, arith, true, some, List, [], ◌∷◌, ◌++◌, length, drop,
  replicate, All,
}
use sled.Prelude.Int.{pos, negsuc}
use sled.Prelude.Outcome.{ok, panic}
use sled.Prelude.Bytes.{IsU64}
use sled.Varint
use sled.Varint.Encode.{encoding, serialize_into-encoding}
use sled.Varint.Decode.{announced, deserialize-encoding, deserialize_cases}
use sled.Serialization.{serialize}
use sled.Serialization.Rules.{RoundTrips}
use sled.Serialization.Structs.{link, message_header, disk_ptr}
use sled.Serialization.StructLaws.{IsDiskPtr}
use sled.Serialization.LinkLaws.{IsMessageHeader}
use sled.Serialization.PageStates.{page_state, snapshot}
use sled.Serialization.SnapshotLaws.{IsItem, IsPageState, IsSnapshot}
use sled.Serialization.RoundTrip.{
  link-round_trip, message_header-round_trip, disk_ptr-round_trip, page_state-round_trip,
  snapshot-round_trip,
}
use sled.Serialization.FullPage.{full_page_is_read_as_free}
use sled.Pagecache.DiskPtr.{DiskPtr, inline, heap}
use sled.Pagecache.Message.{MessageHeader, heap_link}
use sled.Pagecache.PageState.{PageState, Item, Snapshot, present, free, is_free}
use sled.Link.{set}

serialize_into_example :
    Varint.serialize_into 300 (7 ∷ 7 ∷ 7 ∷ [])
    ≡ ok (encoding 300 ++ drop (Varint.size 300) (7 ∷ 7 ∷ 7 ∷ []), Varint.size 300)
serialize_into_example =
    serialize_into-encoding 300 (7 ∷ 7 ∷ 7 ∷ []) (omega arith) (unfold Varint.size in omega arith)

deserialize_example : Varint.deserialize (encoding 70000 ++ 5 ∷ []) ≡ ok (70000, Varint.size 70000)
deserialize_example = deserialize-encoding 70000 (5 ∷ []) (omega arith)

-- Two of the four bytes that the first byte announces.
abbrev announcing : List ℕ
announcing = 251 ∷ 1 ∷ 2 ∷ []

deserialize_cases_example :
    (announced 251 ≤ length announcing
      → (int : ℕ) × (Varint.deserialize (251 ∷ 1 ∷ 2 ∷ []) ≡ ok (int, announced 251)) × IsU64 int)
    × (length announcing < announced 251 → Varint.deserialize (251 ∷ 1 ∷ 2 ∷ []) ≡ panic)
deserialize_cases_example =
    deserialize_cases 251 (1 ∷ 2 ∷ []) (omega arith) (omega arith, (omega arith, tt))

link_example : RoundTrips link (set (1 ∷ 2 ∷ []) (3 ∷ [])) (9 ∷ [])
link_example = link-round_trip (set (1 ∷ 2 ∷ []) (3 ∷ [])) (9 ∷ []) (omega arith, omega arith)

abbrev header : MessageHeader
header = record { crc32 = 77; kind = heap_link; segment_number = 4; pid = 1000; len = 70000 }

header-IsMessageHeader : IsMessageHeader header
header-IsMessageHeader = record {
  crc32 = omega arith;
  segment_number = omega arith;
  pid = omega arith;
  len = omega arith;
}

message_header_example : RoundTrips message_header header (9 ∷ [])
message_header_example = message_header-round_trip header (9 ∷ []) header-IsMessageHeader

abbrev heap_ptr : DiskPtr
heap_ptr = heap (some 512) (record { location = 2 ^ 32 + 3; original_lsn = pos 40 })

heap_ptr-IsDiskPtr : IsDiskPtr heap_ptr
heap_ptr-IsDiskPtr = ((omega arith, omega arith), (omega arith, (omega arith, omega arith)))

disk_ptr_example : RoundTrips disk_ptr heap_ptr (9 ∷ [])
disk_ptr_example = disk_ptr-round_trip heap_ptr (9 ∷ []) heap_ptr-IsDiskPtr

abbrev item_a : Item
item_a = (pos 40, heap_ptr, 30)

item_a-IsItem : IsItem item_a
item_a-IsItem = ((omega arith, omega arith), heap_ptr-IsDiskPtr, omega arith)

abbrev page : PageState
page = present (negsuc 0, inline 100, 20) (item_a ∷ [])

page-IsPageState : IsPageState page
page-IsPageState =
    (omega arith, ((omega arith, omega arith), omega arith, omega arith), (item_a-IsItem, tt))

page_state_example : RoundTrips page_state page (9 ∷ [])
page_state_example = page_state-round_trip page (9 ∷ []) page-IsPageState

abbrev two_pages : Snapshot
two_pages = record {
  stable_lsn = some (pos 4096);
  active_segment = some 8192;
  pt = page ∷ free (pos 50) (inline 200) ∷ [];
}

two_pages-IsSnapshot : IsSnapshot two_pages
two_pages-IsSnapshot = record {
  stable_lsn = (omega arith, omega arith);
  active_segment = omega arith;
  pages = omega arith;
  pt = (page-IsPageState, (((omega arith, omega arith), omega arith), tt));
}

snapshot_example : RoundTrips snapshot two_pages (9 ∷ [])
snapshot_example = snapshot-round_trip two_pages (9 ∷ []) two_pages-IsSnapshot

copies : (n : ℕ) → All IsItem (replicate n item_a)
copies zero = tt
copies (suc n) = (item_a-IsItem, copies n)

full_page_example :
    (bytes : List ℕ) × (serialize page_state (present item_a (replicate 255 item_a)) ≡ ok bytes)
    × ((p : PageState) (rest : List ℕ)
        → page_state.deserialize bytes ≡ ok (p, rest)
        → is_free p ≡ true)
full_page_example =
    full_page_is_read_as_free item_a (replicate 255 item_a) item_a-IsItem (copies 255) refl
