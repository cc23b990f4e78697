-- ===== src/Lib.antt =====
-- sled, an embedded database: the nodes of its tree, the formats of its log and of its snapshots, and
-- the bookkeeping that decides what recovery sees and when space is used again.
--
-- A write goes into an I/O buffer, which threads coordinate through one word, the header of
-- src/pagecache/header.rs; the buffers make up segments of the log. A log entry is a message header
-- and an item, in the formats of src/varint.rs and src/serialization.rs. Large items go to the slabs
-- of src/pagecache/heap.rs, and the log keeps a pointer (src/pagecache/disk_pointer.rs). At start,
-- src/pagecache/snapshot.rs replays the entries on top of the last snapshot, into a table of page
-- states. Segments whose pages have been rewritten are drained and used again; the segment accountant
-- (src/pagecache/segment.rs) hands out free ones and gives the end of the file back. The pages of the
-- tree are nodes (src/node.rs): sorted items behind a common prefix, which links change one by one, and
-- which are split when they are large and merged when they are small. A batch
-- (src/batch.rs) collects writes that the tree takes together.
--
-- Which file models which part:
--   Varint             src/varint.rs: `size`, `serialize_into`, `deserialize`
--   Serialization      src/serialization.rs: the trait `Serialize` is the record `Serialize`, and each
--                      `impl` is a value of it: integers and booleans in Ints; options, tuples, byte
--                      strings and sequences in Compose; BatchManifest, HeapId, DiskPtr, MessageHeader
--                      and Link in Structs; PageState and Snapshot in PageStates. Rules says what a
--                      correct implementation is, the files named Laws show it of each, RoundTrip
--                      draws the conclusion, and FullPage is about a page with 255 fragments
--   Keys               src/fastcmp.rs; keys are byte strings in the order of slices. Order and Prefix
--                      are about that order, Memcmp about the comparison by memcmp
--   Node               src/node.rs: the header and the items of a node, and `new`; Sizes is about the
--                      size of the buffer, Invariant says what a sound node is
--   Node.Search        `find`, `index_next_node`, `node_kv_pair`; Place is about the place of a key, Map
--                      about the items as a map, Pairs about the map of whole keys
--   Node.Stitch        `stitch`, and `insert`, `replace`, `remove_index`, `parent_split` on it; Splice,
--                      Edits and Map lead to the map after an edit
--   Node.Apply         `apply`; Effect is about all six links
--   Node.Split         `split`, `receive_merge`, `should_split`, `should_merge`; Entries, Shorten, Parts,
--                      Halves, Shared are about split, Joined and Merged about merge
--   Node.Range         `successor`, `predecessor` and the tests of bounds; Successor and Predecessor are
--                      about the first and the last item that a bound wants, Whole about whole keys
--   Link               the links of src/lib.rs
--   Batch              src/batch.rs, all of it
--   Pagecache.DiskPtr  src/pagecache/disk_pointer.rs and the type `HeapId` of src/pagecache/heap.rs
--   Pagecache.Message  the kinds of messages of src/pagecache/mod.rs, and the message header of
--                      src/pagecache/logger.rs
--   Pagecache.Header   src/pagecache/header.rs, all of it; Fields reads a header as five fields
--   Pagecache.Heap     src/pagecache/heap.rs: sizes, ids and the slots of a slab; Sizes and Slots prove
--   Pagecache.PageState, Pagecache.Snapshot   src/pagecache/snapshot.rs: `PageState`, `apply` and the
--                      loop of `advance_snapshot`; Pages is about one entry, Replay about a log
--   Pagecache.Tip      the rest of `advance_snapshot`, and `recovered_coords`; Coords is about where the
--                      log goes on, Advance about the whole
--   Pagecache.Segment  the enum `Segment` of src/pagecache/segment.rs with all its operations; Counts
--                      is about what an active segment records, Drain about the way to a free one
--   Pagecache.Accountant   `SegmentAccountant` of src/pagecache/segment.rs: the segments, the free list,
--                      the tip, the ordering, and `next`. Free frees, shrinks and cleans, Marks is
--                      `mark_link` and `mark_replace`, Stable is `stabilize` and what it deactivates;
--                      Layout and Invariant are about the layout and `next`, Cut and Shrink about
--                      `free_segment`
--   Pagecache.Cleaner  `SegmentCleaner` of src/pagecache/segment.rs; Queue is about its pops
--   Pagecache.Stability   `StabilityIntervals` of src/pagecache/iobuf.rs; Ranges is about the stable lsn,
--                      Batches about batches
--   Pagecache.SegmentHeader   the header of a segment in src/pagecache/logger.rs, with the checksum of
--                      the package crc32fast as a parameter
--   Pagecache.IoBuf    `store_segment_header` and `cas_header` of src/pagecache/iobuf.rs
--   Prelude            outcomes, bytes, slices, bits, ordered sets and maps
--   Tests              runs on concrete inputs
--
-- How the code is rendered. `Result` and panics are the type `Outcome` of Prelude.Outcome: a failed
-- assertion, an `unwrap` of nothing, and an index out of range are `panic`. Unsigned integers are
-- natural numbers, and `usize` has 64 bits. The header word, the ids and sizes of the heap, the slots of
-- a slab, the tip of the log and all serialised integers wrap around as in an optimised build. Not
-- bounded are numbers that stay below the size of a file or of the memory: the tip of the file and the
-- lsns of the segment accountant, the sizes and counts of segments, and the sizes of nodes. A number of
-- children past a u16 is a panic, as in a build with overflow checks. A signed integer is the ℤ of Prelude.Int, and its
-- serialised form goes through the two's complement. A writer over `&mut &mut [u8]` keeps the bytes
-- that it has been moved past and the slice that is left; a reader returns the slice that it leaves.
-- A mutating method returns the new state. `BTreeSet`, `BTreeMap` and the hash sets are lists without
-- doubles, and the lock-free stack of free heap slots is a list. A node is the fields of its header,
-- its bounds, its items in order, and the size `len` of its buffer; `index_key` and `index_value` read
-- the items. memcmp of libc, the outcomes of the truncations that run in the background (`shrinks`), and
-- the order in which a hash map is walked (`arrange`) are parameters. Heap slots that a segment gives
-- back are collected in `heap_frees`. Logging, metrics, and the features
-- "testing" and "event_log" are left out.
--
-- Bounds. `count_zeros` and `double_until` of Pagecache.Heap take 64 rounds, one for each bit of a
-- u64; the theorems of Pagecache.Heap.Sizes show that these are enough. `find_loop` of Node.Search has
-- as many rounds as the node has children, and `shrink` of Pagecache.Accountant.Free two more than the
-- free list is long; Node.Search.Place and Pagecache.Accountant.Shrink show that these are enough.
-- All other loops follow the structure of a list or of the bound that the code counts down.
--
-- Not modelled: the packed bytes of the items in the buffer of a node (offsets, varint lengths, and the
-- stores that copy them), the start of the accountant from a snapshot, the other operations of
-- src/pagecache/iobuf.rs and the file I/O around them, the page cache, the tree over its nodes,
-- transactions, which read and write through it, the eviction cache, and the lock-free structures over
-- raw pointers. The formats of `Meta` and `Node` in src/serialization.rs are left out.
pub mod Prelude
pub mod Varint
pub mod Serialization
pub mod Pagecache
pub mod Link
pub mod Keys
pub mod Node
pub mod Batch
pub mod Tests
