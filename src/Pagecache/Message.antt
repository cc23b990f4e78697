-- ===== src/Pagecache/Message.antt =====
-- `MessageKind` and `LogKind` of src/pagecache/mod.rs, and `MessageHeader` of
-- src/pagecache/logger.rs.
use sled.Prelude.{ℕ, ◌==◌, if◌then◌else◌}

pub data MessageKind : Type 0 where
  corrupted canceled cap batch_manifest free counter : MessageKind
  inline_meta heap_meta inline_node heap_node inline_link heap_link : MessageKind

-- `MessageKind::into`, the discriminant
unfoldable pub into : MessageKind → ℕ
into corrupted = 0
into canceled = 1
into cap = 2
into batch_manifest = 3
into free = 4
into counter = 5
into inline_meta = 6
into heap_meta = 7
into inline_node = 8
into heap_node = 9
into inline_link = 10
into heap_link = 11

-- `impl From<u8> for MessageKind`
unfoldable pub from_u8 : ℕ → MessageKind
from_u8 byte =
    if byte == 0
    then corrupted
    else if byte == 1
    then canceled
    else if byte == 2
    then cap
    else if byte == 3
    then batch_manifest
    else if byte == 4
    then free
    else if byte == 5
    then counter
    else if byte == 6
    then inline_meta
    else if byte == 7
    then heap_meta
    else if byte == 8
    then inline_node
    else if byte == 9
    then heap_node
    else if byte == 10
    then inline_link
    else if byte == 11
    then heap_link
    else corrupted

pub data LogKind : Type 0 where
  replace link free skip corrupted : LogKind

-- `impl From<MessageKind> for LogKind`
unfoldable pub log_kind : MessageKind → LogKind
log_kind MessageKind.free = LogKind.free
log_kind inline_node = replace
log_kind counter = replace
log_kind heap_node = replace
log_kind inline_meta = replace
log_kind heap_meta = replace
log_kind inline_link = link
log_kind heap_link = link
log_kind canceled = skip
log_kind cap = skip
log_kind batch_manifest = skip
log_kind MessageKind.corrupted = LogKind.corrupted

-- The varint of a segment's number, of a page's id and of a length go into the log.
pub record MessageHeader : Type 0 where
  pub crc32 : ℕ
  pub kind : MessageKind
  pub segment_number : ℕ
  pub pid : ℕ
  pub len : ℕ
