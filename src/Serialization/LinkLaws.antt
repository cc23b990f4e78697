-- ===== src/Serialization/LinkLaws.antt =====
-- `MessageHeader` and `Link` satisfy the laws of `Lawful` (src/serialization.rs).
use sled.Prelude.{ℕ, ◌≡◌, refl, ap, subst, arith, List, [], ◌∷◌, ◌++◌, length}
use sled.Prelude.Outcome.{ok}
use sled.Prelude.Bytes.{IsU64}
use sled.Prelude.Reader.{◌>>=◌, Reads, Reads-last, Reads-bind, Reads-pure}
use sled.Serialization.Rules.{Writes, Writes-▸, Lawful, length-encoding}
use sled.Serialization.Ints.{u64, u32, u8, read_byte}
use sled.Serialization.IntLaws.{u64-Lawful, u32-Lawful, IsU32, Reads-byte, Writes-u8}
use sled.Serialization.Compose.{ivec}
use sled.Serialization.TupleLaws.{ivec-Lawful, IsIvec, length-u64, length-ivec}
use sled.Serialization.StructLaws.{length-append_bytes}
use sled.Serialization.Structs.{message_header, link_size, write_link, link_body, link}
use sled.Pagecache.Message.{MessageKind, MessageHeader, into, from_u8}
use sled.Link.{
  Link, set, replace, del, parent_merge_intention, parent_merge_confirm, child_merge_cap,
}

-- A message kind survives its trip through a byte.
pub from_u8-into : (kind : MessageKind) → from_u8 (into kind) ≡ kind
unfolding from_u8 into
from_u8-into kind = ground arith

pub record IsMessageHeader (h : MessageHeader) : Type 0 where
  pub crc32 : IsU32 h.crc32
  pub segment_number : IsU64 h.segment_number
  pub pid : IsU64 h.pid
  pub len : IsU64 h.len

abbrev message_header_encoding : MessageHeader → List ℕ
message_header_encoding h =
    u32-Lawful.encoding h.crc32
    ++ (into h.kind
        ∷ (u64-Lawful.encoding h.len
            ++ (u64-Lawful.encoding h.segment_number ++ u64-Lawful.encoding h.pid)))

pub message_header-Lawful : Lawful message_header IsMessageHeader
message_header-Lawful = record {
  encoding = message_header_encoding;
  size = λ h v. ap ok (
      omega (
        arith,
        length-append_bytes,
        length-encoding u32-Lawful h.crc32 4 v.crc32 refl,
        length-u64 h.len v.len,
        length-u64 h.segment_number v.segment_number,
        length-u64 h.pid v.pid,
      ));
  writes = λ h v. Writes-▸ (u32-Lawful.writes h.crc32 v.crc32) (
      Writes-▸ (Writes-u8 (into h.kind)) (
        Writes-▸ (u64-Lawful.writes h.len v.len) (
          Writes-▸ (u64-Lawful.writes h.segment_number v.segment_number)
            (u64-Lawful.writes h.pid v.pid))));
  reads = λ h v.
      subst
        (λ k. Reads message_header.deserialize (message_header_encoding h) (record h { kind = k }))
        (from_u8-into h.kind)
        (Reads-bind u32.deserialize _ (u32-Lawful.reads h.crc32 v.crc32) (
          Reads-bind u8.deserialize _ (Reads-byte (into h.kind)) (
            Reads-bind u64.deserialize _ (u64-Lawful.reads h.len v.len) (
              Reads-bind u64.deserialize _ (u64-Lawful.reads h.segment_number v.segment_number) (
                Reads-last u64.deserialize
                  (λ pid. record h { kind = from_u8 (into h.kind); pid = pid })
                  (u64-Lawful.reads h.pid v.pid))))));
}

abbrev pub IsLink : Link → Type 0
IsLink (set key value) = IsIvec key × IsIvec value
IsLink (replace index value) = IsU64 index × IsIvec value
IsLink (del index) = IsU64 index
IsLink (parent_merge_intention pid) = IsU64 pid
IsLink _ = Unit

link_encoding : Link → List ℕ
link_encoding (set key value) = 0 ∷ (ivec-Lawful.encoding key ++ ivec-Lawful.encoding value)
link_encoding (replace index value) = 5 ∷ (u64-Lawful.encoding index ++ ivec-Lawful.encoding value)
link_encoding (del index) = 1 ∷ u64-Lawful.encoding index
link_encoding (parent_merge_intention pid) = 2 ∷ u64-Lawful.encoding pid
link_encoding parent_merge_confirm = 3 ∷ []
link_encoding child_merge_cap = 4 ∷ []

link_size-encoding : (l : Link) → IsLink l → link_size l ≡ ok (length (link_encoding l))
unfolding link_size link_encoding
link_size-encoding (set key value) v =
    ap ok (omega (arith, length-append_bytes, length-ivec key v.0, length-ivec value v.1))
link_size-encoding (replace index value) v =
    ap ok (omega (arith, length-append_bytes, length-u64 index v.0, length-ivec value v.1))
link_size-encoding (del index) v = ap ok (omega (arith, length-u64 index v))
link_size-encoding (parent_merge_intention pid) v = ap ok (omega (arith, length-u64 pid v))
link_size-encoding parent_merge_confirm v = refl
link_size-encoding child_merge_cap v = refl

write_link-Writes : (l : Link) → IsLink l → Writes (write_link l) (link_encoding l)
unfolding write_link link_encoding
write_link-Writes (set key value) v =
    Writes-▸ (Writes-u8 0) (Writes-▸ (ivec-Lawful.writes key v.0) (ivec-Lawful.writes value v.1))
write_link-Writes (replace index value) v =
    Writes-▸ (Writes-u8 5) (Writes-▸ (u64-Lawful.writes index v.0) (ivec-Lawful.writes value v.1))
write_link-Writes (del index) v = Writes-▸ (Writes-u8 1) (u64-Lawful.writes index v)
write_link-Writes (parent_merge_intention pid) v = Writes-▸ (Writes-u8 2) (u64-Lawful.writes pid v)
write_link-Writes parent_merge_confirm v = Writes-u8 3
write_link-Writes child_merge_cap v = Writes-u8 4

-- The discriminant, then the body that it selects.
discriminant_then :
    (d : ℕ) {bytes : List ℕ} {l : Link}
    → Reads (link_body d) bytes l
    → Reads (read_byte >>= link_body) (d ∷ bytes) l
discriminant_then d r = Reads-bind read_byte link_body (Reads-byte d) r

link-Reads : (l : Link) → IsLink l → Reads (read_byte >>= link_body) (link_encoding l) l
unfolding link_body link_encoding
link-Reads (set key value) v = discriminant_then 0 (
    Reads-bind ivec.deserialize _ (ivec-Lawful.reads key v.0)
      (Reads-last ivec.deserialize (set key) (ivec-Lawful.reads value v.1)))
link-Reads (replace index value) v = discriminant_then 5 (
    Reads-bind u64.deserialize _ (u64-Lawful.reads index v.0)
      (Reads-last ivec.deserialize (replace index) (ivec-Lawful.reads value v.1)))
link-Reads (del index) v =
    discriminant_then 1 (Reads-last u64.deserialize del (u64-Lawful.reads index v))
link-Reads (parent_merge_intention pid) v =
    discriminant_then 2 (Reads-last u64.deserialize parent_merge_intention (u64-Lawful.reads pid v))
link-Reads parent_merge_confirm v = discriminant_then 3 (Reads-pure parent_merge_confirm)
link-Reads child_merge_cap v = discriminant_then 4 (Reads-pure child_merge_cap)

pub link-Lawful : Lawful link IsLink
link-Lawful = record {
  encoding = link_encoding;
  size = link_size-encoding;
  writes = write_link-Writes;
  reads = link-Reads;
}
