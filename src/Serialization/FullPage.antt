-- ===== src/Serialization/FullPage.antt =====
-- A page with the most fragments that `PageState::serialize_into` accepts (src/serialization.rs).
use sled.Prelude.{ℕ, ◌≡◌, refl, ap, ◌∙◌, arith, true, List, ◌∷◌, ◌++◌, length, All}
use sled.Prelude.Int.{ℤ}
use sled.Prelude.Outcome
use sled.Prelude.Outcome.{Outcome, ok, err, panic}
use sled.Prelude.Reader.{Reader, pure, ◌>>=◌}
use sled.Serialization.{serialize, ◌▸◌}
use sled.Serialization.Rules.{Writes, Writes-▸, serialize-Writes, ⊕-eq-ok}
use sled.Serialization.Ints.{u8, i64, read_byte}
use sled.Serialization.IntLaws.{Writes-u8}
use sled.Serialization.Compose.{serialize_sequence}
use sled.Serialization.TupleLaws.{encodings, sequence_size-encodings, serialize_sequence-Writes}
use sled.Serialization.StructLaws.{length-append_bytes}
use sled.Serialization.Structs.{disk_ptr}
use sled.Serialization.PageStates.{
  item, page_state, page_state_size, frags_len, write_page_state, page_state_body,
}
use sled.Serialization.SnapshotLaws.{IsItem, item-Lawful}
use sled.Pagecache.DiskPtr.{DiskPtr}
use sled.Pagecache.PageState.{PageState, Item, present, free, is_free}

-- What comes of a pointer, and of an lsn and a pointer, is a free page.
free_of_ptr :
    (lsn : ℤ) (ptr : Outcome (DiskPtr × List ℕ)) (p : PageState) (rest : List ℕ)
    → Outcome.◌>>=◌ {B = PageState × List ℕ} ptr (λ y. ok (free lsn y.0, y.1)) ≡ ok (p, rest)
    → is_free p ≡ true
unfolding is_free
free_of_ptr lsn (ok y) p rest h = ground (arith, h)
free_of_ptr lsn (err e) p rest h = cc
free_of_ptr lsn panic p rest h = cc

free_of_lsn :
    (lsn : Outcome (ℤ × List ℕ)) (ptr : Reader DiskPtr) (p : PageState) (rest : List ℕ)
    → Outcome.◌>>=◌ {B = PageState × List ℕ} lsn
        (λ x. Outcome.◌>>=◌ {B = PageState × List ℕ} (ptr x.1) (λ y. ok (free x.0 y.0, y.1)))
      ≡ ok (p, rest)
    → is_free p ≡ true
free_of_lsn (ok x) ptr p rest h = free_of_ptr x.0 (ptr x.1) p rest h
free_of_lsn (err e) ptr p rest h = cc
free_of_lsn panic ptr p rest h = cc

reads_free :
    (body : List ℕ) (p : PageState) (rest : List ℕ)
    → page_state.deserialize (0 ∷ body) ≡ ok (p, rest)
    → is_free p ≡ true
unfolding read_byte page_state_body ◌>>=◌ pure
reads_free body p rest h = free_of_lsn (i64.deserialize body) disk_ptr.deserialize p rest h

write_present :
    (base : Item) (frags : List Item) (len : ℕ) (bytes : List ℕ)
    → frags_len frags ≡ ok len
    → Writes
        (u8.serialize_into len ▸ item.serialize_into base ▸ serialize_sequence item frags)
        bytes
    → Writes (write_page_state (present base frags)) bytes
unfolding write_page_state
write_present base frags len bytes e w = rw (e, write_page_state) w

-- A page with 255 fragments is written, but its length byte wraps around to that of a free page:
-- whatever is read back from it is a free page.
pub full_page_is_read_as_free :
    (base : Item) (frags : List Item)
    → IsItem base
    → All IsItem frags
    → length frags ≡ 255
    → (bytes : List ℕ) × (serialize page_state (present base frags) ≡ ok bytes)
      × ((p : PageState) (rest : List ℕ)
          → page_state.deserialize bytes ≡ ok (p, rest)
          → is_free p ≡ true)
full_page_is_read_as_free base frags hb hf full = (
  0 ∷ body,
  serialize-Writes page_state (present base frags) (0 ∷ body) size writes,
  λ p rest h. reads_free body p rest h,
)
  where
    body : List ℕ
    body = item-Lawful.encoding base ++ encodings item-Lawful frags

    size : page_state_size (present base frags) ≡ ok (length (0 ∷ body))
    size =
        unfold page_state_size in
        ⊕-eq-ok (⊕-eq-ok {a = 1} refl (item-Lawful.size base hb))
          (sequence_size-encodings item-Lawful frags hf)
        ∙ ap ok (omega (arith, length-append_bytes))

    writes : Writes (write_page_state (present base frags)) (0 ∷ body)
    writes = write_present base frags 0 _ (unfold frags_len in ground arith) (
        Writes-▸ (Writes-u8 0)
          (Writes-▸ (item-Lawful.writes base hb) (serialize_sequence-Writes item-Lawful frags hf)))
