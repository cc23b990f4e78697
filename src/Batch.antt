-- ===== src/Batch.antt =====
-- src/batch.rs: a batch maps keys to what becomes of them, a new value or none.
use sled.Prelude.{Option, none, some, List}
use sled.Prelude.Sorted
use sled.Keys.{Key, ltb_key}

abbrev pub Writes : Type 0
Writes = List (Key × Option Key)

pub record Batch : Type 0 where
  pub writes : Writes

unfoldable pub insert : Batch → Key → Key → Batch
insert b key value = record { writes = Sorted.insert ltb_key key (some value) b.writes }

unfoldable pub remove : Batch → Key → Batch
remove b key = record { writes = Sorted.insert ltb_key key none b.writes }

unfoldable pub get : Batch → Key → Option (Option Key)
get b k = Sorted.get ltb_key k b.writes
