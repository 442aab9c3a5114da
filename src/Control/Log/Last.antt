-- ===== src/Control/Log/Last.antt =====
-- What `get_log_state` of crates/kalpak-control/src/log_store.rs calls the last entry.
use kalpakdb.Prelude.{ℕ, ◌≡◌, ◌≤◌, none, Option, some, nat_eq}
use kalpakdb.Prelude.Map.{Map}
use kalpakdb.Control.Types.{LogId}
use kalpakdb.Control.Machine.{Entry}
use kalpakdb.Control.Log.{Inner, Format}
use kalpakdb.Control.Log.Index.{next_back}

module _ {P : Type 0} where
  -- The last entry of a log, at an index of at least `i`.
  abbrev LastFrom : ℕ → Map ℕ (Entry P) → Type 0
  LastFrom i m = (w : Entry P) × ((next_back m ≡ some (w.log_id.index, w)) × (i ≤ w.log_id.index))

module _ {V P : Type 0} (format : Format V P) where
  after_last : Inner V P → Option (ℕ × Entry P) → Option LogId
  after_last s last = elim last [ none ↦ s.last_purged | some entry ↦ some (entry.1).log_id ]
