-- ===== src/Control/LogTests.antt =====
-- A concrete Raft log for crates/kalpak-control/src/log_store.rs, and its properties there. An
-- entry's text is the letter `e` and its index.
use kalpakdb.Prelude.{
  ℕ, ◌+◌, ◌≡◌, ◌⊎◌, ◌≢◌, refl, true, Option, none, some, List, [], ◌∷◌, ◌++◌, Bytes, eqb,
  if◌then◌else◌, All, ok, ◌&&◌,
}
use kalpakdb.Prelude.Lines.{line_of, no_newline}
use kalpakdb.Control.Types.{LogId}
use kalpakdb.Control.Machine.{Entry, blank}
use kalpakdb.Control.Snapshot.Store.{written, lost}
use kalpakdb.Control.Log.{
  Format, Inner, Meta, open_log, append, truncate, purge, log_bytes, read_meta_file,
}
use kalpakdb.Control.Log.Index.{put}
use kalpakdb.Control.Log.Replay.{Reads, with_all}
use kalpakdb.Control.Log.Sync.{InSync, open-corrupt}
use kalpakdb.Control.Log.Append.{Recovered, append-Recovered}
use kalpakdb.Control.Log.Rewrite.{
  truncate-crash, purge-crash, cut_store, marked_store, before_id, after_id,
}

abbrev id_at : ℕ → LogId
id_at n = record { leader_id = record { term = 1; node_id = 1 }; index = n }

abbrev entry_at : ℕ → Entry ℕ
entry_at n = record { log_id = id_at n; payload = blank }

abbrev read_text : Bytes → Option (Entry ℕ)
read_text (a ∷ n ∷ b ∷ []) = if eqb a 101 && eqb b 10 then some (entry_at n) else none
read_text _ = none

abbrev votes : Option ℕ → ℕ
votes none = 0
votes (some v) = v + 1

abbrev purged_index : Option LogId → ℕ
purged_index none = 0
purged_index (some i) = i.index

abbrev read_meta_text : Bytes → Option (Meta ℕ)
read_meta_text (v ∷ n ∷ []) =
    some (record { vote = none; last_purged = some (id_at n); committed = none })
read_meta_text _ = none

abbrev text_format : Format ℕ ℕ
text_format = record {
  write_entry = λ e. 101 ∷ e.log_id.index ∷ [];
  read_entry = read_text;
  write_meta = λ m. votes m.vote ∷ purged_index m.last_purged ∷ [];
  read_meta = read_meta_text;
}

abbrev entries : List (Entry ℕ)
entries = entry_at 1 ∷ entry_at 2 ∷ entry_at 3 ∷ []

abbrev store_3 : Inner ℕ ℕ
store_3 = record {
  log = (1, entry_at 1) ∷ (2, entry_at 2) ∷ (3, entry_at 3) ∷ [];
  last_purged = none;
  vote = none;
  committed = none;
  dir = true;
  log_file = some (101 ∷ 1 ∷ 10 ∷ 101 ∷ 2 ∷ 10 ∷ 101 ∷ 3 ∷ 10 ∷ []);
  meta_file = none;
}

entries-Reads : All (Reads text_format) entries
unfolding no_newline
entries-Reads = (
  record { text = refl; law = refl },
  (record { text = refl; law = refl }, (record { text = refl; law = refl }, tt)),
)

store_3-InSync : InSync text_format entries store_3
unfolding log_bytes with_all put read_meta_file
store_3-InSync = record {
  durable = refl;
  readable = entries-Reads;
  file = refl;
  log = refl;
  metadata = refl;
}

append-Recovered_example :
    Recovered text_format entries
      (entry_at 4 ∷ entry_at 5 ∷ [])
      store_3
      (append text_format (some 4) true store_3 (entry_at 4 ∷ entry_at 5 ∷ [])).0
      (append text_format (some 4) true store_3 (entry_at 4 ∷ entry_at 5 ∷ [])).1
unfolding no_newline
append-Recovered_example =
    append-Recovered text_format entries (entry_at 4 ∷ entry_at 5 ∷ []) (some 4) true store_3
      store_3-InSync (record { text = refl; law = refl }, (record { text = refl; law = refl }, tt))

truncate-crash_example :
    (open_log text_format
        (truncate text_format written store_3 (id_at 2)).0.meta_file
        (truncate text_format written store_3 (id_at 2)).0.log_file
      ≡ ok store_3)
    ⊎ (open_log text_format
          (truncate text_format written store_3 (id_at 2)).0.meta_file
          (truncate text_format written store_3 (id_at 2)).0.log_file
        ≡ ok (cut_store text_format (before_id (id_at 2)) store_3))
truncate-crash_example = truncate-crash text_format entries store_3 (id_at 2) written store_3-InSync

purge-crash_example :
    (open_log text_format
        (purge text_format written lost store_3 (id_at 2)).0.meta_file
        (purge text_format written lost store_3 (id_at 2)).0.log_file
      ≡ ok store_3)
    ⊎ (open_log text_format
          (purge text_format written lost store_3 (id_at 2)).0.meta_file
          (purge text_format written lost store_3 (id_at 2)).0.log_file
        ≡ ok (marked_store text_format (id_at 2) store_3))
    ⊎ (open_log text_format
          (purge text_format written lost store_3 (id_at 2)).0.meta_file
          (purge text_format written lost store_3 (id_at 2)).0.log_file
        ≡ ok (
            cut_store text_format
              (after_id (id_at 2))
              (marked_store text_format (id_at 2) store_3)))
purge-crash_example =
    purge-crash text_format entries store_3 (id_at 2) written lost store_3-InSync refl

open-corrupt_example :
    open_log text_format none
      (some (log_bytes text_format entries ++ (line_of (120 ∷ []) ++ (101 ∷ 4 ∷ 10 ∷ []))))
    ≢ ok store_3
unfolding no_newline
open-corrupt_example =
    open-corrupt text_format entries (120 ∷ []) (101 ∷ 4 ∷ 10 ∷ []) none entries-Reads refl refl
      store_3
