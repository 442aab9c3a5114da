-- ===== src/Control/Log.antt =====
-- crates/kalpak-control/src/log_store.rs: the Raft log, in memory and in two files. Entries and
-- the vote are JSON of serde_json, a parameter; so is the type of votes, which is openraft's.
pub mod Index
pub mod Replay
pub mod Sync
pub mod Append
pub mod Last
pub mod Rewrite
use Prim.Native.String.{String}
use kalpakdb.Prelude.{
  ℕ, zero, suc, ◌+◌, ◌-◌, Bool, true, false, not, ◌&&◌, Option, none, some, List, [], ◌∷◌, ◌++◌,
  Bytes, eqb, ltb, if◌then◌else◌, length, take, Result, ok, err, ◌>>=◌, ok_or,
}
use kalpakdb.Prelude.Map.{Map}
use kalpakdb.Prelude.Lines.{lines, ends_line, line_of}
use kalpakdb.Control.Types.{LogId}
use kalpakdb.Control.Machine.{Entry}
use kalpakdb.Control.Snapshot.Store.{Write, written, lost, unsure, replace}
use Index.{put, retain, values, next_back}

pub record Meta (V : Type 0) : Type 0 where
  pub vote : Option V
  pub last_purged : Option LogId
  pub committed : Option LogId

abbrev pub default_meta : {V : Type 0} → Meta V
default_meta = record { vote = none; last_purged = none; committed = none }

-- `dir` says whether the store is durable; the files are what its directory holds, `none` where
-- there is none.
pub record Inner (V P : Type 0) : Type 0 where
  pub log : Map ℕ (Entry P)
  pub last_purged : Option LogId
  pub vote : Option V
  pub committed : Option LogId
  pub dir : Bool
  pub log_file : Option Bytes
  pub meta_file : Option Bytes

-- serde_json: `to_writer` and `from_slice` for the two types that the store writes.
pub record Format (V P : Type 0) : Type 0 where
  pub write_entry : Entry P → Bytes
  pub read_entry : Bytes → Option (Entry P)
  pub write_meta : Meta V → Bytes
  pub read_meta : Bytes → Option (Meta V)

abbrev pub file_bytes : Option Bytes → Bytes
file_bytes none = []
file_bytes (some bytes) = bytes

abbrev pub meta_of_inner : {V P : Type 0} → Inner V P → Meta V
meta_of_inner s = record { vote = s.vote; last_purged = s.last_purged; committed = s.committed }

abbrev pub with_entry : {P : Type 0} → Map ℕ (Entry P) → Entry P → Map ℕ (Entry P)
with_entry log e = put e.log_id.index e log

abbrev pub in_memory : {V P : Type 0} → Inner V P
in_memory = record {
  log = [];
  last_purged = none;
  vote = none;
  committed = none;
  dir = false;
  log_file = none;
  meta_file = none;
}

module _ {V P : Type 0} (format : Format V P) where
  abbrev pub entry_line : Entry P → Bytes
  entry_line e = line_of (format.write_entry e)

  unfoldable pub log_bytes : List (Entry P) → Bytes
  log_bytes [] = []
  log_bytes (e ∷ es) = entry_line e ++ log_bytes es

  unfoldable pub persist_meta : Write → Inner V P → Inner V P × Result String (Unit {0})
  persist_meta write s =
      if not s.dir
      then (s, ok tt)
      else let (file, result) = replace write (format.write_meta (meta_of_inner s)) s.meta_file in
        (record s { meta_file = file }, result)

  unfoldable pub rewrite_log : Write → Inner V P → Inner V P × Result String (Unit {0})
  rewrite_log write s =
      if not s.dir
      then (s, ok tt)
      else let (file, result) = replace write (log_bytes (values s.log)) s.log_file in
        (record s { log_file = file }, result)

  -- The disk still takes `room` bytes, or all that come: an entry's line is written whole, or cut
  -- short with an error.
  unfoldable pub append_durable :
      Option ℕ → Inner V P → Entry P → Inner V P × Result String (Option ℕ)
  append_durable room s e =
      if not s.dir
      then (s, ok room)
      else let bytes = entry_line e in
        elim room [
          | none ↦ (record s { log_file = some (file_bytes s.log_file ++ bytes) }, ok none)
          | some n ↦
              if ltb n (length bytes)
              then (
                record s { log_file = some (file_bytes s.log_file ++ take n bytes) },
                err "write failed",
              )
              else (
                record s { log_file = some (file_bytes s.log_file ++ bytes) },
                ok (some (n - length bytes)),
              )
        ]

  -- The entries of an append, and `sync_log`, which may fail. Only `ok` fires the callback.
  unfoldable pub append :
      Option ℕ → Bool → Inner V P → List (Entry P) → Inner V P × Result String (Unit {0})
  append room synced s [] = (s, if s.dir && not synced then err "sync failed" else ok tt)
  append room synced s (e ∷ es) =
      let (s', result) = append_durable room s e in
      elim result [
        | err message ↦ (s', err message)
        | ok left ↦ append left synced (record s' { log = with_entry s'.log e }) es
      ]

  unfoldable pub truncate : Write → Inner V P → LogId → Inner V P × Result String (Unit {0})
  truncate write s log_id =
      rewrite_log write (record s { log = retain (λ index. ltb index log_id.index) s.log })

  unfoldable pub purge : Write → Write → Inner V P → LogId → Inner V P × Result String (Unit {0})
  purge meta_write log_write s log_id =
      let s' = record s {
        last_purged = some log_id;
        log = retain (λ index. ltb log_id.index index) s.log;
      } in
      let (after, result) = persist_meta meta_write s' in
      elim result [ err message ↦ (after, err message) | ok _ ↦ rewrite_log log_write after ]

  unfoldable pub save_vote : Write → Inner V P → V → Inner V P × Result String (Unit {0})
  save_vote write s vote = persist_meta write (record s { vote = some vote })

  unfoldable pub save_committed :
      Write → Inner V P → Option LogId → Inner V P × Result String (Unit {0})
  save_committed write s committed = persist_meta write (record s { committed = committed })

  -- The last purged position, and the last one: the log's, or else the last purged.
  unfoldable pub get_log_state : Inner V P → Option LogId × Option LogId
  get_log_state s = (
    s.last_purged,
    elim (next_back s.log) [ none ↦ s.last_purged | some entry ↦ some (entry.1).log_id ],
  )

  -- The entries in the range from `low` up to and without `high`.
  unfoldable pub try_get_log_entries : Inner V P → ℕ → ℕ → List (Entry P)
  try_get_log_entries s low high =
      values (retain (λ index. not (ltb index low) && ltb index high) s.log)

  -- The loop of `open` over the lines of the log file: the log, and the length of what is valid.
  unfoldable pub read_lines : Map ℕ (Entry P) → ℕ → List Bytes → Result String (Map ℕ (Entry P) × ℕ)
  read_lines log valid_len [] = ok (log, valid_len)
  read_lines log valid_len (line ∷ rest) =
      if not (ends_line line) then ok (log, valid_len) else elim (format.read_entry line) [
        | none ↦ err "invalid entry"
        | some e ↦ read_lines (with_entry log e) (valid_len + length line) rest
      ]

  unfoldable pub read_meta_file : Option Bytes → Result String (Meta V)
  read_meta_file none = ok default_meta
  read_meta_file (some bytes) = ok_or (format.read_meta bytes) "invalid meta"

  unfoldable pub open_log : Option Bytes → Option Bytes → Result String (Inner V P)
  open_log meta_file log_file = read_meta_file meta_file >>= λ meta.
      read_lines [] 0 (lines (file_bytes log_file)) >>= λ read. ok (record {
        log = read.0;
        last_purged = meta.last_purged;
        vote = meta.vote;
        committed = meta.committed;
        dir = true;
        log_file = some (take read.1 (file_bytes log_file));
        meta_file = meta_file;
      })
