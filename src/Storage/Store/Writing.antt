-- ===== src/Storage/Store/Writing.antt =====
-- The writing side of crates/kalpak-storage/src/store.rs: `put`, `put_many`, `repair` and the
-- recovery of `open_with`, with `write_batch` of crates/kalpak-storage/src/io.rs. What the device
-- does with each write, sync and open is a list of events, used up in order.
use kalpakdb.Prelude.{
  ℕ, ◌+◌, ◌-◌, ◌%◌, Bool, true, false, ◌&&◌, ◌||◌, List, [], ◌∷◌, ◌++◌, Bytes, ltb, if◌then◌else◌,
  length, is_empty, take, drop, replicate, Result, ok, err, ◌>>=◌, list_eq, nat_eq, ◌==◌, map,
  Option, none, some,
}
use kalpakdb.Prelude.Map.{Map, insert, contains_key}
use kalpakdb.Core.Key.{BlockId, verify, id_of}
use kalpakdb.Storage.Segment.{Location, encode_record, wrap, scan}
use kalpakdb.Storage.Store.{Error, corrupt, io, BlockStore, get_block, panicked}

-- Of a write that fails, that many bytes are in the file. An operation past the list works.
pub data Event : Type 0 where
  works : Event
  fails : ℕ → Event

-- `write_at`: zeros fill a gap before the offset.
unfoldable pub write_at : Bytes → Bytes → ℕ → Bytes
write_at file buf offset =
    take offset (file ++ replicate (offset - length file) 0)
    ++ (buf ++ drop (offset + length buf) file)

pub record Written : Type 0 where
  pub file : Bytes
  pub events : List Event
  pub done : Bool

-- All writes, and then a sync.
unfoldable pub write_batch : Bytes → List (ℕ × Bytes) → List Event → Written
unfolding write_at
write_batch file [] [] = record { file = file; events = []; done = true }
write_batch file [] (works ∷ es) = record { file = file; events = es; done = true }
write_batch file [] (fails n ∷ es) = record { file = file; events = es; done = false }
write_batch file ((offset, buf) ∷ writes) [] = write_batch (write_at file buf offset) writes []
write_batch file ((offset, buf) ∷ writes) (works ∷ es) =
    write_batch (write_at file buf offset) writes es
write_batch file ((offset, buf) ∷ writes) (fails n ∷ es) = record {
  file = write_at file (take n buf) offset;
  events = es;
  done = false;
}

-- The local variables of `put_many_inner`; the active file is the last one.
pub record Attempt : Type 0 where
  pub files : List Bytes
  pub tail : ℕ
  pub active : ℕ
  pub staged : List (BlockId × Location)
  pub pending : List (ℕ × Bytes)
  pub rolled : Bool
  pub events : List Event

unfoldable pub last_file : List Bytes → Bytes
last_file [] = []
last_file (f ∷ []) = f
last_file (f ∷ g ∷ fs) = last_file (g ∷ fs)

unfoldable pub set_last : Bytes → List Bytes → List Bytes
set_last file [] = []
set_last file (f ∷ []) = file ∷ []
set_last file (f ∷ g ∷ fs) = f ∷ set_last file (g ∷ fs)

-- `ok` goes on, `err` is an early return; both carry what was changed.
abbrev pub Step : Type 0
Step = Result Attempt Attempt

unfoldable pub flushed : Attempt → Written → Step
unfolding set_last
flushed a w =
    if w.done
    then ok (record a { files = set_last w.file a.files; events = w.events; pending = [] })
    else err (record a { files = set_last w.file a.files; events = w.events })

unfoldable pub flush_pending : Attempt → Step
unfolding flushed last_file write_batch
flush_pending a =
    if is_empty a.pending
    then ok a
    else flushed a (write_batch (last_file a.files) a.pending a.events)

-- The number of a segment is cast to u32. No file has the name of a segment that is not in the
-- table, so the new one is empty.
abbrev pub new_segment : Attempt → List Event → Attempt
new_segment a es = record a {
  files = a.files ++ [] ∷ [];
  active = length a.files % 4294967296;
  rolled = true;
  tail = 0;
  events = es;
}

abbrev pub open_next : Attempt → List Event → Step
open_next a [] = ok (new_segment a [])
open_next a (works ∷ es) = ok (new_segment a es)
open_next a (fails n ∷ es) = err (record a { events = es })

abbrev pub roll : Attempt → Step
roll a = flush_pending a >>= λ b. open_next b b.events

unfoldable pub stage : BlockId → Bytes → Attempt → Attempt
stage id payload a =
    let encoded = encode_record id payload in
    record a {
      tail = wrap (a.tail + length encoded);
      pending = a.pending ++ (a.tail, encoded) ∷ [];
      staged =
          a.staged
          ++ (id, record { segment = a.active; offset = a.tail; payload_len = length payload })
            ∷ [];
    }

unfoldable pub append_record : ℕ → BlockId → Bytes → Attempt → Step
unfolding flush_pending stage
append_record roll_bytes id payload a =
    if ltb roll_bytes (wrap (a.tail + length (encode_record id payload))) && ltb 0 a.tail
    then (roll a >>= λ b. ok (stage id payload b))
    else ok (stage id payload a)

-- The second sync: that of the directory, when a segment was added.
abbrev pub sync_dir : Attempt → List Event → Step
sync_dir a [] = ok a
sync_dir a (works ∷ es) = ok (record a { events = es })
sync_dir a (fails n ∷ es) = err (record a { events = es })

abbrev pub finish_batch : Attempt → Step
finish_batch a = flush_pending a >>= λ b. if b.rolled then sync_dir b b.events else ok b

unfoldable pub insert_all : List (BlockId × Location) → Map BlockId Location → Map BlockId Location
insert_all [] index = index
insert_all ((id, loc) ∷ staged) index = insert_all staged (insert id loc index)

pub record Put : Type 0 where
  pub store : BlockStore
  pub events : List Event
  pub reply : Result Error (List BlockId)

abbrev pub start_attempt : BlockStore → List Event → Attempt
start_attempt store events = record {
  files = store.files;
  tail = store.append;
  active = (length store.files - 1) % 4294967296;
  staged = [];
  pending = [];
  rolled = false;
  events = events;
}

-- The index is published on success; an early return sets `write_failed` (`AppendAttempt`).
abbrev pub settle : BlockStore → List BlockId → Step → Put
settle store ids (ok a) = record {
  store = record store {
    index = insert_all a.staged store.index;
    files = a.files;
    append = a.tail;
  };
  events = a.events;
  reply = ok ids;
}
settle store ids (err a) = record {
  store = record store { files = a.files; append = a.tail; write_failed = true };
  events = a.events;
  reply = err io;
}

abbrev pub is_staged : BlockId → List (BlockId × Location) → Bool
is_staged id [] = false
is_staged id ((sid, loc) ∷ staged) = sid == id || is_staged id staged

abbrev is_ok : Result Error Bytes → Bool
is_ok (ok payload) = true
is_ok (err e) = false

-- `?[0]` of the ids.
abbrev pub first : Result Error (List BlockId) → Result Error BlockId
first (ok []) = err panicked
first (ok (id ∷ ids)) = ok id
first (err e) = err e

pub record PutBlock : Type 0 where
  pub store : BlockStore
  pub events : List Event
  pub reply : Result Error BlockId

abbrev pub single : Put → PutBlock
single p = record { store = p.store; events = p.events; reply = first p.reply }

module _ (hash : Bytes → Bytes) (device : Location → Bool) where
  -- A repair replaces a record that is indexed but cannot be read.
  unfoldable pub present : BlockStore → Bool → List Bytes → BlockId → Bool
  present store repair files id =
      if repair
      then is_ok (get_block hash device (record store { files = files }) id)
      else contains_key id store.index

  -- One turn of the loop over the prepared payloads.
  unfoldable pub put_one : BlockStore → Bool → BlockId → Bytes → Attempt → Step
  unfolding present append_record
  put_one store repair id payload a =
      if present store repair a.files id || is_staged id a.staged
      then ok a
      else append_record store.roll_bytes id payload a

  unfoldable pub put_each : BlockStore → Bool → List Bytes → Attempt → Step
  unfolding put_one
  put_each store repair [] a = ok a
  put_each store repair (payload ∷ payloads) a =
      put_one store repair (id_of hash payload) payload a >>= λ b. put_each store repair payloads b

  unfoldable pub put_many_inner : BlockStore → List Bytes → Bool → List Event → Put
  unfolding put_each flush_pending insert_all
  put_many_inner store payloads repair events =
      if store.write_failed
      then record { store = store; events = events; reply = err io }
      else settle store (map (id_of hash) payloads)
          (put_each store repair payloads (start_attempt store events) >>= finish_batch)

  abbrev pub put_many : BlockStore → List Bytes → List Event → Put
  put_many store payloads events = put_many_inner store payloads false events

  abbrev pub put_block : BlockStore → Bytes → List Event → PutBlock
  put_block store payload events = single (put_many store (payload ∷ []) events)

  unfoldable pub repair_block : BlockStore → BlockId → Bytes → List Event → PutBlock
  unfolding put_many_inner verify
  repair_block store id payload events =
      if verify hash id payload
      then single (put_many_inner store (payload ∷ []) true events)
      else record { store = store; events = events; reply = err (corrupt id) }

-- The segments by number, in order, with their bytes. The offset where the last one's valid data
-- ends is the tail. `none` is a scan that does not end.
unfoldable pub open_segments :
    List (ℕ × Bytes) → Map BlockId Location → ℕ → Option (Map BlockId Location × ℕ)
unfolding insert_all
open_segments [] index tail = some (index, tail)
open_segments ((segment, file) ∷ segments) index tail = elim (scan file segment) [
  | none ↦ none
  | some found ↦ open_segments segments (insert_all found.0 index) found.1
]

abbrev pub contents : List (ℕ × Bytes) → List Bytes
contents [] = []
contents (s ∷ segments) = s.1 ∷ contents segments

-- A directory without a segment gets an empty one.
abbrev pub files_of : List (ℕ × Bytes) → List Bytes
files_of segments = if is_empty segments then [] ∷ [] else contents segments

unfoldable pub open_blocks : ℕ → List (ℕ × Bytes) → Option BlockStore
unfolding open_segments
open_blocks roll_bytes segments = elim (open_segments segments [] 0) [
  | none ↦ none
  | some found ↦ some (record {
    index = found.0;
    files = files_of segments;
    append = found.1;
    roll_bytes = roll_bytes;
    write_failed = false;
  })
]
