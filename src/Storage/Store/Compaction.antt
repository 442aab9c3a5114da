-- ===== src/Storage/Store/Compaction.antt =====
-- `compact` of crates/kalpak-storage/src/store.rs: the sealed segments that have dead records are
-- written anew. What the device does is a list of events, as for writing; a temporary file that is
-- left behind is cut to nothing before it is used again.
use kalpakdb.Prelude.{
  ℕ, zero, suc, ◌+◌, ◌-◌, Bool, not, ◌&&◌, none, some, List, [], ◌∷◌, ◌++◌, Bytes, eqb,
  if◌then◌else◌, length, is_empty, Result, ok, err, ◌>>=◌, list_eq, nat_eq,
}
use kalpakdb.Prelude.Map.{Map, remove}
use kalpakdb.Core.Key.{BlockId}
use kalpakdb.Storage.Segment.{Location, encode_record, wrap}
use kalpakdb.Storage.Store.{Error, io, panicked, BlockStore, file_at, read_payload, checked}
use kalpakdb.Storage.Store.Writing.{Event, works, fails, write_at, insert_all}

pub record CompactStats : Type 0 where
  pub segments_rewritten : ℕ
  pub blocks_dropped : ℕ
  pub bytes_reclaimed : ℕ

-- The store and the statistics so far.
pub record Compacting : Type 0 where
  pub store : BlockStore
  pub stats : CompactStats
  pub events : List Event

-- An early return carries the error and what was changed before it.
abbrev pub Outcome : Type 0
Outcome = Result (Error × Compacting) Compacting

-- An operation on the device that works or fails.
abbrev pub device_op : Compacting → List Event → Outcome
device_op c [] = ok c
device_op c (works ∷ es) = ok (record c { events = es })
device_op c (fails n ∷ es) = err (io, record c { events = es })

abbrev pub next_op : Compacting → Outcome
next_op c = device_op c c.events

-- The entries of a segment that are kept, or those that are dropped.
unfoldable pub entries_of : (BlockId → Bool) → ℕ → Map BlockId Location → List (BlockId × Location)
entries_of chosen segment [] = []
entries_of chosen segment ((id, loc) ∷ index) =
    let rest = entries_of chosen segment index in
    if eqb loc.segment segment && chosen id then (id, loc) ∷ rest else rest

unfoldable pub remove_all : List (BlockId × Location) → Map BlockId Location → Map BlockId Location
remove_all [] index = index
remove_all ((id, loc) ∷ dead) index = remove_all dead (remove id index)

unfoldable pub set_file : ℕ → Bytes → List Bytes → List Bytes
set_file n file [] = []
set_file zero file (f ∷ fs) = file ∷ fs
set_file (suc n) file (f ∷ fs) = f ∷ set_file n file fs

-- The new file as far as it is written, and the places in it.
pub record Copied : Type 0 where
  pub tmp : Bytes
  pub offset : ℕ
  pub new_locs : List (BlockId × Location)

module _ (hash : Bytes → Bytes) (device : Location → Bool) where
  abbrev pub copied : ℕ → BlockId → Location → Bytes → Copied → Copied
  copied segment id loc payload tmp =
      let encoded = encode_record id payload in
      record {
        tmp = write_at tmp.tmp encoded tmp.offset;
        offset = wrap (tmp.offset + length encoded);
        new_locs =
            tmp.new_locs
            ++ (
              id,
              record { segment = segment; offset = tmp.offset; payload_len = loc.payload_len },
            )
              ∷ [];
      }

  -- The loop over the kept records: each is read, checked and written.
  unfoldable pub copy_all :
      ℕ
      → Bytes
      → List (BlockId × Location)
      → Copied
      → Compacting
      → Result (Error × Compacting) (Copied × Compacting)
  unfolding write_at read_payload checked
  copy_all segment old [] tmp c = ok (tmp, c)
  copy_all segment old ((id, loc) ∷ keep) tmp c =
      elim (checked hash device id (read_payload hash device loc old)) [
        | err e ↦ err (e, c)
        | ok payload ↦ elim (next_op c) [
          | err failed ↦ err failed
          | ok d ↦ copy_all segment old keep (copied segment id loc payload tmp) d
        ]
      ]

  -- The handle and the index entries are swapped together.
  abbrev pub swap : ℕ → Bytes → List (BlockId × Location) → Copied → Compacting → Compacting
  swap segment old dead tmp c = record c {
    store = record c.store {
      files = set_file segment tmp.tmp c.store.files;
      index = insert_all tmp.new_locs (remove_all dead c.store.index);
    };
  }

  abbrev pub count_rewrite : Bytes → List (BlockId × Location) → Copied → Compacting → Compacting
  count_rewrite old dead tmp c = record c {
    stats = record {
      segments_rewritten = c.stats.segments_rewritten + 1;
      blocks_dropped = c.stats.blocks_dropped + length dead;
      bytes_reclaimed = c.stats.bytes_reclaimed + (length old - tmp.offset);
    };
  }

  -- The sync of the new file, the length of the old one, the opening of the new one under its name,
  -- the rename, and then, with all in place, the sync of the directory.
  unfoldable pub publish : ℕ → Bytes → List (BlockId × Location) → Copied → Compacting → Outcome
  unfolding set_file insert_all remove_all
  publish segment old dead tmp c = next_op c >>= next_op >>= next_op >>= next_op >>= λ d.
      next_op (swap segment old dead tmp d) >>= λ e. ok (count_rewrite old dead tmp e)

  -- The temporary file is cut and opened, filled and published.
  unfoldable pub rewrite :
      ℕ → Bytes → List (BlockId × Location) → List (BlockId × Location) → Compacting → Outcome
  unfolding copy_all publish
  rewrite segment old keep dead c = next_op c >>= next_op >>= λ d.
      copy_all segment old keep (record { tmp = []; offset = 0; new_locs = [] }) d >>= λ r.
      publish segment old dead r.0 r.1

  unfoldable pub compact_segment : (BlockId → Bool) → ℕ → Compacting → Outcome
  unfolding entries_of file_at rewrite
  compact_segment live segment c =
      let keep = entries_of live segment c.store.index in
      let dead = entries_of (λ id. not (live id)) segment c.store.index in
      if is_empty dead then ok c else elim (file_at segment c.store.files) [
        | none ↦ err (panicked, c)
        | some old ↦ rewrite segment old keep dead c
      ]

  -- So many segments from one on.
  unfoldable pub compact_from : (BlockId → Bool) → ℕ → ℕ → Compacting → Outcome
  unfolding compact_segment
  compact_from live zero segment c = ok c
  compact_from live (suc n) segment c =
      compact_segment live segment c >>= λ d. compact_from live n (suc segment) d

  -- All segments but the last.
  unfoldable pub compact : (BlockId → Bool) → BlockStore → List Event → Outcome
  unfolding compact_from
  compact live store events = compact_from live (length store.files - 1) 0 (record {
    store = store;
    stats = record { segments_rewritten = 0; blocks_dropped = 0; bytes_reclaimed = 0 };
    events = events;
  })
