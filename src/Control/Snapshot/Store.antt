-- ===== src/Control/Snapshot/Store.antt =====
-- crates/kalpak-control/src/state_machine.rs, `StateMachineStore`: the state with its snapshots and
-- the file `raft-snapshot.json`; and durability.rs, `replace`, by which the file is written.
use Prim.Native.String.{String}
use mathlib.Core.List.{reverse}
use kalpakdb.Prelude.{
  ℕ, zero, suc, ◌+◌, ◌/◌, ◌%◌, Bool, true, not, Option, none, some, [], ◌∷◌, ◌++◌, Bytes, eqb, Eq,
  if◌then◌else◌, Result, ok, err,
}
use kalpakdb.Core.Key.{CacheKey}
use kalpakdb.Control.Types.{LogId, MetadataState, default_state, applied_index}
use kalpakdb.Control.Snapshot.{SnapshotMeta, decode_snapshot}
use kalpakdb.Control.Snapshot.Layouts.{Codec, magic}

pub record DurableSnapshot (M : Type 0) : Type 0 where
  pub version : ℕ
  pub meta : SnapshotMeta M
  pub bytes : Bytes

-- serde_json, for the file.
pub record Json (M : Type 0) : Type 0 where
  pub to_vec : DurableSnapshot M → Bytes
  pub from_slice : Bytes → Option (DurableSnapshot M)

-- How `durability::replace` ends: done; failed before the rename; failed after it, when the new
-- contents may be there although the call reports an error.
pub data Write : Type 0 where
  written lost unsure : Write

unfoldable pub replace : Write → Bytes → Option Bytes → Option Bytes × Result String (Unit {0})
replace written bytes file = (some bytes, ok tt)
replace lost bytes file = (file, err "write failed")
replace unsure bytes file = (some bytes, err "directory sync failed")

-- `directory` says whether the store is durable, and `file` is what its directory holds.
pub record StateMachineStore (M : Type 0) : Type 0 where
  pub state : MetadataState M
  pub snapshot : Option (SnapshotMeta M × Bytes)
  pub snapshot_idx : ℕ
  pub directory : Bool
  pub file : Option Bytes

-- `{n}` in a format string, for a `u64`: at most twenty digits, the last one first.
digits_from : ℕ → ℕ → Bytes
digits_from zero n = []
digits_from (suc fuel) n =
    let rest = digits_from fuel (n / 10) in (b'0' + n % 10) ∷ (if eqb (n / 10) 0 then [] else rest)

abbrev snapshot_word : Bytes
snapshot_word = b's' ∷ b'n' ∷ b'a' ∷ b'p' ∷ b's' ∷ b'h' ∷ b'o' ∷ b't' ∷ b'-' ∷ []

unfoldable pub snapshot_name : ℕ → ℕ → Bytes
unfolding digits_from
snapshot_name index idx =
    snapshot_word ++ (reverse (digits_from 20 index) ++ b'-' ∷ reverse (digits_from 20 idx))

module _ {M : Type 0} (json : Json M) where
  unfoldable pub persist_snapshot :
      Write
      → StateMachineStore M
      → SnapshotMeta M
      → Bytes
      → StateMachineStore M × Result String (Unit {0})
  unfolding replace
  persist_snapshot write store meta bytes =
      if store.directory
      then (let (file, result) =
            replace write (json.to_vec (record { version = 1; meta = meta; bytes = bytes }))
              store.file in
          (record store { file = file }, result))
      else (store, ok tt)

abbrev pub next_meta : {M : Type 0} → StateMachineStore M → SnapshotMeta M
next_meta store = record {
  last_log_id = store.state.last_applied;
  last_membership = store.state.membership;
  snapshot_id = snapshot_name (applied_index store.state.last_applied) (store.snapshot_idx + 1);
}

module _ {M : Type 0} ⦃e : Eq M⦄ (to_string : CacheKey → Bytes) (codec : Codec M)
    (json : Json M) where
  abbrev pub Snapshot : Type 0
  Snapshot = SnapshotMeta M × Bytes

  -- What follows an attempt to write the file: the change of the store, if it was written.
  unfoldable pub publish :
      {A : Type 0}
      → StateMachineStore M × Result String (Unit {0})
      → (StateMachineStore M → StateMachineStore M × A)
      → StateMachineStore M × Result String A
  publish (store, err message) next = (store, err message)
  publish (store, ok _) next = let (store', a) = next store in (store', ok a)

  unfoldable pub build_snapshot :
      Write → StateMachineStore M → StateMachineStore M × Result String (SnapshotMeta M × Bytes)
  unfolding publish persist_snapshot
  build_snapshot write store =
      let bytes = magic 6 ++ codec.encode store.state in
      let meta = next_meta store in
      publish
        (persist_snapshot json write (record store { snapshot_idx = store.snapshot_idx + 1 }) meta
          bytes)
        (λ saved. (record saved { snapshot = some (meta, bytes) }, (meta, bytes)))

  unfoldable pub install_decoded :
      Write
      → StateMachineStore M
      → SnapshotMeta M
      → Bytes
      → Result String (MetadataState M)
      → StateMachineStore M × Result String (Unit {0})
  unfolding publish persist_snapshot
  install_decoded write store meta bytes (err message) = (store, err message)
  install_decoded write store meta bytes (ok new_state) =
      publish (persist_snapshot json write store meta bytes)
        (λ saved. (record saved { state = new_state; snapshot = some (meta, bytes) }, tt))

  unfoldable pub install_snapshot :
      Write
      → StateMachineStore M
      → SnapshotMeta M
      → Bytes
      → StateMachineStore M × Result String (Unit {0})
  unfolding install_decoded
  install_snapshot write store meta bytes =
      install_decoded write store meta bytes (decode_snapshot to_string codec meta bytes)

  unfoldable pub open_decoded :
      Option Bytes
      → DurableSnapshot M
      → Result String (MetadataState M)
      → Result String (StateMachineStore M)
  open_decoded file saved (err message) = err message
  open_decoded file saved (ok state) = ok (record {
    state = state;
    snapshot = some (saved.meta, saved.bytes);
    snapshot_idx = 0;
    directory = true;
    file = file;
  })

  unfoldable pub open_saved :
      Bytes → Option (DurableSnapshot M) → Result String (StateMachineStore M)
  unfolding open_decoded
  open_saved bytes none = err "malformed snapshot file"
  open_saved bytes (some saved) =
      if not (eqb saved.version 1)
      then err "unsupported snapshot version"
      else open_decoded (some bytes) saved (decode_snapshot to_string codec saved.meta saved.bytes)

  -- `open`: recover the state from the file, if there is one. `m` is the default membership.
  unfoldable pub open_store : M → Option Bytes → Result String (StateMachineStore M)
  unfolding open_saved
  open_store m none = ok (record {
    state = default_state m;
    snapshot = none;
    snapshot_idx = 0;
    directory = true;
    file = none;
  })
  open_store m (some bytes) = open_saved bytes (json.from_slice bytes)

abbrev pub get_current_snapshot :
    {M : Type 0} → StateMachineStore M → Option (SnapshotMeta M × Bytes)
get_current_snapshot store = store.snapshot

abbrev pub applied_state : {M : Type 0} → StateMachineStore M → Option LogId × M
applied_state store = (store.state.last_applied, store.state.membership)
