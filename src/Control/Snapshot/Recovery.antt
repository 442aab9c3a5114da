-- ===== src/Control/Snapshot/Recovery.antt =====
-- Snapshots carry the state over a restart and to another node
-- (crates/kalpak-control/src/state_machine.rs).
use kalpakdb.Prelude.{
  ◌+◌, ◌≡◌, refl, Bool, true, some, ◌++◌, Bytes, Eq, length, arith, ok, ◌∙◌, ◌≢◌, ap, sym,
}
use kalpakdb.Core.Key.{CacheKey}
use kalpakdb.Control.Invariant.{IsValid}
use kalpakdb.Control.Snapshot.{SnapshotMeta}
use kalpakdb.Control.Snapshot.Layouts.{Codec, magic}
use kalpakdb.Control.Snapshot.Accepts.{decode-encode}
use kalpakdb.Control.Snapshot.Store.{
  DurableSnapshot, Json, Write, written, lost, unsure, StateMachineStore, next_meta, build_snapshot,
  install_snapshot, install_decoded, open_store, open_saved, open_decoded,
}

module _ {M : Type 0} ⦃e : Eq M⦄ (to_string : CacheKey → Bytes) (codec : Codec M)
    (json : Json M) where
  abbrev pub snapshot_bytes : StateMachineStore M → Bytes
  snapshot_bytes store = magic 6 ++ codec.encode store.state

  abbrev pub saved_as : StateMachineStore M → DurableSnapshot M
  saved_as store = record { version = 1; meta = next_meta store; bytes = snapshot_bytes store }

  -- What the codecs are for, at the state of a store: they read back what they wrote, and bincode
  -- consumes all of it.
  pub record Lawful (store : StateMachineStore M) : Type 0 where
    pub state_law :
        codec.decode_v6 (codec.encode store.state)
        ≡ some (store.state, length (codec.encode store.state))
    pub file_law : json.from_slice (json.to_vec (saved_as store)) ≡ some (saved_as store)

  abbrev pub reopened_as : StateMachineStore M → Bool → StateMachineStore M
  reopened_as store directory = record {
    state = store.state;
    snapshot = some (next_meta store, snapshot_bytes store);
    snapshot_idx = 0;
    directory = directory;
    file = some (json.to_vec (saved_as store));
  }

  -- What a durable store is after a snapshot that was written.
  built :
      (store : StateMachineStore M)
      → store.directory ≡ true
      → (build_snapshot to_string codec json written store).0 ≡ record store {
        snapshot = some (next_meta store, snapshot_bytes store);
        snapshot_idx = store.snapshot_idx + 1;
        file = some (json.to_vec (saved_as store));
      }
  unfolding build_snapshot
  built store durable = ground arith

  open_saved_lem :
      (store : StateMachineStore M) (m : M)
      → Lawful store
      → IsValid to_string store.state
      → open_store to_string codec json m (some (json.to_vec (saved_as store)))
        ≡ ok (reopened_as store true)
  unfolding open_store open_saved open_decoded
  open_saved_lem store m law v = simp (
    law.file_law,
    decode-encode to_string store.state codec (next_meta store).snapshot_id law.state_law v,
  )

  -- When a durable store with a well-formed state and lawful codecs has built and written a
  -- snapshot, opening its file gives the same store, except that the snapshot counter restarts
  -- at zero.
  pub open-build :
      (store : StateMachineStore M) (m : M)
      → Lawful store
      → IsValid to_string store.state
      → store.directory ≡ true
      → let after = (build_snapshot to_string codec json written store).0 in
        open_store to_string codec json m after.file ≡ ok (record after { snapshot_idx = 0 })
  open-build store m law v durable =
      rw (built store durable)
        (open_saved_lem store m law v ∙ ap (λ d. ok (reopened_as store d)) (sym durable))

  -- When the write of a durable snapshot does not complete, the build returns no snapshot, and
  -- the store keeps its state and its current snapshot.
  pub build-failed :
      (store : StateMachineStore M) (write : Write)
      → store.directory ≡ true
      → write ≢ written
      → let (after, result) = build_snapshot to_string codec json write store in
        ((x : SnapshotMeta M × Bytes) → result ≢ ok x)
        × (after.state ≡ store.state)
        × (after.snapshot ≡ store.snapshot)
  unfolding build_snapshot
  build-failed store written durable fails = absurd (fails refl)
  build-failed store lost durable fails = ((λ x. ground arith), ground arith, ground arith)
  build-failed store unsure durable fails = ((λ x. ground arith), ground arith, ground arith)

  -- A durable follower that installs the snapshot of a leader with a well-formed state and
  -- lawful codecs has the state of the leader, and has saved the snapshot in its file.
  pub install-build :
      (leader follower : StateMachineStore M)
      → Lawful leader
      → IsValid to_string leader.state
      → follower.directory ≡ true
      → let (after, result) =
          install_snapshot to_string codec json written follower
            (next_meta leader)
            (snapshot_bytes leader) in
        (result ≡ ok tt)
        × (after.state ≡ leader.state)
        × (after.file ≡ some (json.to_vec (saved_as leader)))
  unfolding install_snapshot install_decoded
  install-build leader follower law v durable =
      let decoded =
        decode-encode to_string leader.state codec (next_meta leader).snapshot_id law.state_law v in
      (rw (decoded, durable), rw (decoded, durable), rw (decoded, durable))

  -- A store whose installation of a snapshot does not succeed, for whatever metadata, bytes
  -- and outcome of the write, keeps its state and its current snapshot.
  pub install-failed :
      (store : StateMachineStore M) (write : Write) (meta : SnapshotMeta M) (bytes : Bytes)
      → (install_snapshot to_string codec json write store meta bytes).1 ≢ ok tt
      → let after = (install_snapshot to_string codec json write store meta bytes).0 in
        (after.state ≡ store.state) × (after.snapshot ≡ store.snapshot)
  unfolding install_snapshot install_decoded
  install-failed store write meta bytes fails = ground arith
