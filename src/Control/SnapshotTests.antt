-- ===== src/Control/SnapshotTests.antt =====
-- The theorems on snapshots at a concrete store: a node with one committed lease.
use kalpakdb.Prelude.{ℕ, ◌≡◌, ◌≢◌, refl, true, none, some, [], ◌∷◌, ◌++◌, nat_eq, ok}
use kalpakdb.Control.Tests.{json_key, committed_state, committed_state-IsValid, fresh_state}
use kalpakdb.Control.Snapshot.{SnapshotMeta, decode_snapshot}
use kalpakdb.Control.Snapshot.Layouts.{Codec, magic}
use kalpakdb.Control.Snapshot.Accepts.{meta_of, decode-encode}
use kalpakdb.Control.Snapshot.Store.{
  Json, written, lost, StateMachineStore, next_meta, build_snapshot, install_snapshot,
  install_decoded, open_store,
}
use kalpakdb.Control.Snapshot.Recovery.{Lawful, saved_as, open-build, install-build, install-failed}

-- A codec that knows this one state, and a file format that knows this one snapshot.
abbrev codec : Codec ℕ
codec = record {
  encode = λ s. 1 ∷ [];
  decode_v6 = λ b. some (committed_state, 1);
  decode_v5 = λ b. none;
  decode_v4 = λ b. none;
  decode_v3 = λ b. none;
  decode_v2 = λ b. none;
  decode_legacy = λ b. none;
}

abbrev node : StateMachineStore ℕ
node = record {
  state = committed_state;
  snapshot = none;
  snapshot_idx = 0;
  directory = true;
  file = none;
}

abbrev other_node : StateMachineStore ℕ
other_node = record {
  state = fresh_state;
  snapshot = none;
  snapshot_idx = 0;
  directory = true;
  file = none;
}

abbrev json : Json ℕ
json = record {
  to_vec = λ d. 2 ∷ [];
  from_slice = λ b. some (record { version = 1; meta = next_meta node; bytes = magic 6 ++ 1 ∷ [] });
}

node-Lawful : Lawful json_key codec json node
node-Lawful = record { state_law = refl; file_law = refl }

decode-encode_example :
    decode_snapshot json_key codec
      (meta_of [] committed_state)
      (magic 6 ++ codec.encode committed_state)
    ≡ ok committed_state
decode-encode_example = decode-encode json_key committed_state codec [] refl committed_state-IsValid

open-build_example :
    open_store json_key codec json 0 (build_snapshot json_key codec json written node).0.file
    ≡ ok (record (build_snapshot json_key codec json written node).0 { snapshot_idx = 0 })
open-build_example = open-build json_key codec json node 0 node-Lawful committed_state-IsValid refl

install-build_example :
    ((install_snapshot json_key codec json written other_node
        (next_meta node)
        (magic 6 ++ codec.encode committed_state)).1
      ≡ ok tt)
    × ((install_snapshot json_key codec json written other_node
          (next_meta node)
          (magic 6 ++ codec.encode committed_state)).0.state
        ≡ node.state)
    × ((install_snapshot json_key codec json written other_node
          (next_meta node)
          (magic 6 ++ codec.encode committed_state)).0.file
        ≡ some (json.to_vec (saved_as json_key codec json node)))
install-build_example =
    install-build json_key codec json node other_node node-Lawful committed_state-IsValid refl

install_lost : (install_snapshot json_key codec json lost other_node (next_meta node) []).1 ≢ ok tt
unfolding install_snapshot install_decoded decode_snapshot
    kalpakdb.Control.Snapshot.Layouts.decode_layout
install_lost e = cc

install-failed_example :
    ((install_snapshot json_key codec json lost other_node (next_meta node) []).0.state
      ≡ fresh_state)
    × ((install_snapshot json_key codec json lost other_node (next_meta node) []).0.snapshot ≡ none)
install-failed_example =
    install-failed json_key codec json other_node lost (next_meta node) [] install_lost
