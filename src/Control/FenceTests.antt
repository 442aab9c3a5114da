-- ===== src/Control/FenceTests.antt =====
-- Requests on concrete states for the fences, the replica requirements and the retried commits of
-- crates/kalpak-control/src.
use kalpakdb.Prelude.{ℕ, ◌≡◌, not, ◌||◌, [], ◌∷◌, if◌then◌else◌, contains, max, list_eq, nat_eq}
use kalpakdb.Control.Types.{MetadataState, begin_upload_lease, register_agent}
use kalpakdb.Control.Machine.{require, is_rejected}
use kalpakdb.Control.Fencing.{required, require-required}
use kalpakdb.Control.Tests.{agent_a, lease_1, block_1, block_2, entry, after_history, fresh_state}

abbrev reserved_state : MetadataState ℕ
reserved_state = after_history (
    entry 1 (register_agent agent_a (110 ∷ []))
    ∷ entry 2 (begin_upload_lease lease_1 agent_a (block_1 ∷ block_2 ∷ []))
    ∷ [])

require-required_example :
    let (after, response) = require fresh_state (block_1 ∷ block_1 ∷ []) 3 in
    required block_1 after.replica_requirements ≡ (
      if is_rejected response || not (contains block_1 (block_1 ∷ block_1 ∷ []))
      then required block_1 fresh_state.replica_requirements
      else max (required block_1 fresh_state.replica_requirements) 3)
require-required_example = require-required fresh_state (block_1 ∷ block_1 ∷ []) 3 block_1
