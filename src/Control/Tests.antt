-- ===== src/Control/Tests.antt =====
-- The theorems on the control plane at concrete inputs: one agent, one lease on two blocks.
use kalpakdb.Prelude.{
  ℕ, ◌≡◌, refl, Option, none, some, List, [], ◌∷◌, Bytes, nat_eq, list_eq, option_eq, arith,
}
use kalpakdb.Prelude.Map.{get, insert, sum_values}
use kalpakdb.Core.Key.{BlockId, AgentId, CacheKey, fingerprint_eq, key_eq}
use kalpakdb.Control.Types.{
  LogId, ChainBinding, Request, register_agent, bind_prefix, begin_upload_lease,
  commit_upload_lease, cancel_upload_lease, MetadataState, default_state,
}
use kalpakdb.Control.Binding.{bind_one, bump_revision, acquire_refs, release_refs}
use kalpakdb.Control.Leases.{
  valid_binding, reserve_again, cancel, reserve, reserve_active, reserve_new, activate, is_expired,
  renew, renew_pending,
}
use kalpakdb.Control.Machine.{
  normal, Entry, apply, apply_entry, apply_payload, apply_one, apply_unfenced, touched, stamp,
  extend_set, new_fences, stamp_fences, commit, after_check, commit_bind, set_committed, register,
}
use kalpakdb.Control.Commit.{validate_commit, validate_pending}
use kalpakdb.Control.Invariant.{IsValid}
use kalpakdb.Control.Invariant.EntryOps.{apply-IsValid}
use kalpakdb.Control.Invariant.Start.{default-IsValid, history-IsValid}
use kalpakdb.Control.Status.{Status, status, Move}
use kalpakdb.Control.Status.Life.{apply_one-Move, terminal-apply}
use kalpakdb.Control.Refs.{RefsExact}
use kalpakdb.Control.Refs.Requests.{apply_one-RefsExact}

abbrev pub agent_a : AgentId
agent_a = 65 ∷ []

abbrev pub lease_1 : BlockId
lease_1 = 1 ∷ []

abbrev pub block_1 : BlockId
block_1 = 11 ∷ []

abbrev pub block_2 : BlockId
block_2 = 12 ∷ []

abbrev pub key_1 : CacheKey
key_1 = record {
  fingerprint = record { model_id = 77 ∷ []; tokenizer_hash = 84 ∷ []; kv_layout = 76 ∷ [] };
  prefix_hash = 1 ∷ [];
}

abbrev pub binding_1 : ChainBinding
binding_1 = record { key = key_1; blocks = block_1 ∷ block_2 ∷ []; parent = none }

abbrev pub json_key : CacheKey → Bytes
json_key key = key.prefix_hash

-- Memberships are numbers here.
abbrev pub stored : Option LogId → ℕ → ℕ
stored at m = m

abbrev pub entry : ℕ → Request → Entry ℕ
entry index req = record {
  log_id = record { leader_id = record { term = 1; node_id = 1 }; index = index };
  payload = normal req;
}

abbrev registered_history : List (Entry ℕ)
registered_history = entry 1 (register_agent agent_a (110 ∷ [])) ∷ []

abbrev pub committed_history : List (Entry ℕ)
committed_history =
    entry 1 (register_agent agent_a (110 ∷ []))
    ∷ entry 2 (begin_upload_lease lease_1 agent_a (block_1 ∷ block_2 ∷ []))
    ∷ entry 3 (commit_upload_lease lease_1 agent_a binding_1 0)
    ∷ []

abbrev pub fresh_state : MetadataState ℕ
fresh_state = default_state 0

-- The state after a history, with all that it takes to compute it.
unfoldable pub after_history : List (Entry ℕ) → MetadataState ℕ
unfolding apply apply_entry apply_payload apply_one apply_unfenced touched stamp extend_set
    new_fences stamp_fences commit validate_commit validate_pending after_check commit_bind
    set_committed bind_one bump_revision acquire_refs release_refs valid_binding register reserve
    activate reserve_active reserve_new reserve_again is_expired status get insert sum_values cancel
    renew renew_pending
after_history es = (apply json_key stored (default_state 0) es).0

abbrev pub committed_state : MetadataState ℕ
committed_state = after_history committed_history

-- The commit went through: the lease is committed, and the key is bound.
commit_run : status committed_state.leases lease_1 ≡ Status.committed
unfolding after_history
commit_run = refl

commit_binds :
    get (1 ∷ []) committed_state.bindings
    ≡ some (record { agent = agent_a; blocks = block_1 ∷ block_2 ∷ [] })
unfolding after_history
commit_binds = refl

apply-IsValid_example :
    IsValid json_key (apply json_key stored (default_state 0) committed_history).0
apply-IsValid_example =
    apply-IsValid json_key stored (default_state 0) committed_history (default-IsValid json_key 0)
      (omega arith)

pub committed_state-IsValid : IsValid json_key committed_state
unfolding after_history
committed_state-IsValid = history-IsValid json_key stored 0 committed_history (omega arith)

apply_one-Move_example : Move (status committed_state.leases lease_1) (
    status
      (apply_one json_key committed_state (cancel_upload_lease lease_1 agent_a)).0.leases
      lease_1)
apply_one-Move_example =
    apply_one-Move json_key committed_state committed_state-IsValid lease_1
      (cancel_upload_lease lease_1 agent_a)

terminal-apply_example :
    status
      (apply json_key stored committed_state
        (entry 4 (cancel_upload_lease lease_1 agent_a) ∷ [])).0.leases
      lease_1
    ≡ status committed_state.leases lease_1
unfolding after_history
terminal-apply_example =
    terminal-apply json_key stored lease_1 committed_state
      (entry 4 (cancel_upload_lease lease_1 agent_a) ∷ []) committed_state-IsValid (omega arith) tt

start-RefsExact : RefsExact fresh_state
unfolding get sum_values
start-RefsExact = record { exact = λ b. refl; no_zero = λ b e. absurd (ground arith) }

apply_one-RefsExact_example :
    RefsExact
      (apply_one json_key fresh_state (bind_prefix agent_a key_1 (block_1 ∷ block_1 ∷ []) none)).0
unfolding sum_values
apply_one-RefsExact_example =
    apply_one-RefsExact json_key fresh_state start-RefsExact
      (bind_prefix agent_a key_1 (block_1 ∷ block_1 ∷ []) none) (omega arith)
