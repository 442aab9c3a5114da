-- ===== src/Control/Commit.antt =====
-- crates/kalpak-control/src/leases.rs, `validate_commit`. The key of a binding is its JSON text;
-- serde_json is taken as the function `to_string`.
use Prim.Native.String.{String}
use kalpakdb.Prelude.{
  ℕ, Bool, true, false, not, ◌&&◌, ◌||◌, none, some, Bytes, nat_eq, list_eq, option_eq, eqb, ◌==◌,
  if◌then◌else◌, is_some_and, unwrap_or, u64_max, Result, ok, err,
}
use kalpakdb.Prelude.Map.{get, contains_key}
use kalpakdb.Core.Key.{BlockId, AgentId, CacheKey, fingerprint_eq, key_eq}
use kalpakdb.Control.Types.{ChainBinding, LeaseCommit, UploadLease, MetadataState}
use kalpakdb.Control.Leases.{valid_binding, is_expired}

-- Whether a consumed lease is retried exactly.
unfoldable pub same_commit : LeaseCommit → ChainBinding → ℕ → Bool
same_commit old binding expected_revision =
    eqb old.expected_revision expected_revision
    && (old.binding.key == binding.key
        && (old.binding.parent == binding.parent && old.binding.blocks == binding.blocks))

abbrev pub binding_key : (CacheKey → Bytes) → CacheKey → Bytes
binding_key to_string key = to_string key

module _ {M : Type 0} (to_string : CacheKey → Bytes) where
  -- The check of a lease that is still pending.
  unfoldable pub validate_pending :
      MetadataState M → AgentId → ChainBinding → ℕ → Result String Bool
  validate_pending s agent binding expected_revision =
      let key = binding_key to_string binding.key in
      let current = unwrap_or (get key s.leases.revisions) 0 in
      if is_some_and (get key s.bindings) (λ old. not (old.agent == agent))
      then err "binding belongs to a different agent"
      else if eqb current u64_max || not (eqb current expected_revision)
      then err "binding revision conflict"
      else ok true

  validate_known :
      MetadataState M → BlockId → AgentId → ChainBinding → ℕ → UploadLease → Result String Bool
  validate_known s id agent binding expected_revision lease =
      if not (lease.agent == agent) || not (lease.blocks == binding.blocks)
      then err "lease owner or blocks mismatch"
      else if contains_key id s.leases.cancelled
      then err "upload lease cancelled"
      else if is_expired s.leases id
      then err "upload lease expired"
      else elim lease.committed [
        | some old ↦
            if same_commit old binding expected_revision
            then ok false
            else err "upload lease already consumed"
        | none ↦ validate_pending s agent binding expected_revision
      ]

  -- `ok true`: bind now. `ok false`: the lease was consumed by this very commit.
  unfoldable pub validate_commit :
      MetadataState M → BlockId → AgentId → ChainBinding → ℕ → Result String Bool
  unfolding validate_known
  validate_commit s id agent binding expected_revision =
      if not (valid_binding binding)
      then err "invalid lease binding fingerprint or parent"
      else elim (get id s.leases.records) [
        | none ↦ err "unknown upload lease"
        | some lease ↦ validate_known s id agent binding expected_revision lease
      ]
