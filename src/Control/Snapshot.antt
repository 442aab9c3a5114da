-- ===== src/Control/Snapshot.antt =====
-- crates/kalpak-control/src/state_machine.rs: the checks of a snapshot before it becomes state.
-- The bytes of each layout are decoded by bincode, which is taken as a `Codec`.
pub mod Layouts
pub mod Accepts
pub mod Store
pub mod Recovery
use Prim.Native.String.{String}
use kalpakdb.Prelude.{
  ℕ, ◌+◌, Bool, true, false, not, ◌&&◌, ◌||◌, Option, none, some, List, Bytes, nat_eq, list_eq,
  option_eq, Eq, ltb, leb, eqb, ◌==◌, if◌then◌else◌, length, is_empty, is_some, is_some_and,
  is_none_or, checked_sub, Result, ok, err, ◌>>=◌,
}
use kalpakdb.Prelude.Map.{Map, get, contains_key, any_entry, sum_values}
use kalpakdb.Core.Key.{CacheKey}
use kalpakdb.Control.Types.{
  LogId, LeaseDeadline, LeaseCommit, UploadLease, LeaseState, MetadataState, applied_index,
  logid_eq,
}
use kalpakdb.Control.Leases.{
  max_leases, max_lease_blocks, max_reserved_blocks, max_ttl_ticks, valid_binding, lease_size,
  is_committed,
}
use kalpakdb.Control.Commit.{binding_key}
use kalpakdb.Control.Machine.{max_block_fences}
use Layouts.{Codec, decode_layout}

pub record SnapshotMeta (M : Type 0) : Type 0 where
  pub last_log_id : Option LogId
  pub last_membership : M
  pub snapshot_id : Bytes

-- The tests of `LeaseState::validate`, each true when the entry is bad.
bad_deadline : LeaseState → Bytes → LeaseDeadline → Bool
bad_deadline l id d =
    not (contains_key id l.records)
    || (eqb d.generation 0
        || (not (leb 1 d.ttl_ticks && leb d.ttl_ticks max_ttl_ticks)
            || is_none_or (checked_sub d.deadline_tick d.ttl_ticks) (λ issued. ltb l.clock issued)))

bad_expired : LeaseState → Bytes → ℕ → Bool
bad_expired l id at =
    is_none_or (get id l.records) is_committed
    || (contains_key id l.cancelled
        || is_none_or (get id l.deadlines) (λ d. ltb l.clock d.deadline_tick))

bad_cancelled : LeaseState → Bytes → ℕ → Bool
bad_cancelled l id at = is_none_or (get id l.records) is_committed

bad_commit : (CacheKey → Bytes) → LeaseState → UploadLease → LeaseCommit → Bool
bad_commit to_string l lease commit =
    not (valid_binding commit.binding)
    || (not (commit.binding.blocks == lease.blocks)
        || not (contains_key (binding_key to_string commit.binding.key) l.revisions))

bad_record : (CacheKey → Bytes) → LeaseState → Bytes → UploadLease → Bool
unfolding bad_commit
bad_record to_string l id lease =
    is_empty lease.blocks
    || (ltb max_lease_blocks (length lease.blocks)
        || is_some_and lease.committed (bad_commit to_string l lease))

unfoldable pub validate : (CacheKey → Bytes) → LeaseState → Result String (Unit {0})
unfolding bad_deadline bad_expired bad_cancelled bad_record
validate to_string l =
    if ltb max_leases (length l.records)
      || (any_entry (bad_deadline l) l.deadlines
          || (any_entry (bad_expired l) l.expired
              || (any_entry (bad_cancelled l) l.cancelled
                  || ((not l.initialized
                        && (not (is_empty l.records) || not (is_empty l.revisions)))
                      || (ltb max_reserved_blocks (sum_values lease_size l.records)
                          || any_entry (bad_record to_string l) l.records)))))
    then err "invalid upload lease snapshot"
    else ok tt

-- A position of a cancellation or an expiry: not before the lease, not after the snapshot. The
-- lease is there, since `validate` has passed; the source indexes the map.
bad_position : {M : Type 0} → MetadataState M → Bytes → ℕ → Bool
bad_position s id at =
    is_none_or (get id s.leases.records) (λ lease. ltb at lease.created_at)
    || ltb (applied_index s.last_applied) at

bad_revision : (CacheKey → Bytes) → LeaseState → LeaseCommit → Bool
bad_revision to_string l commit =
    is_none_or (get (binding_key to_string commit.binding.key) l.revisions)
      (λ revision. leb revision commit.expected_revision)

bad_owner : {M : Type 0} → (CacheKey → Bytes) → MetadataState M → Bytes → UploadLease → Bool
unfolding bad_revision
bad_owner to_string s id lease =
    not (contains_key lease.agent s.agents)
    || is_some_and lease.committed (bad_revision to_string s.leases)

-- The checks of the state itself.
unfoldable pub check_contents :
    {M : Type 0} → (CacheKey → Bytes) → MetadataState M → Result String (MetadataState M)
unfolding validate bad_position bad_owner
check_contents to_string s =
    if ltb 16384 (length s.replica_requirements)
      || any_entry (λ id n. not (leb 2 n && leb n 16)) s.replica_requirements
    then err "invalid snapshot replica requirements"
    else (validate to_string s.leases >>= λ _.
        if ltb max_block_fences (length s.block_fences)
          || any_entry (λ id at. ltb (applied_index s.last_applied) at) s.block_fences
        then err "invalid block fence positions"
        else if any_entry (bad_position s) s.leases.cancelled
        then err "invalid lease cancellation position"
        else if any_entry (bad_position s) s.leases.expired
        then err "invalid lease expiry position"
        else if any_entry (λ key revision. not (contains_key key s.bindings)) s.leases.revisions
            || any_entry (bad_owner to_string s) s.leases.records
        then err "inconsistent upload lease snapshot"
        else ok s)

module _ {M : Type 0} ⦃e : Eq M⦄ (to_string : CacheKey → Bytes) where
  -- All checks after the payload has been decoded, `consumed` bytes of it.
  unfoldable pub check_snapshot :
      SnapshotMeta M → Bytes → MetadataState M → ℕ → Result String (MetadataState M)
  check_snapshot meta bytes s consumed =
      if not (eqb consumed (length bytes))
        || (not (s.last_applied == meta.last_log_id) || not (s.membership == meta.last_membership))
      then err "snapshot metadata/payload mismatch"
      else check_contents to_string s

  unfoldable pub decode_snapshot :
      Codec M → SnapshotMeta M → Bytes → Result String (MetadataState M)
  decode_snapshot codec meta bytes =
      decode_layout codec bytes >>= λ decoded. check_snapshot meta bytes decoded.0 decoded.1
