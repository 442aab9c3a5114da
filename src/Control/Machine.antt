-- ===== src/Control/Machine.antt =====
-- crates/kalpak-control/src/state_machine.rs: how a log entry changes the replicated state.
use Prim.Native.String.{String}
use kalpakdb.Prelude.{
  Result, ℕ, ◌+◌, max, Bool, true, false, not, ◌&&◌, ◌||◌, Option, none, some, List, [], ◌∷◌, Bytes,
  nat_eq, list_eq, ltb, leb, if◌then◌else◌, length, contains, unwrap_or, ok, err,
}
use kalpakdb.Prelude.Map.{Map, get, insert, contains_key}
use kalpakdb.Core.Key.{BlockId, AgentId, CacheKey}
use kalpakdb.Control.Types.{
  LogId, ChainBinding, Request, require_replicas, register_agent, bind_prefix, bind_chain,
  begin_upload_lease, commit_upload_lease, cancel_upload_lease, renew_upload_lease,
  advance_lease_clock, expire_upload_lease, Response, replicas_required, rejected, registered,
  bound, UploadLease, LeaseCommit, MetadataState, applied_index,
}
use kalpakdb.Control.Leases.{reserve, cancel, renew, advance, expire}
use kalpakdb.Control.Commit.{binding_key, validate_commit}
use kalpakdb.Control.Binding.{bind_one, blocks_of}

abbrev pub max_block_fences : ℕ
max_block_fences = 65536

abbrev pub is_rejected : Response → Bool
is_rejected (rejected message) = true
is_rejected _ = false

-- `*n = max(*n, replicas)`, where a missing entry starts at `replicas`.
unfoldable pub raise_all : ℕ → List BlockId → Map BlockId ℕ → Map BlockId ℕ
raise_all replicas [] next = next
raise_all replicas (id ∷ ids) next =
    raise_all replicas ids (insert id (max (unwrap_or (get id next) replicas) replicas) next)

-- A `BTreeSet` of blocks: a list that repeats none.
unfoldable pub extend_set : List BlockId → List BlockId → List BlockId
extend_set set [] = set
extend_set set (b ∷ bs) = extend_set (if contains b set then set else b ∷ set) bs

-- How many of the touched blocks have no fence yet.
unfoldable pub new_fences : List BlockId → Map BlockId ℕ → ℕ
new_fences [] fences = 0
new_fences (b ∷ bs) fences = (if contains_key b fences then 0 else 1) + new_fences bs fences

unfoldable pub stamp_fences : List BlockId → ℕ → Map BlockId ℕ → Map BlockId ℕ
stamp_fences [] at fences = fences
stamp_fences (b ∷ bs) at fences = stamp_fences bs at (insert b at fences)

-- `records.get_mut(lease).unwrap().committed = Some(..)`; the lease is there when this is reached.
unfoldable pub set_committed :
    BlockId → LeaseCommit → Map BlockId UploadLease → Map BlockId UploadLease
set_committed id commit records = elim (get id records) [
  | none ↦ records
  | some lease ↦ insert id (record lease { committed = some commit }) records
]

module _ {M : Type 0} where
  unfoldable pub require : MetadataState M → List BlockId → ℕ → MetadataState M × Response
  require s blocks replicas =
      if not (leb 2 replicas && leb replicas 16) || ltb 4096 (length blocks)
      then (s, rejected "invalid replica requirements")
      else (let next = raise_all replicas blocks s.replica_requirements in
          if ltb 16384 (length next)
          then (s, rejected "replica requirement capacity exhausted")
          else (record s { replica_requirements = next }, replicas_required))

  unfoldable pub register : MetadataState M → AgentId → Bytes → MetadataState M × Response
  register s agent display_name = (
    record s {
      agents =
          insert agent
            (record { display_name = display_name; registered_at = applied_index s.last_applied })
            s.agents;
    },
    registered,
  )

abbrev pub lease_blocks : Option UploadLease → List BlockId
lease_blocks none = []
lease_blocks (some lease) = lease.blocks

module _ {M : Type 0} (to_string : CacheKey → Bytes) where
  unfoldable pub bind_all : MetadataState M → AgentId → List ChainBinding → MetadataState M
  bind_all s agent [] = s
  bind_all s agent (b ∷ bs) = bind_all (bind_one to_string s agent b.key b.blocks b.parent) agent bs

  unfoldable pub commit_bind :
      MetadataState M → BlockId → AgentId → ChainBinding → ℕ → MetadataState M
  commit_bind s id agent binding expected_revision =
      let s' = bind_one to_string s agent binding.key binding.blocks binding.parent in
      record s' {
        leases = record s'.leases {
          records =
              set_committed id (record { binding = binding; expected_revision = expected_revision })
                s'.leases.records;
        };
      }

  unfoldable pub after_check :
      MetadataState M
      → BlockId
      → AgentId
      → ChainBinding
      → ℕ
      → Result String Bool
      → MetadataState M × Response
  after_check s id agent binding expected_revision (err message) = (s, rejected message)
  after_check s id agent binding expected_revision (ok false) = (s, bound)
  after_check s id agent binding expected_revision (ok true) =
      (commit_bind s id agent binding expected_revision, bound)

  unfoldable pub commit :
      MetadataState M → BlockId → AgentId → ChainBinding → ℕ → MetadataState M × Response
  unfolding after_check
  commit s id agent binding expected_revision =
      after_check s id agent binding expected_revision
        (validate_commit to_string s id agent binding expected_revision)

  unfoldable pub apply_unfenced : MetadataState M → Request → MetadataState M × Response
  apply_unfenced s (renew_upload_lease lease agent expected ttl) = renew s lease agent expected ttl
  apply_unfenced s (advance_lease_clock expected) = advance s expected
  apply_unfenced s (expire_upload_lease lease generation tick) = expire s lease generation tick
  apply_unfenced s (cancel_upload_lease lease agent) = cancel s lease agent
  apply_unfenced s (begin_upload_lease lease agent blocks) = reserve s lease agent blocks
  apply_unfenced s (commit_upload_lease lease agent binding expected) =
      commit s lease agent binding expected
  apply_unfenced s (require_replicas blocks replicas) = require s blocks replicas
  apply_unfenced s (register_agent agent display_name) = register s agent display_name
  apply_unfenced s (bind_chain agent bindings) = (bind_all s agent bindings, bound)
  apply_unfenced s (bind_prefix agent key blocks parent) =
      (bind_one to_string s agent key blocks parent, bound)

  -- A binding touches its blocks and those that it replaces.
  touch_binding : MetadataState M → List BlockId → CacheKey → List BlockId → List BlockId
  touch_binding s set key blocks =
      extend_set (extend_set set blocks) (blocks_of (get (binding_key to_string key) s.bindings))

  touch_chain : MetadataState M → List BlockId → List ChainBinding → List BlockId
  touch_chain s set [] = set
  touch_chain s set (b ∷ bs) = touch_chain s (touch_binding s set b.key b.blocks) bs

  unfoldable pub touched : MetadataState M → Request → List BlockId
  unfolding touch_binding touch_chain
  touched s (bind_prefix agent key blocks parent) = touch_binding s [] key blocks
  touched s (bind_chain agent bindings) = touch_chain s [] bindings
  touched s (commit_upload_lease lease agent item expected) =
      touch_binding s [] item.key item.blocks
  touched s (begin_upload_lease lease agent blocks) = extend_set [] blocks
  touched s (require_replicas blocks replicas) = extend_set [] blocks
  touched s (renew_upload_lease lease agent expected ttl) =
      extend_set [] (lease_blocks (get lease s.leases.records))
  touched s _ = []

  -- The fences move to the current log position, unless the request was rejected.
  unfoldable pub stamp : List BlockId → MetadataState M × Response → MetadataState M × Response
  stamp ids (s, response) = if is_rejected response then (s, response) else (
    record s { block_fences = stamp_fences ids (applied_index s.last_applied) s.block_fences },
    response,
  )

  unfoldable pub apply_one : MetadataState M → Request → MetadataState M × Response
  apply_one s req =
      if ltb max_block_fences (length s.block_fences + new_fences (touched s req) s.block_fences)
      then (s, rejected "block fence capacity exhausted")
      else stamp (touched s req) (apply_unfenced s req)

-- A log entry; `P` stands for openraft's `Membership`.
pub data Payload (P : Type 0) : Type 0 where
  blank : Payload P
  normal : Request → Payload P
  membership : P → Payload P

pub record Entry (P : Type 0) : Type 0 where
  pub log_id : LogId
  pub payload : Payload P

-- `stored` is openraft's `StoredMembership::new`.
module _ {M P : Type 0} (to_string : CacheKey → Bytes) (stored : Option LogId → P → M) where
  unfoldable pub apply_payload : MetadataState M → LogId → Payload P → MetadataState M × Response
  apply_payload s log_id blank = (s, registered)
  apply_payload s log_id (normal req) = apply_one to_string s req
  apply_payload s log_id (membership mem) =
      (record s { membership = stored (some log_id) mem }, registered)

  unfoldable pub apply_entry : MetadataState M → Entry P → MetadataState M × Response
  apply_entry s entry =
      apply_payload (record s { last_applied = some entry.log_id }) entry.log_id entry.payload

  unfoldable pub apply : MetadataState M → List (Entry P) → MetadataState M × List Response
  apply s [] = (s, [])
  apply s (entry ∷ entries) =
      let (s', reply) = apply_entry s entry in
      let (s'', replies) = apply s' entries in (s'', reply ∷ replies)
