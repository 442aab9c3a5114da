-- ===== src/Control/Types.antt =====
-- crates/kalpak-control/src/types.rs, and the state types of leases.rs and state_machine.rs.
use Prim.Native.String.{String}
use kalpakdb.Prelude.{
  ℕ, ◌&&◌, true, eqb, ◌≡◌, ◌↔◌, Eq, arith, Bool, false, Option, none, some, List, [], Bytes,
}
use kalpakdb.Prelude.Map.{Map}
use kalpakdb.Core.Key.{BlockId, AgentId, CacheKey}

-- A log position: openraft's `LogId`, of which the code reads the index.
pub record LeaderId : Type 0 where
  pub term : ℕ
  pub node_id : ℕ

pub record LogId : Type 0 where
  pub leader_id : LeaderId
  pub index : ℕ

pub record ChainBinding : Type 0 where
  pub key : CacheKey
  pub blocks : List BlockId
  pub parent : Option CacheKey

pub data Request : Type 0 where
  require_replicas : List BlockId → ℕ → Request
  register_agent : AgentId → Bytes → Request
  bind_prefix : AgentId → CacheKey → List BlockId → Option CacheKey → Request
  bind_chain : AgentId → List ChainBinding → Request
  begin_upload_lease : BlockId → AgentId → List BlockId → Request
  commit_upload_lease : BlockId → AgentId → ChainBinding → ℕ → Request
  cancel_upload_lease : BlockId → AgentId → Request
  renew_upload_lease : BlockId → AgentId → ℕ → ℕ → Request
  advance_lease_clock : ℕ → Request
  expire_upload_lease : BlockId → ℕ → ℕ → Request

pub data Response : Type 0 where
  replicas_required : Response
  rejected : String → Response
  registered bound lease_reserved lease_cancelled : Response
  lease_renewed : ℕ → ℕ → Response
  lease_clock_advanced lease_expired : Response

pub record LeaseDeadline : Type 0 where
  pub generation : ℕ
  pub deadline_tick : ℕ
  pub ttl_ticks : ℕ

pub record LeaseCommit : Type 0 where
  pub binding : ChainBinding
  pub expected_revision : ℕ

pub record UploadLease : Type 0 where
  pub agent : AgentId
  pub blocks : List BlockId
  pub created_at : ℕ
  pub committed : Option LeaseCommit

pub record LeaseState : Type 0 where
  pub initialized : Bool
  pub records : Map BlockId UploadLease
  pub revisions : Map Bytes ℕ
  pub cancelled : Map BlockId ℕ
  pub clock : ℕ
  pub deadlines : Map BlockId LeaseDeadline
  pub expired : Map BlockId ℕ

abbrev pub empty_leases : LeaseState
empty_leases = record {
  initialized = false;
  records = [];
  revisions = [];
  cancelled = [];
  clock = 0;
  deadlines = [];
  expired = [];
}

pub record AgentRecord : Type 0 where
  pub display_name : Bytes
  pub registered_at : ℕ

pub record BindingRecord : Type 0 where
  pub agent : AgentId
  pub blocks : List BlockId

-- `M` stands for openraft's `StoredMembership`, which the code only stores and compares.
pub record MetadataState (M : Type 0) : Type 0 where
  pub block_fences : Map BlockId ℕ
  pub leases : LeaseState
  pub replica_requirements : Map BlockId ℕ
  pub agents : Map AgentId AgentRecord
  pub bindings : Map Bytes BindingRecord
  pub children : Map Bytes (List Bytes)
  pub block_refs : Map BlockId ℕ
  pub last_applied : Option LogId
  pub membership : M

-- `MetadataState::default()`, with the default membership.
abbrev pub default_state : {M : Type 0} → M → MetadataState M
default_state m = record {
  block_fences = [];
  leases = empty_leases;
  replica_requirements = [];
  agents = [];
  bindings = [];
  children = [];
  block_refs = [];
  last_applied = none;
  membership = m;
}

-- `last_applied.map(|id| id.index).unwrap_or(0)`.
abbrev pub applied_index : Option LogId → ℕ
applied_index none = 0
applied_index (some id) = id.index

abbrev pub logid_eqb : LogId → LogId → Bool
logid_eqb a b =
    eqb a.leader_id.term b.leader_id.term
    && (eqb a.leader_id.node_id b.leader_id.node_id && eqb a.index b.index)

pub logid_eqb_iff : (a b : LogId) → (logid_eqb a b ≡ true) ↔ (a ≡ b)
logid_eqb_iff a b = ground arith

instance abbrev pub logid_eq : Eq LogId
logid_eq = record { equal = logid_eqb; equal_iff = logid_eqb_iff }
