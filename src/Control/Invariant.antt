-- ===== src/Control/Invariant.antt =====
-- What every replicated state satisfies (crates/kalpak-control/src/leases.rs, state_machine.rs), in
-- groups, each over the parts of the state that it speaks of.
pub mod LifecycleSteps
pub mod OwnerSteps
pub mod PlaceSteps
pub mod FenceSteps
pub mod LeaseOps
pub mod RenewOps
pub mod BindOps
pub mod EntryOps
pub mod Start
use kalpakdb.Prelude.{
  ℕ, ◌+◌, ◌≤◌, ◌≡◌, Bool, true, false, not, Option, none, some, List, [], Bytes, nat_eq, list_eq,
  ltb, leb, length, is_empty, is_some_and, u64_max,
}
use kalpakdb.Prelude.Map.{Map, get, contains_key, sum_values, Distinct}
use kalpakdb.Core.Key.{BlockId, AgentId, CacheKey}
use kalpakdb.Control.Types.{
  LeaseDeadline, LeaseCommit, UploadLease, LeaseState, AgentRecord, BindingRecord, MetadataState,
  applied_index,
}
use kalpakdb.Control.Leases.{
  max_leases, max_lease_blocks, max_reserved_blocks, max_ttl_ticks, valid_binding, lease_size,
  is_committed,
}
use kalpakdb.Control.Commit.{binding_key}
use kalpakdb.Control.Machine.{max_block_fences}

-- There is a lease `id`, and it is not committed.
abbrev pub Uncommitted : LeaseState → BlockId → Type 0
Uncommitted l id = is_some_and (get id l.records) (λ lease. not (is_committed lease)) ≡ true

-- The deadline belongs to a lease and was issued by now, for a lawful time.
abbrev pub DeadlineOk : LeaseState → BlockId → LeaseDeadline → Type 0
DeadlineOk l id d =
    (contains_key id l.records ≡ true)
    × (1 ≤ d.generation)
    × (1 ≤ d.ttl_ticks)
    × (d.ttl_ticks ≤ max_ttl_ticks)
    × (d.ttl_ticks ≤ d.deadline_tick)
    × (d.deadline_tick ≤ l.clock + d.ttl_ticks)

-- An expired lease is neither committed nor cancelled, and its deadline has passed.
abbrev pub ExpiredOk : LeaseState → BlockId → Type 0
ExpiredOk l id =
    Uncommitted l id
    × (contains_key id l.cancelled ≡ false)
    × (is_some_and (get id l.deadlines) (λ d. leb d.deadline_tick l.clock) ≡ true)

pub record Lifecycle (l : LeaseState) : Type 0 where
  pub deadline :
      (id : BlockId) (d : LeaseDeadline) → get id l.deadlines ≡ some d → DeadlineOk l id d
  pub expiry : (id : BlockId) (at : ℕ) → get id l.expired ≡ some at → ExpiredOk l id
  pub cancellation : (id : BlockId) (at : ℕ) → get id l.cancelled ≡ some at → Uncommitted l id
  pub distinct_deadlines : Distinct l.deadlines
  pub distinct_expired : Distinct l.expired
  pub distinct_cancelled : Distinct l.cancelled

pub record Sizes (records : Map BlockId UploadLease) : Type 0 where
  pub few : length records ≤ max_leases
  pub reserved : sum_values lease_size records ≤ max_reserved_blocks
  pub distinct_records : Distinct records

-- A position lies between the lease's creation and the last applied entry.
abbrev pub PositionOk : ℕ → LeaseState → BlockId → ℕ → Type 0
PositionOk now l id at =
    (is_some_and (get id l.records) (λ lease. leb lease.created_at at) ≡ true) × (at ≤ now)

pub record Positions (now : ℕ) (l : LeaseState) : Type 0 where
  pub created :
      (id : BlockId) (lease : UploadLease) → get id l.records ≡ some lease → lease.created_at ≤ now
  pub cancelled_at : (id : BlockId) (at : ℕ) → get id l.cancelled ≡ some at → PositionOk now l id at
  pub expired_at : (id : BlockId) (at : ℕ) → get id l.expired ≡ some at → PositionOk now l id at

-- A commit bound the lease's own blocks, and its key's revision has moved past the expected one.
abbrev pub CommitOk : (CacheKey → Bytes) → Map Bytes ℕ → UploadLease → LeaseCommit → Type 0
CommitOk to_string revisions lease commit =
    (valid_binding commit.binding ≡ true)
    × (commit.binding.blocks ≡ lease.blocks)
    × (is_some_and (get (binding_key to_string commit.binding.key) revisions)
          (λ revision. ltb commit.expected_revision revision)
        ≡ true)

pub record RecordOk (to_string : CacheKey → Bytes) (agents : Map AgentId AgentRecord)
    (revisions : Map Bytes ℕ) (lease : UploadLease) : Type 0 where
  pub some_block : is_empty lease.blocks ≡ false
  pub few_blocks : length lease.blocks ≤ max_lease_blocks
  pub owner : contains_key lease.agent agents ≡ true
  pub commit : (c : LeaseCommit) → lease.committed ≡ some c → CommitOk to_string revisions lease c

pub record Owners (to_string : CacheKey → Bytes) (agents : Map AgentId AgentRecord)
    (bindings : Map Bytes BindingRecord) (l : LeaseState) : Type 0 where
  pub start : l.initialized ≡ false → (l.records ≡ []) × (l.revisions ≡ [])
  pub record_ok :
      (id : BlockId) (lease : UploadLease)
      → get id l.records ≡ some lease
      → RecordOk to_string agents l.revisions lease
  pub bound :
      (key : Bytes) (r : ℕ)
      → get key l.revisions ≡ some r
      → (contains_key key bindings ≡ true) × (r ≤ u64_max)
  pub distinct_revisions : Distinct l.revisions

pub record Fences (now : ℕ) (fences : Map BlockId ℕ) : Type 0 where
  pub few : length fences ≤ max_block_fences
  pub past : (id : BlockId) (at : ℕ) → get id fences ≡ some at → at ≤ now
  pub distinct : Distinct fences

pub record Requirements (requirements : Map BlockId ℕ) : Type 0 where
  pub few : length requirements ≤ 16384
  pub range : (id : BlockId) (n : ℕ) → get id requirements ≡ some n → (2 ≤ n) × (n ≤ 16)
  pub distinct : Distinct requirements

pub record IsValid {M : Type 0} (to_string : CacheKey → Bytes) (s : MetadataState M) : Type 0 where
  pub sizes : Sizes s.leases.records
  pub lifecycle : Lifecycle s.leases
  pub positions : Positions (applied_index s.last_applied) s.leases
  pub owners : Owners to_string s.agents s.bindings s.leases
  pub fences : Fences (applied_index s.last_applied) s.block_fences
  pub requirements : Requirements s.replica_requirements
