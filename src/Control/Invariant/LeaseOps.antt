-- ===== src/Control/Invariant/LeaseOps.antt =====
-- Reserving and cancelling leases (crates/kalpak-control/src/leases.rs) keeps the invariant.
use kalpakdb.Prelude.{
  ◌≤◌, ◌≡◌, refl, true, false, not, none, some, List, [], Bytes, nat_eq, list_eq, ltb, arith,
  if_cases, option_cases, length, ◌==◌, ◌||◌, ap,
}
use kalpakdb.Prelude.Map.{get, insert, contains_key}
use kalpakdb.Core.Key.{BlockId, AgentId, CacheKey}
use kalpakdb.Control.Types.{UploadLease, LeaseState, MetadataState, Response, applied_index}
use kalpakdb.Control.Leases.{
  is_expired, is_committed, activate, reserve_new, reserve_active, reserve, cancel,
  max_lease_blocks,
}
use kalpakdb.Control.Invariant.{IsValid, Sizes, Lifecycle, Positions, Owners, RecordOk, is_empty}
use kalpakdb.Control.Invariant.LifecycleSteps.{
  Lifecycle-insert_record, Lifecycle-cancel, not_expired,
}
use kalpakdb.Control.Invariant.OwnerSteps.{Owners-insert_record, Owners-activate}
use kalpakdb.Control.Invariant.PlaceSteps.{
  Positions-insert_record, Positions-cancel, Sizes-insert_record,
}

module _ {M : Type 0} (to_string : CacheKey → Bytes) (s : MetadataState M)
    (v : IsValid to_string s) where
  abbrev P : MetadataState M × Response → Type 0
  P r = IsValid to_string r.0

  -- A change of the leases alone.
  pub IsValid-leases :
      (l : LeaseState)
      → Sizes l.records
      → Lifecycle l
      → Positions (applied_index s.last_applied) l
      → Owners to_string s.agents s.bindings l
      → IsValid to_string (record s { leases = l })
  IsValid-leases l sizes life places owners = record {
    sizes = sizes;
    lifecycle = life;
    positions = places;
    owners = owners;
    fences = v.fences;
    requirements = v.requirements;
  }

  pub activate-IsValid : IsValid to_string (activate s)
  unfolding activate
  activate-IsValid =
      if_cases (IsValid to_string) s.leases.initialized (λ _. v)
        λ idle.
          IsValid-leases (record s.leases { initialized = true; revisions = [] }) v.sizes
            (record {
              deadline = v.lifecycle.deadline;
              expiry = v.lifecycle.expiry;
              cancellation = v.lifecycle.cancellation;
              distinct_deadlines = v.lifecycle.distinct_deadlines;
              distinct_expired = v.lifecycle.distinct_expired;
              distinct_cancelled = v.lifecycle.distinct_cancelled;
            })
            (record {
              created = v.positions.created;
              cancelled_at = v.positions.cancelled_at;
              expired_at = v.positions.expired_at;
            })
            (Owners-activate to_string s.agents s.bindings s.leases v.owners idle)

  reserve_new-IsValid :
      (id : BlockId) (agent : AgentId) (blocks : List BlockId)
      → s.leases.initialized ≡ true
      → get id s.leases.records ≡ none
      → RecordOk to_string s.agents s.leases.revisions (record {
        agent = agent;
        blocks = blocks;
        created_at = applied_index s.last_applied;
        committed = none;
      })
      → IsValid to_string (reserve_new s id agent blocks).0
  unfolding reserve_new
  reserve_new-IsValid id agent blocks started fresh good =
      if_cases P _ (λ _. v)
        λ room.
          IsValid-leases _
            (Sizes-insert_record s.leases.records v.sizes id _ fresh (ground arith) (ground arith))
            (Lifecycle-insert_record s.leases v.lifecycle id _ fresh refl)
            (Positions-insert_record _ s.leases v.positions id _ fresh refl)
            (Owners-insert_record to_string s.agents s.bindings s.leases v.owners id _ started good)

  cancel_pending-IsValid :
      (id : BlockId) (lease : UploadLease)
      → get id s.leases.records ≡ some lease
      → is_committed lease ≡ false
      → is_expired s.leases id ≡ false
      → contains_key id s.leases.cancelled ≡ false
      → IsValid to_string (record s {
        leases = record s.leases {
          cancelled = insert id (applied_index s.last_applied) s.leases.cancelled;
        };
      })
  cancel_pending-IsValid id lease known open_ alive first =
      IsValid-leases _ v.sizes
        (Lifecycle-cancel s.leases v.lifecycle id _ (ground arith)
          (not_expired s.leases v.lifecycle id (ground arith) first alive))
        (Positions-cancel _ s.leases v.positions id lease known)
        (record {
          start = v.owners.start;
          record_ok = v.owners.record_ok;
          bound = v.owners.bound;
          distinct_revisions = v.owners.distinct_revisions;
        })

  pub cancel-IsValid : (id : BlockId) (agent : AgentId) → IsValid to_string (cancel s id agent).0
  unfolding cancel
  cancel-IsValid id agent =
      option_cases P (get id s.leases.records) (λ _. v)
        λ lease known.
          if_cases P (not (lease.agent == agent)) (λ _. v)
            λ _.
              if_cases P (is_committed lease) (λ _. v)
                λ open_.
                  if_cases P (is_expired s.leases id) (λ _. v)
                    λ alive.
                      if_cases P (contains_key id s.leases.cancelled) (λ _. v)
                        λ first. cancel_pending-IsValid id lease known open_ alive first

  reserve_active-IsValid :
      (id : BlockId) (agent : AgentId) (blocks : List BlockId)
      → s.leases.initialized ≡ true
      → is_empty blocks ≡ false
      → length blocks ≤ max_lease_blocks
      → contains_key agent s.agents ≡ true
      → IsValid to_string (reserve_active s id agent blocks).0
  unfolding reserve_active
  reserve_active-IsValid id agent blocks started some_block few owner =
      option_cases P (get id s.leases.records)
        (λ fresh.
          reserve_new-IsValid id agent blocks started fresh (record {
            some_block = some_block;
            few_blocks = few;
            owner = owner;
            commit = λ c e. cc;
          }))
        (λ old known. v)

module _ {M : Type 0} (to_string : CacheKey → Bytes) (s : MetadataState M) where
  activate_lem : ((activate s).leases.initialized ≡ true) × ((activate s).agents ≡ s.agents)
  unfolding activate
  activate_lem = ground arith

  pub reserve-IsValid :
      IsValid to_string s
      → (id : BlockId) (agent : AgentId) (blocks : List BlockId)
      → IsValid to_string (reserve s id agent blocks).0
  unfolding reserve
  reserve-IsValid v id agent blocks =
      if_cases (λ (r : MetadataState M × Response). IsValid to_string r.0)
        (is_empty blocks
          || (ltb max_lease_blocks (length blocks) || not (contains_key agent s.agents)))
        (λ _. v)
        λ formed.
          reserve_active-IsValid to_string (activate s) (activate-IsValid to_string s v) id agent
            blocks activate_lem.0 (ground arith) (ground arith)
            (ground (arith, ap (contains_key agent) activate_lem.1))
