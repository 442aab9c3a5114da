-- ===== src/Control/Leases.antt =====
-- crates/kalpak-control/src/leases.rs: reservations and their logical clock. An operation returns
-- the new state and its response.
use kalpakdb.Prelude.{
  nat_eq, list_eq, option_eq, ℕ, ◌+◌, Bool, true, not, ◌&&◌, ◌||◌, Option, none, some, List, [],
  ltb, leb, eqb, ◌==◌, if◌then◌else◌, length, is_empty, is_some, is_some_and, is_none_or, u64_max,
  checked_add,
}
use kalpakdb.Prelude.Map.{get, insert, contains_key, sum_values}
use kalpakdb.Core.Key.{BlockId, AgentId, CacheKey, fingerprint_eq, key_eq}
use kalpakdb.Control.Types.{
  ChainBinding, Response, rejected, lease_reserved, lease_cancelled, lease_renewed,
  lease_clock_advanced, lease_expired, LeaseDeadline, UploadLease, LeaseState, MetadataState,
  applied_index,
}

abbrev pub max_leases : ℕ
max_leases = 4096

abbrev pub max_lease_blocks : ℕ
max_lease_blocks = 256

abbrev pub max_reserved_blocks : ℕ
max_reserved_blocks = 65536

abbrev pub max_ttl_ticks : ℕ
max_ttl_ticks = 86400

valid_key : CacheKey → Bool
valid_key key =
    leb (length key.fingerprint.model_id) 1024
    && (leb (length key.fingerprint.tokenizer_hash) 1024
        && leb (length key.fingerprint.kv_layout) 1024)

unfoldable pub valid_binding : ChainBinding → Bool
unfolding valid_key
valid_binding b =
    valid_key b.key
    && is_none_or b.parent (λ parent. valid_key parent && parent.fingerprint == b.key.fingerprint)

abbrev pub lease_size : UploadLease → ℕ
lease_size lease = length lease.blocks

abbrev pub is_committed : UploadLease → Bool
is_committed lease = is_some lease.committed

unfoldable pub is_expired : LeaseState → BlockId → Bool
is_expired l id =
    is_some_and (get id l.records) (λ lease. not (is_committed lease))
    && (not (contains_key id l.cancelled)
        && (contains_key id l.expired
            || is_some_and (get id l.deadlines) (λ deadline. leb deadline.deadline_tick l.clock)))

abbrev pub generation_of : Option LeaseDeadline → ℕ
generation_of none = 0
generation_of (some old) = old.generation

module _ {M : Type 0} where
  -- The first reservation starts the common fence.
  unfoldable pub activate : MetadataState M → MetadataState M
  activate s =
      if s.leases.initialized
      then s
      else record s { leases = record s.leases { initialized = true; revisions = [] } }

  -- A retry of a reservation that exists.
  unfoldable pub reserve_again :
      MetadataState M → BlockId → AgentId → List BlockId → UploadLease → Response
  reserve_again s id agent blocks old =
      if old.agent == agent && old.blocks == blocks
      then (if is_expired s.leases id
          then rejected "upload lease expired"
          else if contains_key id s.leases.cancelled
          then rejected "upload lease cancelled"
          else lease_reserved)
      else rejected "lease ID already belongs to a different reservation"

  unfoldable pub reserve_new :
      MetadataState M → BlockId → AgentId → List BlockId → MetadataState M × Response
  reserve_new s id agent blocks =
      if leb max_leases (length s.leases.records)
        || ltb max_reserved_blocks (sum_values lease_size s.leases.records + length blocks)
      then (s, rejected "replicated upload lease capacity exhausted")
      else (
        record s {
          leases = record s.leases {
            records =
                insert id
                  (record {
                    agent = agent;
                    blocks = blocks;
                    created_at = applied_index s.last_applied;
                    committed = none;
                  })
                  s.leases.records;
          };
        },
        lease_reserved,
      )

  unfoldable pub reserve_active :
      MetadataState M → BlockId → AgentId → List BlockId → MetadataState M × Response
  reserve_active s id agent blocks = elim (get id s.leases.records) [
    | some old ↦ (s, reserve_again s id agent blocks old)
    | none ↦ reserve_new s id agent blocks
  ]

  unfoldable pub reserve :
      MetadataState M → BlockId → AgentId → List BlockId → MetadataState M × Response
  reserve s id agent blocks =
      if is_empty blocks
        || (ltb max_lease_blocks (length blocks) || not (contains_key agent s.agents))
      then (s, rejected "lease requires a registered owner and 1..256 block hashes")
      else reserve_active (activate s) id agent blocks

  unfoldable pub cancel : MetadataState M → BlockId → AgentId → MetadataState M × Response
  cancel s id agent = elim (get id s.leases.records) [
    | none ↦ (s, rejected "unknown upload lease")
    | some lease ↦
        if not (lease.agent == agent)
        then (s, rejected "lease owner mismatch")
        else if is_committed lease
        then (s, rejected "committed upload lease cannot be cancelled")
        else if is_expired s.leases id
        then (s, rejected "upload lease expired")
        else if contains_key id s.leases.cancelled
        then (s, lease_cancelled)
        else (
          record s {
            leases = record s.leases {
              cancelled = insert id (applied_index s.last_applied) s.leases.cancelled;
            };
          },
          lease_cancelled,
        )
  ]

  -- The renewal proper, once the lease is known to be pending and the request well formed.
  unfoldable pub renew_pending :
      MetadataState M → BlockId → ℕ → ℕ → Option LeaseDeadline → MetadataState M × Response
  renew_pending s id expected ttl old =
      if is_some_and old (λ d. eqb d.generation (expected + 1) && eqb d.ttl_ticks ttl)
      then (s, lease_renewed (generation_of old) (elim old [ none ↦ 0 | some d ↦ d.deadline_tick ]))
      else if not (eqb expected (generation_of old))
      then (s, rejected "lease renewal generation conflict")
      else elim (checked_add s.leases.clock ttl) [
        | none ↦ (s, rejected "lease clock exhausted")
        | some deadline_tick ↦
            if is_some_and old (λ d. leb deadline_tick d.deadline_tick)
            then (s, rejected "renewal must extend the deadline")
            else (
              record s {
                leases = record s.leases {
                  deadlines =
                      insert id
                        (record {
                          generation = generation_of old + 1;
                          deadline_tick = deadline_tick;
                          ttl_ticks = ttl;
                        })
                        s.leases.deadlines;
                };
              },
              lease_renewed (generation_of old + 1) deadline_tick,
            )
      ]

  unfoldable pub renew : MetadataState M → BlockId → AgentId → ℕ → ℕ → MetadataState M × Response
  renew s id agent expected ttl = elim (get id s.leases.records) [
    | none ↦ (s, rejected "unknown upload lease")
    | some lease ↦
        if not (lease.agent == agent)
          || (is_committed lease || (contains_key id s.leases.cancelled || is_expired s.leases id))
        then (s, rejected "lease is not pending for this owner")
        else if not (leb 1 ttl && leb ttl max_ttl_ticks) || eqb expected u64_max
        then (s, rejected "invalid TTL or renewal generation")
        else renew_pending s id expected ttl (get id s.leases.deadlines)
  ]

  unfoldable pub advance : MetadataState M → ℕ → MetadataState M × Response
  advance s expected =
      if ltb expected s.leases.clock
      then (s, lease_clock_advanced)
      else if not (eqb expected s.leases.clock)
      then (s, rejected "lease clock conflict")
      else elim (checked_add expected 1) [
        | none ↦ (s, rejected "lease clock exhausted")
        | some next ↦ (record s { leases = record s.leases { clock = next } }, lease_clock_advanced)
      ]

  unfoldable pub expire : MetadataState M → BlockId → ℕ → ℕ → MetadataState M × Response
  expire s id generation deadline_tick =
      if not (is_expired s.leases id)
        || is_none_or (get id s.leases.deadlines) (λ deadline.
          not (eqb deadline.generation generation)
          || not (eqb deadline.deadline_tick deadline_tick))
      then (s, rejected "stale or premature lease expiry")
      else if contains_key id s.leases.expired
      then (s, lease_expired)
      else (
        record s {
          leases = record s.leases {
            expired = insert id (applied_index s.last_applied) s.leases.expired;
          };
        },
        lease_expired,
      )
