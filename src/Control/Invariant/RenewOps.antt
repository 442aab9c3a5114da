-- ===== src/Control/Invariant/RenewOps.antt =====
-- Renewing and expiring leases, and the clock (crates/kalpak-control/src/leases.rs), keep the
-- invariant.
use kalpakdb.Prelude.{
  ℕ, ◌+◌, ◌≤◌, ◌≡◌, true, false, not, Option, some, Bytes, nat_eq, list_eq, leb, ltb, eqb,
  is_some_and, arith, if_cases, option_cases, checked_add, ◌&&◌, ◌==◌, ◌||◌,
}
use kalpakdb.Prelude.Map.{get, insert, contains_key}
use kalpakdb.Core.Key.{BlockId, AgentId, CacheKey}
use kalpakdb.Control.Types.{LeaseDeadline, UploadLease, MetadataState, Response, applied_index}
use kalpakdb.Control.Leases.{
  is_expired, is_committed, renew_pending, renew, advance, expire, generation_of, max_ttl_ticks,
}
use kalpakdb.Control.Invariant.{IsValid, u64_max}
use kalpakdb.Control.Invariant.LifecycleSteps.{
  Lifecycle-renew, Lifecycle-expire, Lifecycle-advance, not_expired, expired_now,
}
use kalpakdb.Control.Invariant.PlaceSteps.{Positions-expire}
use kalpakdb.Control.Invariant.LeaseOps.{IsValid-leases}

module _ {M : Type 0} (to_string : CacheKey → Bytes) (s : MetadataState M)
    (v : IsValid to_string s) where
  abbrev P : MetadataState M × Response → Type 0
  P r = IsValid to_string r.0

  renewed-IsValid :
      (id : BlockId) (d : LeaseDeadline) (lease : UploadLease)
      → get id s.leases.records ≡ some lease
      → is_committed lease ≡ false
      → contains_key id s.leases.cancelled ≡ false
      → is_expired s.leases id ≡ false
      → 1 ≤ d.generation
      → 1 ≤ d.ttl_ticks
      → d.ttl_ticks ≤ max_ttl_ticks
      → d.deadline_tick ≡ s.leases.clock + d.ttl_ticks
      → IsValid to_string
          (record s { leases = record s.leases { deadlines = insert id d s.leases.deadlines } })
  renewed-IsValid id d lease known open_ held alive g1 t1 t2 tick =
      IsValid-leases to_string s v _ v.sizes
        (Lifecycle-renew s.leases v.lifecycle id d
          (not_expired s.leases v.lifecycle id (ground arith) held alive) (ground arith))
        (record {
          created = v.positions.created;
          cancelled_at = v.positions.cancelled_at;
          expired_at = v.positions.expired_at;
        })
        (record {
          start = v.owners.start;
          record_ok = v.owners.record_ok;
          bound = v.owners.bound;
          distinct_revisions = v.owners.distinct_revisions;
        })

  renew_pending-IsValid :
      (id : BlockId) (lease : UploadLease) (expected ttl : ℕ) (old : Option LeaseDeadline)
      → get id s.leases.records ≡ some lease
      → is_committed lease ≡ false
      → contains_key id s.leases.cancelled ≡ false
      → is_expired s.leases id ≡ false
      → 1 ≤ ttl
      → ttl ≤ max_ttl_ticks
      → IsValid to_string (renew_pending s id expected ttl old).0
  unfolding renew_pending
  renew_pending-IsValid id lease expected ttl old known open_ held alive t1 t2 =
      if_cases P (is_some_and old (λ d. eqb d.generation (expected + 1) && eqb d.ttl_ticks ttl))
        (λ _. v)
        λ _.
          if_cases P (not (eqb expected (generation_of old))) (λ _. v)
            λ _.
              option_cases P (checked_add s.leases.clock ttl) (λ _. v)
                λ tick sum.
                  if_cases P (is_some_and old (λ d. leb tick d.deadline_tick)) (λ _. v)
                    λ _.
                      renewed-IsValid id _ lease known open_ held alive (omega arith) t1 t2
                        (ground arith)

  pub renew-IsValid :
      (id : BlockId) (agent : AgentId) (expected ttl : ℕ)
      → IsValid to_string (renew s id agent expected ttl).0
  unfolding renew
  renew-IsValid id agent expected ttl =
      option_cases P (get id s.leases.records) (λ _. v)
        λ lease known.
          if_cases P
            (not (lease.agent == agent)
              || (is_committed lease
                  || (contains_key id s.leases.cancelled || is_expired s.leases id)))
            (λ _. v)
            λ pending.
              if_cases P (not (leb 1 ttl && leb ttl max_ttl_ticks) || eqb expected u64_max) (λ _. v)
                λ formed.
                  renew_pending-IsValid id lease expected ttl (get id s.leases.deadlines) known
                    (ground arith) (ground arith) (ground arith) (ground arith) (ground arith)

  pub advance-IsValid : (expected : ℕ) → IsValid to_string (advance s expected).0
  unfolding advance
  advance-IsValid expected =
      if_cases P (ltb expected s.leases.clock) (λ _. v)
        λ _.
          if_cases P (not (eqb expected s.leases.clock)) (λ _. v)
            λ same.
              option_cases P (checked_add expected 1) (λ _. v)
                λ next sum.
                  IsValid-leases to_string s v _ v.sizes
                    (Lifecycle-advance s.leases v.lifecycle next (ground arith))
                    (record {
                      created = v.positions.created;
                      cancelled_at = v.positions.cancelled_at;
                      expired_at = v.positions.expired_at;
                    })
                    (record {
                      start = v.owners.start;
                      record_ok = v.owners.record_ok;
                      bound = v.owners.bound;
                      distinct_revisions = v.owners.distinct_revisions;
                    })

  expire_over-IsValid :
      (id : BlockId) (lease : UploadLease)
      → get id s.leases.records ≡ some lease
      → is_expired s.leases id ≡ true
      → IsValid to_string (record s {
        leases = record s.leases {
          expired = insert id (applied_index s.last_applied) s.leases.expired;
        };
      })
  expire_over-IsValid id lease known over =
      IsValid-leases to_string s v _ v.sizes
        (Lifecycle-expire s.leases v.lifecycle id _ (expired_now s.leases v.lifecycle id over))
        (Positions-expire _ s.leases v.positions id lease known)
        (record {
          start = v.owners.start;
          record_ok = v.owners.record_ok;
          bound = v.owners.bound;
          distinct_revisions = v.owners.distinct_revisions;
        })

  expired_known :
      (id : BlockId)
      → is_expired s.leases id ≡ true
      → (lease : UploadLease) × (get id s.leases.records ≡ some lease)
  unfolding is_expired
  expired_known id over = ground arith

  pub expire-IsValid :
      (id : BlockId) (generation tick : ℕ) → IsValid to_string (expire s id generation tick).0
  unfolding expire
  expire-IsValid id generation tick =
      if_cases P _ (λ _. v)
        λ (due : not (is_expired s.leases id) || _ ≡ false).
          if_cases P (contains_key id s.leases.expired) (λ _. v)
            λ first.
              let over : is_expired s.leases id ≡ true = ground arith in
              expire_over-IsValid id (expired_known id over).0 (expired_known id over).1 over
