-- ===== src/Control/Status/Steps.antt =====
-- Each operation of crates/kalpak-control/src/leases.rs makes an allowed change at every lease.
use kalpakdb.Prelude.{
  ℕ, ◌≡◌, refl, true, false, Option, none, some, List, Bytes, nat_eq, list_eq, arith, ==_iff, ◌≤◌,
  option_cases, Option-cases, if_cases, is_some_and, ltb, inl, eqb, ◌||◌, inr, ◌==◌, checked_add,
  leb, ◌+◌, ◌&&◌, u64_max, length, not,
}
use kalpakdb.Prelude.Map.{get, insert, contains_key, sum_values, get-insert}
use kalpakdb.Core.Key.{BlockId, AgentId, CacheKey}
use kalpakdb.Control.Types.{LeaseDeadline, UploadLease, LeaseState, MetadataState, Response}
use kalpakdb.Control.Leases.{
  is_committed, is_expired, activate, reserve_new, reserve_active, cancel, renew_pending, renew,
  advance, expire, generation_of, max_ttl_ticks, max_leases, max_reserved_blocks, lease_size,
}
use kalpakdb.Control.Invariant.{IsValid, Lifecycle}
use kalpakdb.Control.Status.{status, allowed}

module _ (l : LeaseState) (v : Lifecycle l) (id j : BlockId) where
  insert_cancelled :
      (at : ℕ)
      → is_expired l id ≡ false
      → allowed (status l j) (status (record l { cancelled = insert id at l.cancelled }) j) ≡ true
  unfolding status is_expired
  insert_cancelled at alive = ground (arith, get-insert id j at l.cancelled, ==_iff id j)

  insert_expired :
      (at : ℕ)
      → is_expired l id ≡ true
      → allowed (status l j) (status (record l { expired = insert id at l.expired }) j) ≡ true
  unfolding status is_expired
  insert_expired at over = ground (arith, get-insert id j at l.expired, ==_iff id j)

  insert_deadline :
      (d : LeaseDeadline)
      → is_expired l id ≡ false
      → allowed (status l j) (status (record l { deadlines = insert id d l.deadlines }) j) ≡ true
  unfolding status is_expired
  insert_deadline d alive = ground (arith, get-insert id j d l.deadlines, ==_iff id j)

  -- Nothing is on file for an identifier that names no lease.
  no_marker :
      get id l.records ≡ none
      → (get id l.cancelled ≡ none) × (get id l.expired ≡ none) × (get id l.deadlines ≡ none)
  no_marker fresh = (cancelled_none, expired_none, deadline_none)
    where
      cancelled_none : get id l.cancelled ≡ none
      cancelled_none = elim (Option-cases (get id l.cancelled)) [
        | inl e ↦ e
        | inr (at, e) ↦ absurd (ground (arith, v.cancellation id at e))
      ]

      expired_none : get id l.expired ≡ none
      expired_none = elim (Option-cases (get id l.expired)) [
        | inl e ↦ e
        | inr (at, e) ↦ absurd (ground (arith, v.expiry id at e))
      ]

      deadline_none : get id l.deadlines ≡ none
      deadline_none = elim (Option-cases (get id l.deadlines)) [
        | inl e ↦ e
        | inr (d, e) ↦ absurd (ground (arith, v.deadline id d e))
      ]

  insert_record :
      (lease : UploadLease)
      → get id l.records ≡ none
      → lease.committed ≡ none
      → allowed (status l j) (status (record l { records = insert id lease l.records }) j) ≡ true
  unfolding status is_expired
  insert_record lease fresh open_ =
      ground (arith, get-insert id j lease l.records, ==_iff id j, no_marker fresh)

  pub commit_record :
      (old lease : UploadLease)
      → get id l.records ≡ some old
      → old.committed ≡ none
      → is_committed lease ≡ true
      → contains_key id l.cancelled ≡ false
      → is_expired l id ≡ false
      → allowed (status l j) (status (record l { records = insert id lease l.records }) j) ≡ true
  unfolding status is_expired
  commit_record old lease known open_ closed held alive =
      ground (arith, get-insert id j lease l.records, ==_iff id j)

  later_clock :
      (now : ℕ) → l.clock ≤ now → allowed (status l j) (status (record l { clock = now }) j) ≡ true
  unfolding status is_expired
  later_clock now later = ground arith

module _ {M : Type 0} (to_string : CacheKey → Bytes) (s : MetadataState M) (v : IsValid to_string s)
    (j : BlockId) where
  -- The change of lease `j` from `s` to a later state is an allowed one.
  abbrev pub Allowed : MetadataState M → Type 0
  Allowed t = allowed (status s.leases j) (status t.leases j) ≡ true

  abbrev P : MetadataState M × Response → Type 0
  P r = Allowed r.0

  pub same : allowed (status s.leases j) (status s.leases j) ≡ true
  unfolding status
  same = ground arith

  pub cancel-Allowed : (id : BlockId) (agent : AgentId) → Allowed (cancel s id agent).0
  unfolding cancel
  cancel-Allowed id agent =
      option_cases P (get id s.leases.records) (λ _. same)
        λ lease known.
          if_cases P (not (lease.agent == agent)) (λ _. same)
            λ _.
              if_cases P (is_committed lease) (λ _. same)
                λ open_.
                  if_cases P (is_expired s.leases id) (λ _. same)
                    λ alive.
                      if_cases P (contains_key id s.leases.cancelled) (λ _. same)
                        λ first. insert_cancelled s.leases v.lifecycle id j _ alive

  pub expire-Allowed :
      (id : BlockId) (generation tick : ℕ) → Allowed (expire s id generation tick).0
  unfolding expire
  expire-Allowed id generation tick =
      if_cases P _ (λ _. same)
        λ (due : not (is_expired s.leases id) || _ ≡ false).
          if_cases P (contains_key id s.leases.expired) (λ _. same)
            λ first. insert_expired s.leases v.lifecycle id j _ (ground arith)

  renew_pending-Allowed :
      (id : BlockId) (expected ttl : ℕ) (old : Option LeaseDeadline)
      → is_expired s.leases id ≡ false
      → Allowed (renew_pending s id expected ttl old).0
  unfolding renew_pending
  renew_pending-Allowed id expected ttl old alive =
      if_cases P (is_some_and old (λ d. eqb d.generation (expected + 1) && eqb d.ttl_ticks ttl))
        (λ _. same)
        λ _.
          if_cases P (not (eqb expected (generation_of old))) (λ _. same)
            λ _.
              option_cases P (checked_add s.leases.clock ttl) (λ _. same)
                λ tick sum.
                  if_cases P (is_some_and old (λ d. leb tick d.deadline_tick)) (λ _. same)
                    λ _. insert_deadline s.leases v.lifecycle id j _ alive

  pub renew-Allowed :
      (id : BlockId) (agent : AgentId) (expected ttl : ℕ)
      → Allowed (renew s id agent expected ttl).0
  unfolding renew
  renew-Allowed id agent expected ttl =
      option_cases P (get id s.leases.records) (λ _. same)
        λ lease known.
          if_cases P
            (not (lease.agent == agent)
              || (is_committed lease
                  || (contains_key id s.leases.cancelled || is_expired s.leases id)))
            (λ _. same)
            λ pending.
              if_cases P (not (leb 1 ttl && leb ttl max_ttl_ticks) || eqb expected u64_max)
                (λ _. same)
                λ formed.
                  renew_pending-Allowed id expected ttl (get id s.leases.deadlines) (ground arith)

  pub advance-Allowed : (expected : ℕ) → Allowed (advance s expected).0
  unfolding advance
  advance-Allowed expected =
      if_cases P (ltb expected s.leases.clock) (λ _. same)
        λ _.
          if_cases P (not (eqb expected s.leases.clock)) (λ _. same)
            λ now.
              option_cases P (checked_add expected 1) (λ _. same)
                λ next sum. later_clock s.leases v.lifecycle j j next (ground arith)

  reserve_new-Allowed :
      (id : BlockId) (agent : AgentId) (blocks : List BlockId)
      → get id s.leases.records ≡ none
      → Allowed (reserve_new s id agent blocks).0
  unfolding reserve_new
  reserve_new-Allowed id agent blocks fresh =
      if_cases P
        (leb max_leases (length s.leases.records)
          || ltb max_reserved_blocks (sum_values lease_size s.leases.records + length blocks))
        (λ _. same) (λ room. insert_record s.leases v.lifecycle id j _ fresh refl)

  pub reserve_active-Allowed :
      (id : BlockId) (agent : AgentId) (blocks : List BlockId)
      → Allowed (reserve_active s id agent blocks).0
  unfolding reserve_active
  reserve_active-Allowed id agent blocks =
      option_cases P (get id s.leases.records) (λ fresh. reserve_new-Allowed id agent blocks fresh)
        (λ old known. same)

  pub status-activate : status (activate s).leases j ≡ status s.leases j
  unfolding activate status is_expired
  status-activate = ground arith
