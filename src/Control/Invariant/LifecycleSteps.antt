-- ===== src/Control/Invariant/LifecycleSteps.antt =====
-- Each change of the lease maps keeps `Lifecycle` (crates/kalpak-control/src/leases.rs).
use kalpakdb.Prelude.{
  ℕ, ◌≤◌, ◌≡◌, inl, inr, Option-cases, true, false, none, nat_eq, list_eq, arith, ==_iff,
}
use kalpakdb.Prelude.Map.{get, insert, contains_key, get-insert, Distinct-insert}
use kalpakdb.Core.Key.{BlockId}
use kalpakdb.Control.Types.{LeaseDeadline, UploadLease, LeaseState}
use kalpakdb.Control.Leases.{is_expired}
use kalpakdb.Control.Invariant.{Lifecycle, Uncommitted, DeadlineOk, ExpiredOk}

module _ (l : LeaseState) (v : Lifecycle l) (id : BlockId) where
  -- A new lease, or a committed one that was pending.
  pub Lifecycle-insert_record :
      (lease : UploadLease)
      → get id l.records ≡ none
      → lease.committed ≡ none
      → Lifecycle (record l { records = insert id lease l.records })
  Lifecycle-insert_record lease fresh open_ = record {
    deadline =
        λ j d g. ground (arith, v.deadline j d, get-insert id j lease l.records, ==_iff id j);
    expiry = λ j at g. ground (arith, v.expiry j at, get-insert id j lease l.records, ==_iff id j);
    cancellation =
        λ j at g. ground (arith, v.cancellation j at, get-insert id j lease l.records, ==_iff id j);
    distinct_deadlines = v.distinct_deadlines;
    distinct_expired = v.distinct_expired;
    distinct_cancelled = v.distinct_cancelled;
  }

  pub Lifecycle-commit :
      (lease : UploadLease)
      → contains_key id l.records ≡ true
      → contains_key id l.cancelled ≡ false
      → contains_key id l.expired ≡ false
      → Lifecycle (record l { records = insert id lease l.records })
  Lifecycle-commit lease known open_ alive = record {
    deadline =
        λ j d g. ground (arith, v.deadline j d, get-insert id j lease l.records, ==_iff id j);
    expiry = λ j at g. ground (arith, v.expiry j at, get-insert id j lease l.records, ==_iff id j);
    cancellation =
        λ j at g. ground (arith, v.cancellation j at, get-insert id j lease l.records, ==_iff id j);
    distinct_deadlines = v.distinct_deadlines;
    distinct_expired = v.distinct_expired;
    distinct_cancelled = v.distinct_cancelled;
  }

  pub Lifecycle-cancel :
      (at : ℕ)
      → Uncommitted l id
      → contains_key id l.expired ≡ false
      → Lifecycle (record l { cancelled = insert id at l.cancelled })
  Lifecycle-cancel at pending alive = record {
    deadline = v.deadline;
    expiry = λ j b g. ground (arith, v.expiry j b, get-insert id j at l.cancelled, ==_iff id j);
    cancellation =
        λ j b g. ground (arith, v.cancellation j b, get-insert id j at l.cancelled, ==_iff id j);
    distinct_deadlines = v.distinct_deadlines;
    distinct_expired = v.distinct_expired;
    distinct_cancelled = Distinct-insert id at l.cancelled v.distinct_cancelled;
  }

  pub Lifecycle-renew :
      (d : LeaseDeadline)
      → contains_key id l.expired ≡ false
      → DeadlineOk l id d
      → Lifecycle (record l { deadlines = insert id d l.deadlines })
  Lifecycle-renew d alive fits = record {
    deadline = λ j b g. ground (arith, v.deadline j b, get-insert id j d l.deadlines, ==_iff id j);
    expiry = λ j b g. ground (arith, v.expiry j b, get-insert id j d l.deadlines, ==_iff id j);
    cancellation = v.cancellation;
    distinct_deadlines = Distinct-insert id d l.deadlines v.distinct_deadlines;
    distinct_expired = v.distinct_expired;
    distinct_cancelled = v.distinct_cancelled;
  }

  pub Lifecycle-expire :
      (at : ℕ) → ExpiredOk l id → Lifecycle (record l { expired = insert id at l.expired })
  Lifecycle-expire at over = record {
    deadline = v.deadline;
    expiry = λ j b g. ground (arith, v.expiry j b, get-insert id j at l.expired, ==_iff id j);
    cancellation = v.cancellation;
    distinct_deadlines = v.distinct_deadlines;
    distinct_expired = Distinct-insert id at l.expired v.distinct_expired;
    distinct_cancelled = v.distinct_cancelled;
  }

module _ (l : LeaseState) (v : Lifecycle l) where
  pub Lifecycle-advance : (now : ℕ) → l.clock ≤ now → Lifecycle (record l { clock = now })
  Lifecycle-advance now later = record {
    deadline = λ j d g. ground (arith, v.deadline j d g);
    expiry = λ j at g. ground (arith, v.expiry j at g);
    cancellation = v.cancellation;
    distinct_deadlines = v.distinct_deadlines;
    distinct_expired = v.distinct_expired;
    distinct_cancelled = v.distinct_cancelled;
  }

  -- A pending lease has no expiry marker unless its deadline has passed.
  pub not_expired :
      (id : BlockId)
      → Uncommitted l id
      → contains_key id l.cancelled ≡ false
      → is_expired l id ≡ false
      → contains_key id l.expired ≡ false
  unfolding is_expired
  not_expired id pending open_ alive = ground arith

  pub expired_now : (id : BlockId) → is_expired l id ≡ true → ExpiredOk l id
  unfolding is_expired
  expired_now id over = elim (Option-cases (get id l.expired)) [
    | inl e ↦ ground arith
    | inr (at, e) ↦ v.expiry id at e
  ]
