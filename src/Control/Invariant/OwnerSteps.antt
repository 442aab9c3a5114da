-- ===== src/Control/Invariant/OwnerSteps.antt =====
-- Each change of the leases, agents and bindings keeps `Owners`
-- (crates/kalpak-control/src/leases.rs, state_machine.rs).
use kalpakdb.Prelude.{
  ◌==◌, Option-cases, subst, ℕ, ◌≤◌, ◌≡◌, true, false, [], Bytes, nat_eq, list_eq, unwrap_or, arith,
  ==_iff, saturating_add, u64_max, inl, inr, Bool-cases, if_cases,
}
use kalpakdb.Prelude.Map.{Map, get, insert, get-insert, Distinct-insert}
use kalpakdb.Core.Key.{BlockId, AgentId, CacheKey}
use kalpakdb.Control.Types.{LeaseCommit, UploadLease, LeaseState, AgentRecord, BindingRecord}
use kalpakdb.Control.Commit.{binding_key}
use kalpakdb.Control.Binding.{bump_revision}
use kalpakdb.Control.Invariant.{Owners, RecordOk, CommitOk}

module _ (to_string : CacheKey → Bytes) where
  -- Revisions only grow, so what was committed stays committed.
  pub CommitOk-insert :
      (revisions : Map Bytes ℕ) (lease : UploadLease) (c : LeaseCommit) (key : Bytes) (r : ℕ)
      → unwrap_or (get key revisions) 0 ≤ r
      → CommitOk to_string revisions lease c
      → CommitOk to_string (insert key r revisions) lease c
  CommitOk-insert revisions lease c key r grows h =
      let k = binding_key to_string c.binding.key in
      ground (arith, h.0, h.1, h.2, get-insert key k r revisions, ==_iff key k)

  RecordOk-insert :
      (agents : Map AgentId AgentRecord) (revisions : Map Bytes ℕ) (lease : UploadLease)
      (key : Bytes) (r : ℕ)
      → unwrap_or (get key revisions) 0 ≤ r
      → RecordOk to_string agents revisions lease
      → RecordOk to_string agents (insert key r revisions) lease
  RecordOk-insert agents revisions lease key r grows h = record {
    some_block = h.some_block;
    few_blocks = h.few_blocks;
    owner = h.owner;
    commit = λ c e. CommitOk-insert revisions lease c key r grows (h.commit c e);
  }

  RecordOk-register :
      (agents : Map AgentId AgentRecord) (revisions : Map Bytes ℕ) (lease : UploadLease)
      (agent : AgentId) (a : AgentRecord)
      → RecordOk to_string agents revisions lease
      → RecordOk to_string (insert agent a agents) revisions lease
  RecordOk-register agents revisions lease agent a h = record {
    some_block = h.some_block;
    few_blocks = h.few_blocks;
    owner = ground (arith, h.owner, get-insert agent lease.agent a agents);
    commit = h.commit;
  }

module _ (to_string : CacheKey → Bytes) (agents : Map AgentId AgentRecord)
    (bindings : Map Bytes BindingRecord) (l : LeaseState)
    (v : Owners to_string agents bindings l) where
  pub Owners-insert_record :
      (id : BlockId) (lease : UploadLease)
      → l.initialized ≡ true
      → RecordOk to_string agents l.revisions lease
      → Owners to_string agents bindings (record l { records = insert id lease l.records })
  Owners-insert_record id lease started ok_ = record {
    start = λ e. ground arith;
    record_ok = λ j r g. elim (Bool-cases (id == j)) [
      | inl same ↦
          subst (RecordOk to_string agents l.revisions)
            (ground (arith, get-insert id j lease l.records)) ok_
      | inr other ↦ v.record_ok j r (ground (arith, get-insert id j lease l.records))
    ];
    bound = v.bound;
    distinct_revisions = v.distinct_revisions;
  }

  pub Owners-register :
      (agent : AgentId) (a : AgentRecord) → Owners to_string (insert agent a agents) bindings l
  Owners-register agent a = record {
    start = v.start;
    record_ok =
        λ j r g. RecordOk-register to_string agents l.revisions r agent a (v.record_ok j r g);
    bound = v.bound;
    distinct_revisions = v.distinct_revisions;
  }

  revision_grows :
      (key : Bytes)
      → unwrap_or (get key l.revisions) 0 ≤ saturating_add (unwrap_or (get key l.revisions) 0) 1
  revision_grows key = elim (Option-cases (get key l.revisions)) [
    | inl e ↦ ground arith
    | inr (r, e) ↦ ground (arith, v.bound key r e)
  ]

  Owners-bump :
      (key : Bytes) (b : BindingRecord) (r : ℕ)
      → l.initialized ≡ true
      → unwrap_or (get key l.revisions) 0 ≤ r
      → r ≤ u64_max
      → Owners to_string agents
          (insert key b bindings)
          (record l { revisions = insert key r l.revisions })
  Owners-bump key b r started grows fits = record {
    start = λ e. ground arith;
    record_ok = λ j lease g.
        RecordOk-insert to_string agents l.revisions lease key r grows (v.record_ok j lease g);
    bound = λ j k g. ground (
      arith,
      v.bound j k,
      get-insert key j r l.revisions,
      get-insert key j b bindings,
      ==_iff key j,
    );
    distinct_revisions = Distinct-insert key r l.revisions v.distinct_revisions;
  }

  Owners-rebind :
      (key : Bytes) (b : BindingRecord) → Owners to_string agents (insert key b bindings) l
  Owners-rebind key b = record {
    start = v.start;
    record_ok = v.record_ok;
    bound = λ j k g. ground (arith, v.bound j k, get-insert key j b bindings);
    distinct_revisions = v.distinct_revisions;
  }

  -- A binding and its revision move together.
  pub Owners-bind :
      (key : Bytes) (b : BindingRecord)
      → Owners to_string agents (insert key b bindings) (bump_revision key l)
  unfolding bump_revision
  Owners-bind key b =
      if_cases (Owners to_string agents (insert key b bindings)) l.initialized
        (λ started. Owners-bump key b _ started (revision_grows key) (ground arith))
        (λ idle. Owners-rebind key b)

  -- The first reservation clears what it finds, and it finds no lease.
  pub Owners-activate :
      l.initialized ≡ false
      → Owners to_string agents bindings (record l { initialized = true; revisions = [] })
  unfolding get
  Owners-activate idle = record {
    start = λ e. cc;
    record_ok = λ j lease g. absurd (cc (v.start idle).0);
    bound = λ j k g. cc;
    distinct_revisions = tt;
  }
