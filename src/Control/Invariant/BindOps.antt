-- ===== src/Control/Invariant/BindOps.antt =====
-- Bindings and lease commits keep the invariant (crates/kalpak-control/src/state_machine.rs).
use Prim.Native.String.{String}
use kalpakdb.Prelude.{
  ℕ, ◌≤◌, ◌≡◌, refl, Bool, true, false, Option, none, some, List, [], ◌∷◌, Bytes, nat_eq, list_eq,
  option_eq, ltb, is_some_and, unwrap_or, arith, ==_iff, if_cases, Option-cases, inl, inr,
  Bool-cases, u64_max, Result, ok, err, ap, ◌≢◌, saturating_add, subst, ◌∙◌, sym,
}
use kalpakdb.Prelude.Map.{get, contains_key, get-insert}
use kalpakdb.Core.Key.{BlockId, AgentId, CacheKey, fingerprint_eq, key_eq}
use kalpakdb.Control.Types.{ChainBinding, LeaseCommit, UploadLease, LeaseState, MetadataState}
use kalpakdb.Control.Leases.{valid_binding, is_expired}
use kalpakdb.Control.Commit.{binding_key, validate_commit, validate_pending}
use kalpakdb.Control.Binding.{bump_revision, bind_one}
use kalpakdb.Control.Machine.{set_committed, bind_all, commit_bind, commit, after_check}
use kalpakdb.Control.Invariant.{IsValid, Sizes, Lifecycle, Positions, CommitOk}
use kalpakdb.Control.Invariant.LifecycleSteps.{Lifecycle-commit, not_expired}
use kalpakdb.Control.Invariant.OwnerSteps.{Owners-insert_record, Owners-bind}
use kalpakdb.Control.Invariant.PlaceSteps.{Positions-replace_record, Sizes-replace_record}

-- Moving a revision leaves all else of the leases alone.
module _ (key : Bytes) (l : LeaseState) where
  Sizes-bump : Sizes l.records → Sizes (bump_revision key l).records
  unfolding bump_revision
  Sizes-bump v = if_cases (λ (k : LeaseState). Sizes k.records) l.initialized (λ _. v) (λ _. v)

  Lifecycle-bump : Lifecycle l → Lifecycle (bump_revision key l)
  unfolding bump_revision
  Lifecycle-bump v =
      if_cases Lifecycle l.initialized
        (λ _. record {
          deadline = v.deadline;
          expiry = v.expiry;
          cancellation = v.cancellation;
          distinct_deadlines = v.distinct_deadlines;
          distinct_expired = v.distinct_expired;
          distinct_cancelled = v.distinct_cancelled;
        })
        (λ _. v)

  Positions-bump : (now : ℕ) → Positions now l → Positions now (bump_revision key l)
  unfolding bump_revision
  Positions-bump now v =
      if_cases (Positions now) l.initialized
        (λ _. record {
          created = v.created;
          cancelled_at = v.cancelled_at;
          expired_at = v.expired_at;
        })
        (λ _. v)

  pub bump_revision_lem :
      ((bump_revision key l).records ≡ l.records)
      × ((bump_revision key l).cancelled ≡ l.cancelled)
      × ((bump_revision key l).expired ≡ l.expired)
      × ((bump_revision key l).deadlines ≡ l.deadlines)
      × ((bump_revision key l).clock ≡ l.clock)
      × ((bump_revision key l).initialized ≡ l.initialized)
  unfolding bump_revision
  bump_revision_lem = ground arith

  -- The revision that a commit expects is passed by its binding.
  revision-bump :
      l.initialized ≡ true
      → (expected : ℕ) → unwrap_or (get key l.revisions) 0 ≡ expected
      → expected ≤ u64_max
      → expected ≢ u64_max
      → is_some_and (get key (bump_revision key l).revisions) (λ r. ltb expected r) ≡ true
  unfolding bump_revision
  revision-bump started expected now fits room =
      let next : ℕ = saturating_add (unwrap_or (get key l.revisions) 0) 1 in
      ground (arith, get-insert key key next l.revisions, ==_iff key key)

module _ {M : Type 0} (to_string : CacheKey → Bytes) where
  pub bind_one-IsValid :
      (s : MetadataState M)
      → IsValid to_string s
      → (agent : AgentId) (key : CacheKey) (blocks : List BlockId) (parent : Option CacheKey)
      → IsValid to_string (bind_one to_string s agent key blocks parent)
  unfolding bind_one
  bind_one-IsValid s v agent key blocks parent = record {
    sizes = Sizes-bump _ s.leases v.sizes;
    lifecycle = Lifecycle-bump _ s.leases v.lifecycle;
    positions = Positions-bump _ s.leases _ v.positions;
    owners = Owners-bind to_string s.agents s.bindings s.leases v.owners _ _;
    fences = v.fences;
    requirements = v.requirements;
  }

  pub bind_all-IsValid :
      (s : MetadataState M)
      → IsValid to_string s
      → (agent : AgentId) (bs : List ChainBinding)
      → IsValid to_string (bind_all to_string s agent bs)
  unfolding bind_all
  bind_all-IsValid s v agent [] = v
  bind_all-IsValid s v agent (b ∷ bs) =
      bind_all-IsValid (bind_one to_string s agent b.key b.blocks b.parent)
        (bind_one-IsValid s v agent b.key b.blocks b.parent) agent bs

  -- What a commit that goes through has checked.
  pub record Admitted (s : MetadataState M) (id : BlockId) (agent : AgentId) (b : ChainBinding)
      (expected : ℕ) : Type 0 where
    pub lease : UploadLease
    pub known : get id s.leases.records ≡ some lease
    pub owner : lease.agent ≡ agent
    pub same_blocks : lease.blocks ≡ b.blocks
    pub well_formed : valid_binding b ≡ true
    pub not_cancelled : contains_key id s.leases.cancelled ≡ false
    pub alive : is_expired s.leases id ≡ false
    pub pending : lease.committed ≡ none
    pub revision : unwrap_or (get (binding_key to_string b.key) s.leases.revisions) 0 ≡ expected
    pub room : expected ≢ u64_max

  pub validate_commit-Admitted :
      (s : MetadataState M) (id : BlockId) (agent : AgentId) (b : ChainBinding) (expected : ℕ)
      → validate_commit to_string s id agent b expected ≡ ok true
      → Admitted s id agent b expected
  unfolding validate_commit validate_pending
  validate_commit-Admitted s id agent b expected h = elim (Option-cases (get id s.leases.records)) [
    | inl e ↦ absurd (ground arith)
    | inr (lease, e) ↦ record {
      lease = lease;
      known = e;
      owner = ground (arith, ==_iff lease.agent agent);
      same_blocks = ground (arith, ==_iff lease.blocks b.blocks);
      well_formed = ground arith;
      not_cancelled = ground arith;
      alive = ground arith;
      pending = ground arith;
      revision = ground arith;
      room = ground arith;
    }
  ]

  -- The lease is closed by a commit whose binding is in place.
  set_committed-IsValid :
      (s : MetadataState M) (id : BlockId) (lease : UploadLease) (c : LeaseCommit)
      → IsValid to_string s
      → get id s.leases.records ≡ some lease
      → s.leases.initialized ≡ true
      → contains_key id s.leases.cancelled ≡ false
      → contains_key id s.leases.expired ≡ false
      → CommitOk to_string s.leases.revisions lease c
      → IsValid to_string
          (record s { leases = record s.leases { records = set_committed id c s.leases.records } })
  unfolding set_committed
  set_committed-IsValid s id lease c v known started held alive good =
      let old = v.owners.record_ok id lease known in
      rw (known, set_committed)
        (record {
          sizes = Sizes-replace_record s.leases.records v.sizes id _ lease known refl;
          lifecycle = Lifecycle-commit s.leases v.lifecycle id _ (ground arith) held alive;
          positions = Positions-replace_record _ s.leases v.positions id lease _ known refl;
          owners =
              Owners-insert_record to_string s.agents s.bindings s.leases v.owners id _ started
                (record {
                  some_block = old.some_block;
                  few_blocks = old.few_blocks;
                  owner = old.owner;
                  commit = λ d e.
                      subst (CommitOk to_string s.leases.revisions lease) {x = c} {y = d} (cc) good;
                });
          fences = v.fences;
          requirements = v.requirements;
        })

  -- A lease that is known to the state means that leases have begun.
  started_of :
      (s : MetadataState M) (id : BlockId) (lease : UploadLease)
      → IsValid to_string s
      → get id s.leases.records ≡ some lease
      → s.leases.initialized ≡ true
  unfolding get
  started_of s id lease v known = elim (Bool-cases s.leases.initialized) [
    | inl started ↦ started
    | inr idle ↦ absurd (cc (ap (get id) (v.owners.start idle).0))
  ]

  revision_fits :
      (s : MetadataState M) (key : Bytes) (expected : ℕ)
      → IsValid to_string s
      → unwrap_or (get key s.leases.revisions) 0 ≡ expected
      → expected ≤ u64_max
  revision_fits s key expected v h = elim (Option-cases (get key s.leases.revisions)) [
    | inl e ↦ ground arith
    | inr (r, e) ↦ ground (arith, v.owners.bound key r e)
  ]

  commit_bind-IsValid :
      (s : MetadataState M) (id : BlockId) (agent : AgentId) (b : ChainBinding) (expected : ℕ)
      → IsValid to_string s
      → Admitted s id agent b expected
      → IsValid to_string (commit_bind to_string s id agent b expected)
  unfolding commit_bind bind_one
  commit_bind-IsValid s id agent b expected v a =
      let key = binding_key to_string b.key in
      let kept = bump_revision_lem key s.leases in
      let started = started_of s id a.lease v a.known in
      set_committed-IsValid (bind_one to_string s agent b.key b.blocks b.parent) id a.lease _
        (bind_one-IsValid s v agent b.key b.blocks b.parent) (ap (get id) kept.0 ∙ a.known)
        (kept.5 ∙ started) (ap (contains_key id) kept.1 ∙ a.not_cancelled)
        (ap (contains_key id) kept.2
          ∙ not_expired s.leases v.lifecycle id (ground (arith, a.known, a.pending)) a.not_cancelled
              a.alive)
        (
          a.well_formed,
          sym a.same_blocks,
          revision-bump key s.leases started expected a.revision
              (revision_fits s key expected v a.revision) a.room,
        )

  pub commit-IsValid :
      (s : MetadataState M) (id : BlockId) (agent : AgentId) (b : ChainBinding) (expected : ℕ)
      → IsValid to_string s
      → IsValid to_string (commit to_string s id agent b expected).0
  unfolding commit after_check
  commit-IsValid s id agent b expected v =
      decided (validate_commit to_string s id agent b expected)
        (validate_commit-Admitted s id agent b expected)
    where
      decided :
          (r : Result String Bool)
          → (r ≡ ok true → Admitted s id agent b expected)
          → IsValid to_string (after_check to_string s id agent b expected r).0
      decided (err message) h = v
      decided (ok false) h = v
      decided (ok true) h = commit_bind-IsValid s id agent b expected v (h refl)
