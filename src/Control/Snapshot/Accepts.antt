-- ===== src/Control/Snapshot/Accepts.antt =====
-- A valid state passes every check of a snapshot (crates/kalpak-control/src/state_machine.rs,
-- `decode_snapshot`; leases.rs, `validate`).
use kalpakdb.Prelude.{
  ℕ, ◌≡◌, false, not, ◌&&◌, ◌||◌, some, ◌++◌, Bytes, nat_eq, list_eq, option_eq, Eq, ==_refl,
  ==_iff, ltb, leb, length, is_empty, arith, ok, subst, Option-cases, inl, inr,
}
use kalpakdb.Prelude.Map.{contains_key, any_entry, any_entry-false}
use kalpakdb.Core.Key.{BlockId, CacheKey}
use kalpakdb.Control.Types.{LeaseCommit, UploadLease, MetadataState, applied_index, logid_eq}
use kalpakdb.Control.Invariant.{IsValid, PositionOk, CommitOk}
use kalpakdb.Control.Snapshot.{
  SnapshotMeta, bad_deadline, bad_expired, bad_cancelled, bad_commit, bad_record, validate,
  bad_position, bad_revision, bad_owner, check_snapshot, decode_snapshot, check_contents,
}
use kalpakdb.Control.Snapshot.Layouts.{Codec, magic, decode_layout-v6}

module _ {M : Type 0} (to_string : CacheKey → Bytes) (s : MetadataState M)
    (v : IsValid to_string s) where
  deadlines_ok : any_entry (bad_deadline s.leases) s.leases.deadlines ≡ false
  unfolding bad_deadline
  deadlines_ok =
      any_entry-false (bad_deadline s.leases) s.leases.deadlines v.lifecycle.distinct_deadlines
        λ id d g. ground (arith, v.lifecycle.deadline id d g)

  expired_ok : any_entry (bad_expired s.leases) s.leases.expired ≡ false
  unfolding bad_expired
  expired_ok =
      any_entry-false (bad_expired s.leases) s.leases.expired v.lifecycle.distinct_expired
        λ id at g. ground (arith, v.lifecycle.expiry id at g)

  cancelled_ok : any_entry (bad_cancelled s.leases) s.leases.cancelled ≡ false
  unfolding bad_cancelled
  cancelled_ok =
      any_entry-false (bad_cancelled s.leases) s.leases.cancelled v.lifecycle.distinct_cancelled
        λ id at g. ground (arith, v.lifecycle.cancellation id at g)

  commit_ok :
      (lease : UploadLease) (c : LeaseCommit)
      → CommitOk to_string s.leases.revisions lease c
      → bad_commit to_string s.leases lease c ≡ false
  unfolding bad_commit
  commit_ok lease c h = ground (arith, h, ==_iff c.binding.blocks lease.blocks)

  records_ok : any_entry (bad_record to_string s.leases) s.leases.records ≡ false
  unfolding bad_record
  records_ok =
      any_entry-false (bad_record to_string s.leases) s.leases.records v.sizes.distinct_records
        λ id lease g.
          let r = v.owners.record_ok id lease g in
          elim (Option-cases lease.committed) [
            | inl e ↦ ground (arith, r.some_block, r.few_blocks)
            | inr (c, e) ↦
                ground (arith, r.some_block, r.few_blocks, commit_ok lease c (r.commit c e))
          ]

  positions_ok :
      (at : ℕ) (id : BlockId)
      → PositionOk (applied_index s.last_applied) s.leases id at
      → bad_position s id at ≡ false
  unfolding bad_position
  positions_ok at id h = ground arith

  owners_ok : any_entry (bad_owner to_string s) s.leases.records ≡ false
  unfolding bad_owner bad_revision
  owners_ok =
      any_entry-false (bad_owner to_string s) s.leases.records v.sizes.distinct_records
        λ id lease g.
          let r = v.owners.record_ok id lease g in
          elim (Option-cases lease.committed) [
            | inl e ↦ ground (arith, r.owner)
            | inr (c, e) ↦ ground (arith, r.owner, r.commit c e)
          ]

  start_ok :
      (not s.leases.initialized
        && (not (is_empty s.leases.records) || not (is_empty s.leases.revisions)))
      ≡ false
  start_ok = ground (arith, v.owners.start)

  validate-ok : validate to_string s.leases ≡ ok tt
  unfolding validate
  validate-ok = ground (
    arith, deadlines_ok, expired_ok, cancelled_ok, records_ok, start_ok, v.sizes.few,
    v.sizes.reserved,
  )

  requirements_ok : any_entry (λ id n. not (leb 2 n && leb n 16)) s.replica_requirements ≡ false
  requirements_ok =
      any_entry-false (λ id n. not (leb 2 n && leb n 16)) s.replica_requirements
        v.requirements.distinct λ id n g. ground (arith, v.requirements.range id n g)

  fences_ok : any_entry (λ id at. ltb (applied_index s.last_applied) at) s.block_fences ≡ false
  fences_ok =
      any_entry-false (λ id at. ltb (applied_index s.last_applied) at) s.block_fences
        v.fences.distinct λ id at g. ground (arith, v.fences.past id at g)

  cancel_positions : any_entry (bad_position s) s.leases.cancelled ≡ false
  cancel_positions =
      any_entry-false (bad_position s) s.leases.cancelled v.lifecycle.distinct_cancelled
        λ id at g. positions_ok at id (v.positions.cancelled_at id at g)

  expiry_positions : any_entry (bad_position s) s.leases.expired ≡ false
  expiry_positions =
      any_entry-false (bad_position s) s.leases.expired v.lifecycle.distinct_expired
        λ id at g. positions_ok at id (v.positions.expired_at id at g)

  revisions_ok :
      any_entry (λ key revision. not (contains_key key s.bindings)) s.leases.revisions ≡ false
  revisions_ok =
      any_entry-false (λ key revision. not (contains_key key s.bindings)) s.leases.revisions
        v.owners.distinct_revisions λ key r g. ground (arith, v.owners.bound key r g)

  contents_ok : ⦃e : Eq M⦄ → check_contents to_string s ≡ ok s
  unfolding check_contents
  contents_ok = ground (
    arith, requirements_ok, fences_ok, cancel_positions, expiry_positions, revisions_ok, owners_ok,
    validate-ok, v.requirements.few, v.fences.few,
  )

-- The metadata that a snapshot of `s` is stored with.
abbrev pub meta_of : {M : Type 0} → Bytes → MetadataState M → SnapshotMeta M
meta_of id s = record {
  last_log_id = s.last_applied;
  last_membership = s.membership;
  snapshot_id = id;
}

module _ {M : Type 0} ⦃e : Eq M⦄ (to_string : CacheKey → Bytes) (s : MetadataState M) where
  pub check_snapshot-ok :
      (id bytes : Bytes)
      → IsValid to_string s
      → check_snapshot to_string (meta_of id s) bytes s (length bytes) ≡ ok s
  unfolding check_snapshot
  check_snapshot-ok id bytes v =
      ground (arith, ==_refl s.last_applied, ==_refl s.membership, contents_ok to_string s v)

  -- The bytes that a snapshot of a well-formed state has (the magic bytes of version six and
  -- the encoded state) decode, under metadata with the position and membership of that state,
  -- to that state, provided that the codec reads back what it wrote and consumes all of it.
  pub decode-encode :
      (codec : Codec M) (id : Bytes)
      → codec.decode_v6 (codec.encode s) ≡ some (s, length (codec.encode s))
      → IsValid to_string s
      → decode_snapshot to_string codec (meta_of id s) (magic 6 ++ codec.encode s) ≡ ok s
  unfolding decode_snapshot
  decode-encode codec id law v =
      rw (decode_layout-v6 codec (codec.encode s), law)
        (subst (λ n. check_snapshot to_string (meta_of id s) (magic 6 ++ codec.encode s) s n ≡ ok s)
          (omega arith) (check_snapshot-ok id (magic 6 ++ codec.encode s) v))
