-- ===== src/Control/Invariant/EntryOps.antt =====
-- Applying a request, an entry and a batch of entries keeps the invariant
-- (crates/kalpak-control/src/state_machine.rs, `apply_one` and `apply`).
use kalpakdb.Prelude.{
  ℕ, ◌+◌, ◌≤◌, ◌≡◌, refl, not, ◌&&◌, ◌||◌, Option, some, List, [], ◌∷◌, Bytes, nat_eq, list_eq, ltb,
  leb, length, arith, if_cases, subst, sym,
}
use kalpakdb.Core.Key.{BlockId, AgentId, CacheKey}
use kalpakdb.Control.Types.{
  LogId, Request, require_replicas, register_agent, bind_prefix, bind_chain, begin_upload_lease,
  commit_upload_lease, cancel_upload_lease, renew_upload_lease, advance_lease_clock,
  expire_upload_lease, Response, MetadataState, applied_index,
}
use kalpakdb.Control.Machine.{
  require, register, apply_unfenced, touched, stamp, apply_one, Payload, blank, normal, membership,
  Entry, apply_payload, apply_entry, apply, raise_all, new_fences, max_block_fences, is_rejected,
}
use kalpakdb.Control.Frame.{SameFrame, apply_unfenced-SameFrame}
use kalpakdb.Control.Invariant.{IsValid}
use kalpakdb.Control.Invariant.LeaseOps.{reserve-IsValid, cancel-IsValid}
use kalpakdb.Control.Invariant.RenewOps.{renew-IsValid, advance-IsValid, expire-IsValid}
use kalpakdb.Control.Invariant.BindOps.{bind_one-IsValid, bind_all-IsValid, commit-IsValid}
use kalpakdb.Control.Invariant.OwnerSteps.{Owners-register}
use kalpakdb.Control.Invariant.PlaceSteps.{Positions-later}
use kalpakdb.Control.Invariant.FenceSteps.{Fences-stamp, Fences-later, Requirements-raise}

module _ {M : Type 0} (to_string : CacheKey → Bytes) (s : MetadataState M)
    (v : IsValid to_string s) where
  abbrev P : MetadataState M × Response → Type 0
  P r = IsValid to_string r.0

  require-IsValid : (blocks : List BlockId) (n : ℕ) → IsValid to_string (require s blocks n).0
  unfolding require
  require-IsValid blocks n =
      if_cases P (not (leb 2 n && leb n 16) || ltb 4096 (length blocks)) (λ _. v)
        λ formed.
          if_cases P (ltb 16384 (length (raise_all n blocks s.replica_requirements))) (λ _. v)
            λ room. record {
              sizes = v.sizes;
              lifecycle = v.lifecycle;
              positions = v.positions;
              owners = v.owners;
              fences = v.fences;
              requirements =
                  Requirements-raise n blocks s.replica_requirements (ground arith) (ground arith)
                    (ground arith) v.requirements;
            }

  register-IsValid : (agent : AgentId) (name : Bytes) → IsValid to_string (register s agent name).0
  unfolding register
  register-IsValid agent name = record {
    sizes = v.sizes;
    lifecycle = v.lifecycle;
    positions = v.positions;
    owners = Owners-register to_string s.agents s.bindings s.leases v.owners agent _;
    fences = v.fences;
    requirements = v.requirements;
  }

  -- Every request keeps the invariant, whether it is accepted or rejected.
  pub apply_unfenced-IsValid :
      (req : Request) → IsValid to_string (apply_unfenced to_string s req).0
  unfolding apply_unfenced
  apply_unfenced-IsValid (require_replicas blocks n) = require-IsValid blocks n
  apply_unfenced-IsValid (register_agent agent name) = register-IsValid agent name
  apply_unfenced-IsValid (bind_prefix agent key blocks parent) =
      bind_one-IsValid to_string s v agent key blocks parent
  apply_unfenced-IsValid (bind_chain agent bs) = bind_all-IsValid to_string s v agent bs
  apply_unfenced-IsValid (begin_upload_lease id agent blocks) =
      reserve-IsValid to_string s v id agent blocks
  apply_unfenced-IsValid (commit_upload_lease id agent b expected) =
      commit-IsValid to_string s id agent b expected v
  apply_unfenced-IsValid (cancel_upload_lease id agent) = cancel-IsValid to_string s v id agent
  apply_unfenced-IsValid (renew_upload_lease id agent expected ttl) =
      renew-IsValid to_string s v id agent expected ttl
  apply_unfenced-IsValid (advance_lease_clock expected) = advance-IsValid to_string s v expected
  apply_unfenced-IsValid (expire_upload_lease id generation tick) =
      expire-IsValid to_string s v id generation tick

  stamp-IsValid :
      (ids : List BlockId) (r : MetadataState M × Response)
      → IsValid to_string r.0
      → SameFrame s r.0
      → length s.block_fences + new_fences ids s.block_fences ≤ max_block_fences
      → IsValid to_string (stamp to_string ids r).0
  unfolding stamp
  stamp-IsValid ids (t, response) w same room =
      if_cases P (is_rejected response) (λ _. w)
        λ accepted. record {
          sizes = w.sizes;
          lifecycle = w.lifecycle;
          positions = w.positions;
          owners = w.owners;
          fences =
              Fences-stamp (applied_index t.last_applied) ids t.block_fences
                (subst (λ f. length f + new_fences ids f ≤ max_block_fences) (sym same.fences) room)
                w.fences;
          requirements = w.requirements;
        }

  pub apply_one-IsValid : (req : Request) → IsValid to_string (apply_one to_string s req).0
  unfolding apply_one
  apply_one-IsValid req =
      if_cases P
        (ltb max_block_fences
          (length s.block_fences + new_fences (touched to_string s req) s.block_fences))
        (λ _. v)
        λ room.
          stamp-IsValid (touched to_string s req) (apply_unfenced to_string s req)
            (apply_unfenced-IsValid req) (apply_unfenced-SameFrame to_string s req) (ground arith)

-- Log positions never go back along a batch of entries.
abbrev pub InOrder : {P : Type 0} → ℕ → List (Entry P) → Type 0
InOrder now [] = Unit
InOrder now (e ∷ es) = (now ≤ e.log_id.index) × InOrder e.log_id.index es

module _ {M P : Type 0} (to_string : CacheKey → Bytes) (stored : Option LogId → P → M) where
  applied-apply_one :
      (s : MetadataState M) (req : Request)
      → (apply_one to_string s req).0.last_applied ≡ s.last_applied
  unfolding apply_one stamp
  applied-apply_one s req = ground (arith, (apply_unfenced-SameFrame to_string s req).applied)

  pub applied-apply_entry :
      (s : MetadataState M) (e : Entry P)
      → (apply_entry to_string stored s e).0.last_applied ≡ some e.log_id
  unfolding apply_entry apply_payload
  applied-apply_entry s e = payload e.payload
    where
      payload :
          (p : Payload P)
          → (apply_payload to_string stored
              (record s { last_applied = some e.log_id })
              e.log_id
              p).0.last_applied
            ≡ some e.log_id
      payload blank = refl
      payload (normal req) = applied-apply_one (record s { last_applied = some e.log_id }) req
      payload (membership mem) = refl

  pub moved-IsValid :
      (s : MetadataState M) (log_id : LogId)
      → IsValid to_string s
      → applied_index s.last_applied ≤ log_id.index
      → IsValid to_string (record s { last_applied = some log_id })
  moved-IsValid s log_id v later = record {
    sizes = v.sizes;
    lifecycle = v.lifecycle;
    positions = Positions-later _ log_id.index s.leases later v.positions;
    owners = v.owners;
    fences = Fences-later _ log_id.index s.block_fences later v.fences;
    requirements = v.requirements;
  }

  payload-IsValid :
      (s : MetadataState M) (log_id : LogId) (p : Payload P)
      → IsValid to_string s
      → IsValid to_string (apply_payload to_string stored s log_id p).0
  unfolding apply_payload
  payload-IsValid s log_id blank v = v
  payload-IsValid s log_id (normal req) v = apply_one-IsValid to_string s v req
  payload-IsValid s log_id (membership mem) v = record {
    sizes = v.sizes;
    lifecycle = v.lifecycle;
    positions = v.positions;
    owners = v.owners;
    fences = v.fences;
    requirements = v.requirements;
  }

  pub apply_entry-IsValid :
      (s : MetadataState M) (e : Entry P)
      → IsValid to_string s
      → applied_index s.last_applied ≤ e.log_id.index
      → IsValid to_string (apply_entry to_string stored s e).0
  unfolding apply_entry
  apply_entry-IsValid s e v later =
      payload-IsValid _ e.log_id e.payload (moved-IsValid s e.log_id v later)

  -- Applying a batch of entries whose positions do not go back keeps the well-formedness of
  -- the replicated state: the sizes and the life cycle of the leases, the log positions of
  -- their markers, the owners, the revisions of committed bindings, the block fences and the
  -- replica requirements.
  pub apply-IsValid :
      (s : MetadataState M) (es : List (Entry P))
      → IsValid to_string s
      → InOrder (applied_index s.last_applied) es
      → IsValid to_string (apply to_string stored s es).0
  unfolding apply
  apply-IsValid s [] v order = v
  apply-IsValid s (e ∷ es) v order =
      apply-IsValid (apply_entry to_string stored s e).0 es (apply_entry-IsValid s e v order.0)
        (subst (λ k. InOrder (applied_index k) es) (sym (applied-apply_entry s e)) order.1)
