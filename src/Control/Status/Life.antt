-- ===== src/Control/Status/Life.antt =====
-- What log entries do to a lease (crates/kalpak-control/src/state_machine.rs, leases.rs).
use Prim.Native.String.{String}
use kalpakdb.Prelude.{
  ℕ, ◌≡◌, refl, ◌∙◌, sym, ap, subst, Bool, true, false, not, ◌||◌, Option, some, List, [], ◌∷◌,
  Bytes, nat_eq, list_eq, arith, if_cases, Result, ok, err, is_empty, length, ltb, ◌≤◌,
}
use kalpakdb.Prelude.Map.{get, contains_key}
use kalpakdb.Core.Key.{BlockId, AgentId, CacheKey}
use kalpakdb.Control.Types.{
  LogId, ChainBinding, Request, require_replicas, register_agent, bind_prefix, bind_chain,
  begin_upload_lease, commit_upload_lease, cancel_upload_lease, renew_upload_lease,
  advance_lease_clock, expire_upload_lease, LeaseState, MetadataState, Response, applied_index,
}
use kalpakdb.Control.Leases.{is_expired, activate, reserve, max_lease_blocks}
use kalpakdb.Control.Commit.{binding_key, validate_commit}
use kalpakdb.Control.Binding.{bump_revision, bind_one}
use kalpakdb.Control.Machine.{
  set_committed, require, register, bind_all, commit_bind, after_check, commit, apply_unfenced,
  stamp, apply_one, Payload, blank, normal, membership, Entry, apply_payload, apply_entry, apply,
}
use kalpakdb.Control.Invariant.{IsValid}
use kalpakdb.Control.Invariant.LeaseOps.{activate-IsValid}
use kalpakdb.Control.Invariant.BindOps.{
  Admitted, validate_commit-Admitted, bump_revision_lem, bind_one-IsValid,
}
use kalpakdb.Control.Invariant.EntryOps.{
  InOrder, apply_entry-IsValid, applied-apply_entry, moved-IsValid,
}
use kalpakdb.Control.Status.{
  Status, status, allowed, Move, stay, allowed-Move, IsTerminal, Move-terminal,
}
use kalpakdb.Control.Status.Steps.{
  Allowed, same, cancel-Allowed, expire-Allowed, renew-Allowed, advance-Allowed,
  reserve_active-Allowed, status-activate, commit_record,
}

status-bump :
    (key : Bytes) (l : LeaseState) (j : BlockId) → status (bump_revision key l) j ≡ status l j
unfolding status is_expired bump_revision
status-bump key l j = ground arith

allowed-from : {a b : Status} (c : Status) → a ≡ b → allowed a c ≡ true → allowed b c ≡ true
allowed-from c e h = subst (λ k. allowed k c ≡ true) e h

is_expired-bump :
    (key : Bytes) (l : LeaseState) (j : BlockId)
    → is_expired (bump_revision key l) j ≡ is_expired l j
unfolding is_expired bump_revision
is_expired-bump key l j = ground arith

module _ {M : Type 0} (to_string : CacheKey → Bytes) (j : BlockId) where
  status-bind_one :
      (s : MetadataState M) (agent : AgentId) (key : CacheKey) (blocks : List BlockId)
      (parent : Option CacheKey)
      → status (bind_one to_string s agent key blocks parent).leases j ≡ status s.leases j
  unfolding bind_one
  status-bind_one s agent key blocks parent = status-bump _ s.leases j

  status-bind_all :
      (s : MetadataState M) (agent : AgentId) (bs : List ChainBinding)
      → status (bind_all to_string s agent bs).leases j ≡ status s.leases j
  unfolding bind_all
  status-bind_all s agent [] = refl
  status-bind_all s agent (b ∷ bs) =
      status-bind_all (bind_one to_string s agent b.key b.blocks b.parent) agent bs
      ∙ status-bind_one s agent b.key b.blocks b.parent

module _ {M : Type 0} (to_string : CacheKey → Bytes) (s : MetadataState M) (v : IsValid to_string s)
    (j : BlockId) where
  unchanged :
      (l : LeaseState)
      → status l j ≡ status s.leases j
      → allowed (status s.leases j) (status l j) ≡ true
  unchanged l e = subst (λ k. allowed (status s.leases j) k ≡ true) (sym e) (same to_string s v j)

  commit_bind-Allowed :
      (id : BlockId) (agent : AgentId) (b : ChainBinding) (expected : ℕ)
      → Admitted to_string s id agent b expected
      → Allowed to_string s v j (commit_bind to_string s id agent b expected)
  unfolding commit_bind bind_one set_committed
  commit_bind-Allowed id agent b expected a =
      let key = binding_key to_string b.key in
      let kept = bump_revision_lem key s.leases in
      let s' = bind_one to_string s agent b.key b.blocks b.parent in
      let known : get id s'.leases.records ≡ some a.lease = ap (get id) kept.0 ∙ a.known in
      rw (known, set_committed)
        (allowed-from _ (status-bump key s.leases j) (
          commit_record s'.leases
            (bind_one-IsValid to_string s v agent b.key b.blocks b.parent).lifecycle id j a.lease
            (record a.lease {
              committed = some (record { binding = b; expected_revision = expected });
            })
            known a.pending refl (ap (contains_key id) kept.1 ∙ a.not_cancelled)
            (is_expired-bump key s.leases id ∙ a.alive)))

  after_check-Allowed :
      (id : BlockId) (agent : AgentId) (b : ChainBinding) (expected : ℕ) (r : Result String Bool)
      → (r ≡ ok true → Admitted to_string s id agent b expected)
      → Allowed to_string s v j (after_check to_string s id agent b expected r).0
  unfolding after_check
  after_check-Allowed id agent b expected (err message) h = same to_string s v j
  after_check-Allowed id agent b expected (ok false) h = same to_string s v j
  after_check-Allowed id agent b expected (ok true) h =
      commit_bind-Allowed id agent b expected (h refl)

  reserve-Allowed :
      (id : BlockId) (agent : AgentId) (blocks : List BlockId)
      → Allowed to_string s v j (reserve s id agent blocks).0
  unfolding reserve
  reserve-Allowed id agent blocks =
      if_cases (λ (r : MetadataState M × Response). Allowed to_string s v j r.0)
        (is_empty blocks
          || (ltb max_lease_blocks (length blocks) || not (contains_key agent s.agents)))
        (λ _. same to_string s v j)
        λ formed. allowed-from _ (status-activate to_string s v j) (
          reserve_active-Allowed to_string (activate s) (activate-IsValid to_string s v) j id agent
            blocks)

  apply_unfenced-Allowed :
      (req : Request) → Allowed to_string s v j (apply_unfenced to_string s req).0
  unfolding apply_unfenced require register commit
  apply_unfenced-Allowed (require_replicas blocks n) = ground (arith, same to_string s v j)
  apply_unfenced-Allowed (register_agent agent name) = same to_string s v j
  apply_unfenced-Allowed (bind_prefix agent key blocks parent) =
      unchanged _ (status-bind_one to_string j s agent key blocks parent)
  apply_unfenced-Allowed (bind_chain agent bs) =
      unchanged _ (status-bind_all to_string j s agent bs)
  apply_unfenced-Allowed (begin_upload_lease id agent blocks) = reserve-Allowed id agent blocks
  apply_unfenced-Allowed (commit_upload_lease id agent b expected) =
      after_check-Allowed id agent b expected (validate_commit to_string s id agent b expected)
        (validate_commit-Admitted to_string s id agent b expected)
  apply_unfenced-Allowed (cancel_upload_lease id agent) = cancel-Allowed to_string s v j id agent
  apply_unfenced-Allowed (renew_upload_lease id agent expected ttl) =
      renew-Allowed to_string s v j id agent expected ttl
  apply_unfenced-Allowed (advance_lease_clock expected) = advance-Allowed to_string s v j expected
  apply_unfenced-Allowed (expire_upload_lease id generation tick) =
      expire-Allowed to_string s v j id generation tick

  -- In a well-formed state a request changes the status of a lease by at most one step of its
  -- life: it stays, an absent lease becomes pending, or a pending one becomes committed,
  -- cancelled or expired.
  pub apply_one-Move :
      (req : Request) → Move (status s.leases j) (status (apply_one to_string s req).0.leases j)
  unfolding apply_one stamp
  apply_one-Move req =
      allowed-Move _ _ (ground (arith, apply_unfenced-Allowed req, same to_string s v j))

module _ {M P : Type 0} (to_string : CacheKey → Bytes) (stored : Option LogId → P → M)
    (j : BlockId) where
  apply_entry-Move :
      (s : MetadataState M) (e : Entry P)
      → IsValid to_string s
      → applied_index s.last_applied ≤ e.log_id.index
      → Move (status s.leases j) (status (apply_entry to_string stored s e).0.leases j)
  unfolding apply_entry apply_payload
  apply_entry-Move s e v later = payload e.payload
    where
      moved : MetadataState M
      moved = record s { last_applied = some e.log_id }

      payload :
          (p : Payload P)
          → Move
              (status s.leases j)
              (status (apply_payload to_string stored moved e.log_id p).0.leases j)
      payload blank = stay refl
      payload (normal req) =
          apply_one-Move to_string moved (moved-IsValid to_string stored s e.log_id v later) j req
      payload (membership mem) = stay refl

  -- A lease that is committed, cancelled or expired in a well-formed state still has that
  -- status after any batch of entries whose positions do not go back.
  pub terminal-apply :
      (s : MetadataState M) (es : List (Entry P))
      → IsValid to_string s
      → InOrder (applied_index s.last_applied) es
      → IsTerminal (status s.leases j)
      → status (apply to_string stored s es).0.leases j ≡ status s.leases j
  unfolding apply
  terminal-apply s [] v order over = refl
  terminal-apply s (e ∷ es) v order over =
      let first = Move-terminal (apply_entry-Move s e v order.0) over in
      terminal-apply (apply_entry to_string stored s e).0 es
        (apply_entry-IsValid to_string stored s e v order.0)
        (subst (λ k. InOrder (applied_index k) es) (sym (applied-apply_entry to_string stored s e))
          order.1)
        (subst IsTerminal (sym first) over)
      ∙ first
