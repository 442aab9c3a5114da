-- ===== src/Control/Frame.antt =====
-- What the requests leave alone (crates/kalpak-control/src/state_machine.rs, leases.rs).
use kalpakdb.Prelude.{ℕ, ◌≡◌, refl, Bool, true, false, List, [], ◌∷◌, Bytes, arith, Result, ok, err}
use Prim.Native.String.{String}
use kalpakdb.Core.Key.{BlockId, AgentId, CacheKey}
use kalpakdb.Control.Types.{
  ChainBinding, Request, bind_chain, begin_upload_lease, commit_upload_lease, renew_upload_lease,
  MetadataState,
}
use kalpakdb.Control.Leases.{
  activate, reserve_new, reserve_active, reserve, cancel, renew_pending, renew, advance, expire,
}
use kalpakdb.Control.Commit.{validate_commit}
use kalpakdb.Control.Binding.{bind_one}
use kalpakdb.Control.Machine.{
  require, register, bind_all, commit_bind, after_check, commit, apply_unfenced,
}

-- The fences, the position and the membership are those of `s`.
pub record SameFrame {M : Type 0} (s t : MetadataState M) : Type 0 where
  pub fences : t.block_fences ≡ s.block_fences
  pub applied : t.last_applied ≡ s.last_applied
  pub members : t.membership ≡ s.membership

module _ {M : Type 0} (to_string : CacheKey → Bytes) where
  bind_all-SameFrame :
      (s : MetadataState M) (agent : AgentId) (bs : List ChainBinding)
      → SameFrame s (bind_all to_string s agent bs)
  unfolding bind_all bind_one
  bind_all-SameFrame s agent [] = record { fences = refl; applied = refl; members = refl }
  bind_all-SameFrame s agent (b ∷ bs) =
      let rest = bind_all-SameFrame (bind_one to_string s agent b.key b.blocks b.parent) agent bs in
      record { fences = rest.fences; applied = rest.applied; members = rest.members }

  after_check-SameFrame :
      (s : MetadataState M) (id : BlockId) (agent : AgentId) (b : ChainBinding) (expected : ℕ)
      (r : Result String Bool)
      → SameFrame s (after_check to_string s id agent b expected r).0
  unfolding after_check commit_bind bind_one
  after_check-SameFrame s id agent b expected (err m) = record {
    fences = refl;
    applied = refl;
    members = refl;
  }
  after_check-SameFrame s id agent b expected (ok false) = record {
    fences = refl;
    applied = refl;
    members = refl;
  }
  after_check-SameFrame s id agent b expected (ok true) = record {
    fences = refl;
    applied = refl;
    members = refl;
  }

  -- No request moves a fence, the log position or the membership by itself.
  pub apply_unfenced-SameFrame :
      (s : MetadataState M) (req : Request) → SameFrame s (apply_unfenced to_string s req).0
  unfolding apply_unfenced require register reserve reserve_active reserve_new activate cancel renew
      renew_pending advance expire bind_one commit
  apply_unfenced-SameFrame s (bind_chain agent bs) = bind_all-SameFrame s agent bs
  apply_unfenced-SameFrame s (commit_upload_lease id agent b expected) =
      after_check-SameFrame s id agent b expected (validate_commit to_string s id agent b expected)
  apply_unfenced-SameFrame s (begin_upload_lease id agent blocks) = record {
    fences = ground arith;
    applied = ground arith;
    members = ground arith;
  }
  apply_unfenced-SameFrame s (renew_upload_lease id agent expected ttl) = record {
    fences = ground arith;
    applied = ground arith;
    members = ground arith;
  }
  apply_unfenced-SameFrame s req = ground arith
