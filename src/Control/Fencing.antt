-- ===== src/Control/Fencing.antt =====
-- The block fences of crates/kalpak-control/src/state_machine.rs: an accepted request moves the
-- fences of the blocks that it touches to its own log position, and no others.
use kalpakdb.Prelude.{
  ℕ, ◌≡◌, refl, not, ◌||◌, List, [], ◌∷◌, if◌then◌else◌, contains, ==_iff, list_eq, nat_eq, max,
  arith, unwrap_or,
}
use kalpakdb.Prelude.Map.{Map, get, insert, get-insert, measure}
use kalpakdb.Core.Key.{BlockId}
use kalpakdb.Control.Types.{MetadataState}
use kalpakdb.Control.Machine.{is_rejected, raise_all, require}

-- How many replicas a block needs, 0 where nothing is required.
abbrev pub required : BlockId → Map BlockId ℕ → ℕ
required b m = measure (λ n. n) (get b m)

required-raise_all :
    (b : BlockId) (ids : List BlockId) (replicas : ℕ) (m : Map BlockId ℕ)
    → required b (raise_all replicas ids m)
      ≡ (if contains b ids then max (required b m) replicas else required b m)
unfolding raise_all
required-raise_all b [] replicas m = refl
required-raise_all b (i ∷ ids) replicas m =
    let next = max (unwrap_or (get i m) replicas) replicas in
    ground (
      arith,
      ==_iff i b,
      get-insert i b next m,
      required-raise_all b ids replicas (insert i next m),
    )

-- After a replica requirement is accepted, each block that it lists requires the larger of the
-- old and the new number, and every other block what it did; a rejected one changes nothing.
pub require-required :
    {M : Type 0} (s : MetadataState M) (blocks : List BlockId) (replicas : ℕ) (b : BlockId)
    → let (after, response) = require s blocks replicas in
      required b after.replica_requirements ≡ (
        if is_rejected response || not (contains b blocks)
        then required b s.replica_requirements
        else max (required b s.replica_requirements) replicas)
unfolding require
require-required s blocks replicas b =
    ground (arith, required-raise_all b blocks replicas s.replica_requirements)
