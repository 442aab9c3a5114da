-- ===== src/Daemon/Tests.antt =====
-- Runs of the journal of upload guards (crates/kalpakdb/src/retention.rs) on a concrete input. The
-- hash of bytes is their number, in the first of 32 bytes.
use kalpakdb.Prelude.{
  ℕ, ◌%◌, ◌≤◌, ◌≡◌, ◌⊎◌, refl, some, List, [], ◌∷◌, ◌++◌, Bytes, length, replicate, count, false,
  list_eq, nat_eq, arith,
}
use kalpakdb.Prelude.Map.{Map, get}
use kalpakdb.Core.Key.{BlockId}
use kalpakdb.Core.Signing.Injective.{IsId}
use kalpakdb.Storage.Store.Writing.{works, fails}
use kalpakdb.Daemon.Retention.{State, distinct_ids, protect, leave}
use kalpakdb.Daemon.Retention.Reopen.{journal}
use kalpakdb.Daemon.Retention.Entering.{World, guards_with, opened_first, then_step, protects}
use kalpakdb.Daemon.Retention.Exclusion.{Reached-exclusive}
use kalpakdb.Daemon.Retention.Protecting.{Survives, protect-Survives}

abbrev tag : Bytes → Bytes
tag bytes = length bytes % 256 ∷ replicate 31 0

tag_is_id : (b : Bytes) → IsId (tag b)
tag_is_id b = refl

abbrev fresh : State
fresh = record {
  file = [];
  ids = [];
  sequence = 0;
  bytes = 0;
  failed = false;
  active = [];
  release_checks = [];
}

abbrev batch : List BlockId
batch = replicate 32 7 ∷ replicate 32 7 ∷ replicate 32 8 ∷ []

-- The sync after the write fails.
protect-Survives_example :
    Survives tag tag_is_id [] (distinct_ids batch) (protect tag batch (works ∷ fails 0 ∷ []) fresh)
unfolding journal
protect-Survives_example =
    protect-Survives tag tag_is_id batch (works ∷ fails 0 ∷ []) fresh [] (refl, (refl, (refl, tt)))
      ((refl, refl), (refl, refl)) ((omega arith, omega arith), (omega arith, tt))

abbrev guarded : World
guarded = record {
  state = (protect tag batch [] fresh).0;
  guards = distinct_ids batch ∷ [];
  checks = [];
}

Reached-exclusive_example :
    ((id : BlockId) → (count id guarded.checks ≡ 0) ⊎ (guards_with id guarded.guards ≡ 0))
    × (((id : BlockId) → count id guarded.checks ≤ 1)
        × ((front back : List (List BlockId)) (guard : List BlockId)
            → guarded.guards ≡ front ++ guard ∷ back
            → (active : Map BlockId ℕ) × (leave guard guarded.state.active ≡ some active)))
unfolding protect get
Reached-exclusive_example = Reached-exclusive tag guarded (
    then_step _ guarded (opened_first fresh refl refl) (
      protects (record { state = fresh; guards = []; checks = [] }) batch (distinct_ids batch) []
        guarded.state refl))
