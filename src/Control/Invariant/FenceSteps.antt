-- ===== src/Control/Invariant/FenceSteps.antt =====
-- Stamping fences and raising requirements keep their groups of the invariant
-- (crates/kalpak-control/src/state_machine.rs).
use kalpakdb.Prelude.{
  ℕ, ◌+◌, ◌≤◌, ◌≡◌, max, some, List, [], ◌∷◌, nat_eq, list_eq, length, unwrap_or, arith,
}
use kalpakdb.Prelude.Map.{Map, get, insert, Distinct, get-insert, Distinct-insert, length-insert}
use kalpakdb.Core.Key.{BlockId}
use kalpakdb.Control.Machine.{max_block_fences, raise_all, new_fences, stamp_fences}
use kalpakdb.Control.Invariant.{Fences, Requirements}

-- A fence more never makes more blocks new.
new_fences-insert :
    (ids : List BlockId) (b : BlockId) (at : ℕ) (fences : Map BlockId ℕ)
    → new_fences ids (insert b at fences) ≤ new_fences ids fences
unfolding new_fences
new_fences-insert [] b at fences = omega arith
new_fences-insert (j ∷ ids) b at fences =
    ground (arith, new_fences-insert ids b at fences, get-insert b j at fences)

length-stamp_fences :
    (ids : List BlockId) (at : ℕ) (fences : Map BlockId ℕ)
    → length (stamp_fences ids at fences) ≤ length fences + new_fences ids fences
unfolding new_fences stamp_fences
length-stamp_fences [] at fences = omega arith
length-stamp_fences (b ∷ ids) at fences = ground (
  arith,
  length-stamp_fences ids at (insert b at fences),
  new_fences-insert ids b at fences,
  length-insert b at fences,
)

Distinct-stamp_fences :
    (ids : List BlockId) (at : ℕ) (fences : Map BlockId ℕ)
    → Distinct fences
    → Distinct (stamp_fences ids at fences)
unfolding stamp_fences
Distinct-stamp_fences [] at fences d = d
Distinct-stamp_fences (b ∷ ids) at fences d =
    Distinct-stamp_fences ids at (insert b at fences) (Distinct-insert b at fences d)

stamp_fences-past :
    (ids : List BlockId) (now : ℕ) (fences : Map BlockId ℕ)
    → ((j : BlockId) (at : ℕ) → get j fences ≡ some at → at ≤ now)
    → (j : BlockId) (at : ℕ) → get j (stamp_fences ids now fences) ≡ some at
    → at ≤ now
unfolding stamp_fences
stamp_fences-past [] now fences h = h
stamp_fences-past (b ∷ ids) now fences h =
    stamp_fences-past ids now (insert b now fences)
      λ j at g. ground (arith, h j at, get-insert b j now fences)

pub Fences-stamp :
    (now : ℕ) (ids : List BlockId) (fences : Map BlockId ℕ)
    → length fences + new_fences ids fences ≤ max_block_fences
    → Fences now fences
    → Fences now (stamp_fences ids now fences)
Fences-stamp now ids fences room v = record {
  few = omega (arith, length-stamp_fences ids now fences);
  past = stamp_fences-past ids now fences v.past;
  distinct = Distinct-stamp_fences ids now fences v.distinct;
}

pub Fences-later :
    (now later : ℕ) (fences : Map BlockId ℕ) → now ≤ later → Fences now fences → Fences later fences
Fences-later now later fences h v = record {
  few = v.few;
  past = λ id at g. omega (arith, v.past id at g);
  distinct = v.distinct;
}

raise_all-range :
    (n : ℕ) (ids : List BlockId) (next : Map BlockId ℕ)
    → 2 ≤ n
    → n ≤ 16
    → ((j : BlockId) (k : ℕ) → get j next ≡ some k → (2 ≤ k) × (k ≤ 16))
    → (j : BlockId) (k : ℕ) → get j (raise_all n ids next) ≡ some k
    → (2 ≤ k) × (k ≤ 16)
unfolding raise_all
raise_all-range n [] next low high h = h
raise_all-range n (b ∷ ids) next low high h =
    raise_all-range n ids (insert b (max (unwrap_or (get b next) n) n) next) low high λ j k g.
      ground (
        arith,
        h j k,
        h b k,
        h b (unwrap_or (get b next) n),
        get-insert b j (max (unwrap_or (get b next) n) n) next,
      )

Distinct-raise_all :
    (n : ℕ) (ids : List BlockId) (next : Map BlockId ℕ)
    → Distinct next
    → Distinct (raise_all n ids next)
unfolding raise_all
Distinct-raise_all n [] next d = d
Distinct-raise_all n (b ∷ ids) next d =
    Distinct-raise_all n ids (insert b (max (unwrap_or (get b next) n) n) next)
      (Distinct-insert b (max (unwrap_or (get b next) n) n) next d)

pub Requirements-raise :
    (n : ℕ) (ids : List BlockId) (next : Map BlockId ℕ)
    → 2 ≤ n
    → n ≤ 16
    → length (raise_all n ids next) ≤ 16384
    → Requirements next
    → Requirements (raise_all n ids next)
Requirements-raise n ids next low high few v = record {
  few = few;
  range = raise_all-range n ids next low high v.range;
  distinct = Distinct-raise_all n ids next v.distinct;
}
