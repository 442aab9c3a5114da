-- ===== src/Control/Refs.antt =====
-- The reference counts of blocks (crates/kalpak-control/src/state_machine.rs, `bind_one`).
pub mod Requests
use kalpakdb.Prelude.{
  ℕ, suc, ◌+◌, ◌-◌, ◌%◌, ◌≤◌, ◌<◌, ◌≡◌, ◌≢◌, refl, Bool, true, false, Option, none, some, List, [],
  ◌∷◌, Bytes, nat_eq, list_eq, eqb, if◌then◌else◌, length, count, unwrap_or, u32_mod, arith, ==_iff,
  ◌==◌,
}
use kalpakdb.Prelude.Map.{
  Map, get, insert, remove, sum_values, get-insert, get-remove, sum_values-insert, measure,
  measure-le_sum,
}
use kalpakdb.Core.Key.{BlockId, AgentId, CacheKey}
use kalpakdb.Control.Types.{BindingRecord, MetadataState}
use kalpakdb.Control.Commit.{binding_key}
use kalpakdb.Control.Binding.{release_ref, release_refs, acquire_refs, blocks_of, bind_one}

abbrev pub ref_count : BlockId → Map BlockId ℕ → ℕ
ref_count b refs = unwrap_or (get b refs) 0

abbrev pub mentions : BlockId → BindingRecord → ℕ
mentions b r = count b r.blocks

-- How often the bindings mention a block, and how many blocks they list in all.
abbrev pub total_refs : BlockId → Map Bytes BindingRecord → ℕ
total_refs b bindings = sum_values (mentions b) bindings

abbrev pub binding_size : BindingRecord → ℕ
binding_size r = length r.blocks

abbrev pub total_size : Map Bytes BindingRecord → ℕ
total_size bindings = sum_values binding_size bindings

-- Every count is exact, and no count of zero is kept.
pub record RefsExact {M : Type 0} (s : MetadataState M) : Type 0 where
  pub exact : (b : BlockId) → ref_count b s.block_refs ≡ total_refs b s.bindings
  pub no_zero : (b : BlockId) → get b s.block_refs ≢ some 0

ref_count-release_ref :
    (b j : BlockId) (refs : Map BlockId ℕ)
    → ref_count j (release_ref b refs) ≡ ref_count j refs - (if b == j then 1 else 0)
unfolding release_ref
ref_count-release_ref b j refs =
    ground (arith, get-insert b j (ref_count b refs - 1) refs, get-remove b j refs, ==_iff b j)

ref_count-release_refs :
    (bs : List BlockId) (j : BlockId) (refs : Map BlockId ℕ)
    → ref_count j (release_refs bs refs) ≡ ref_count j refs - count j bs
unfolding release_refs
ref_count-release_refs [] j refs = omega arith
ref_count-release_refs (b ∷ bs) j refs =
    ground (arith, ref_count-release_refs bs j (release_ref b refs), ref_count-release_ref b j refs)

ref_count-acquire_refs :
    (bs : List BlockId) (j : BlockId) (refs : Map BlockId ℕ)
    → ref_count j refs + count j bs < u32_mod
    → ref_count j (acquire_refs bs refs) ≡ ref_count j refs + count j bs
unfolding acquire_refs
ref_count-acquire_refs [] j refs h = omega arith
ref_count-acquire_refs (b ∷ bs) j refs h =
    let next : ℕ = (ref_count b refs + 1) % u32_mod in
    ground (
      arith,
      ref_count-acquire_refs bs j (insert b next refs),
      get-insert b j next refs,
      ==_iff b j,
    )

release_refs-no_zero :
    (bs : List BlockId) (refs : Map BlockId ℕ)
    → ((j : BlockId) → get j refs ≢ some 0)
    → (j : BlockId) → get j (release_refs bs refs) ≢ some 0
unfolding release_refs release_ref
release_refs-no_zero [] refs h = h
release_refs-no_zero (b ∷ bs) refs h = release_refs-no_zero bs (release_ref b refs) λ j e.
    ground (arith, h j, get-insert b j (ref_count b refs - 1) refs, get-remove b j refs, ==_iff b j)

acquire_refs-no_zero :
    (bs : List BlockId) (refs : Map BlockId ℕ)
    → ((j : BlockId) → ref_count j refs + count j bs < u32_mod)
    → ((j : BlockId) → get j refs ≢ some 0)
    → (j : BlockId) → get j (acquire_refs bs refs) ≢ some 0
unfolding acquire_refs
acquire_refs-no_zero [] refs room h = h
acquire_refs-no_zero (b ∷ bs) refs room h =
    let next : ℕ = (ref_count b refs + 1) % u32_mod in
    acquire_refs-no_zero bs (insert b next refs)
      (λ j. ground (arith, room j, room b, get-insert b j next refs, ==_iff b j, ==_iff b b))
      λ j e. ground (arith, h j, room b, get-insert b j next refs, ==_iff b j, ==_iff b b)
