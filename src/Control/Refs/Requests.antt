-- ===== src/Control/Refs/Requests.antt =====
-- Every request keeps the reference counts exact (crates/kalpak-control/src/state_machine.rs).
use Prim.Native.String.{String}
use kalpakdb.Prelude.{
  ℕ, ◌+◌, ◌≤◌, ◌<◌, ◌≡◌, refl, Bool, true, false, Option, none, some, List, [], ◌∷◌, Bytes, nat_eq,
  list_eq, length, count, u32_mod, arith, Result, ok, err,
}
use kalpakdb.Prelude.Map.{Map, get, sum_values, sum_values-insert, measure, measure-le_sum}
use kalpakdb.Core.Key.{BlockId, AgentId, CacheKey}
use kalpakdb.Control.Types.{
  ChainBinding, Request, bind_prefix, bind_chain, commit_upload_lease, BindingRecord, MetadataState,
}
use kalpakdb.Control.Leases.{
  activate, reserve, reserve_active, reserve_new, cancel, renew, renew_pending, advance, expire,
}
use kalpakdb.Control.Commit.{binding_key, validate_commit}
use kalpakdb.Control.Binding.{release_refs, blocks_of, bind_one}
use kalpakdb.Control.Machine.{
  require, register, bind_all, commit_bind, after_check, commit, apply_unfenced, stamp, apply_one,
}
use kalpakdb.Control.Refs.{
  ref_count, mentions, total_refs, binding_size, total_size, RefsExact, ref_count-release_refs,
  ref_count-acquire_refs, release_refs-no_zero, acquire_refs-no_zero,
}

abbrev pub chain_weight : List ChainBinding → ℕ
chain_weight [] = 0
chain_weight (b ∷ bs) = length b.blocks + chain_weight bs

-- How many blocks a request may add to the bindings.
abbrev pub weight : Request → ℕ
weight (bind_prefix agent key blocks parent) = length blocks
weight (bind_chain agent bs) = chain_weight bs
weight (commit_upload_lease lease agent b expected) = length b.blocks
weight _ = 0

count-le_length : (j : BlockId) (bs : List BlockId) → count j bs ≤ length bs
count-le_length j [] = omega arith
count-le_length j (b ∷ bs) = ground (arith, count-le_length j bs)

total_refs-le_size : (j : BlockId) (m : Map Bytes BindingRecord) → total_refs j m ≤ total_size m
unfolding sum_values
total_refs-le_size j [] = omega arith
total_refs-le_size j ((k, r) ∷ m) =
    omega (arith, total_refs-le_size j m, count-le_length j r.blocks)

count-blocks_of :
    (j : BlockId) (o : Option BindingRecord) → count j (blocks_of o) ≡ measure (mentions j) o
count-blocks_of j none = refl
count-blocks_of j (some r) = refl

module _ {M : Type 0} (to_string : CacheKey → Bytes) where
  total_size-bind_one :
      (s : MetadataState M) (agent : AgentId) (key : CacheKey) (blocks : List BlockId)
      (parent : Option CacheKey)
      → total_size (bind_one to_string s agent key blocks parent).bindings
        ≤ total_size s.bindings + length blocks
  unfolding bind_one
  total_size-bind_one s agent key blocks parent = omega (
    arith,
    sum_values-insert binding_size (binding_key to_string key)
        (record { agent = agent; blocks = blocks }) s.bindings,
  )

  bind_one-RefsExact :
      (s : MetadataState M) (agent : AgentId) (key : CacheKey) (blocks : List BlockId)
      (parent : Option CacheKey)
      → RefsExact s
      → total_size s.bindings + length blocks < u32_mod
      → RefsExact (bind_one to_string s agent key blocks parent)
  unfolding bind_one
  bind_one-RefsExact s agent key blocks parent v room =
      let k = binding_key to_string key in
      let old = blocks_of (get k s.bindings) in
      let freed = release_refs old s.block_refs in
      let fits = λ (j : BlockId).
        let fit : ref_count j freed + count j blocks < u32_mod = omega (
          arith,
          ref_count-release_refs old j s.block_refs,
          v.exact j,
          total_refs-le_size j s.bindings,
          count-le_length j blocks,
        ) in
        fit in
      record {
        exact = λ j. omega (
          arith,
          ref_count-acquire_refs blocks j freed (fits j),
          ref_count-release_refs old j s.block_refs,
          v.exact j,
          count-blocks_of j (get k s.bindings),
          measure-le_sum (mentions j) k s.bindings,
          sum_values-insert (mentions j) k (record { agent = agent; blocks = blocks }) s.bindings,
        );
        no_zero =
            acquire_refs-no_zero blocks freed fits
              (release_refs-no_zero old s.block_refs v.no_zero);
      }

  bind_all-RefsExact :
      (s : MetadataState M) (agent : AgentId) (bs : List ChainBinding)
      → RefsExact s
      → total_size s.bindings + chain_weight bs < u32_mod
      → RefsExact (bind_all to_string s agent bs)
  unfolding bind_all
  bind_all-RefsExact s agent [] v room = v
  bind_all-RefsExact s agent (b ∷ bs) v room =
      bind_all-RefsExact (bind_one to_string s agent b.key b.blocks b.parent) agent bs
        (bind_one-RefsExact s agent b.key b.blocks b.parent v (omega arith))
        (omega (arith, total_size-bind_one s agent b.key b.blocks b.parent))

  after_check-RefsExact :
      (s : MetadataState M) (id : BlockId) (agent : AgentId) (b : ChainBinding) (expected : ℕ)
      (r : Result String Bool)
      → RefsExact s
      → total_size s.bindings + length b.blocks < u32_mod
      → RefsExact (after_check to_string s id agent b expected r).0
  unfolding after_check commit_bind
  after_check-RefsExact s id agent b expected (err m) v room = v
  after_check-RefsExact s id agent b expected (ok false) v room = v
  after_check-RefsExact s id agent b expected (ok true) v room =
      let w = bind_one-RefsExact s agent b.key b.blocks b.parent v room in
      record { exact = w.exact; no_zero = w.no_zero }

-- The requests that bind nothing leave the counts and the bindings alone.
module _ {M : Type 0} (s : MetadataState M) where
  same_refs :
      (t : MetadataState M)
      → t.block_refs ≡ s.block_refs
      → t.bindings ≡ s.bindings
      → RefsExact s
      → RefsExact t
  same_refs t refs bindings v = record {
    exact = λ b. ground (arith, v.exact b, refs, bindings);
    no_zero = λ b e. ground (arith, v.no_zero b, refs);
  }

module _ {M : Type 0} (to_string : CacheKey → Bytes) (s : MetadataState M) (v : RefsExact s) where
  apply_unfenced-RefsExact :
      (req : Request)
      → total_size s.bindings + weight req < u32_mod
      → RefsExact (apply_unfenced to_string s req).0
  unfolding apply_unfenced require register reserve reserve_active reserve_new activate cancel renew
      renew_pending advance expire commit
  apply_unfenced-RefsExact (bind_prefix agent key blocks parent) room =
      bind_one-RefsExact to_string s agent key blocks parent v room
  apply_unfenced-RefsExact (bind_chain agent bs) room =
      bind_all-RefsExact to_string s agent bs v room
  apply_unfenced-RefsExact (commit_upload_lease id agent b expected) room =
      after_check-RefsExact to_string s id agent b expected
        (validate_commit to_string s id agent b expected) v room
  apply_unfenced-RefsExact req room =
      same_refs s (apply_unfenced to_string s req).0 (ground arith) (ground arith) v

  -- From a state whose reference counts are exact (each block has the number of times that the
  -- bindings mention it, and no count is zero), a request leaves exact counts, provided that
  -- the blocks listed by all bindings and by the request together are fewer than 2^32.
  pub apply_one-RefsExact :
      (req : Request)
      → total_size s.bindings + weight req < u32_mod
      → RefsExact (apply_one to_string s req).0
  unfolding apply_one stamp
  apply_one-RefsExact req room =
      let w = apply_unfenced-RefsExact req room in
      record {
        exact = λ b. ground (arith, w.exact b, v.exact b);
        no_zero = λ b e. ground (arith, w.no_zero b, v.no_zero b);
      }
