-- ===== src/Control/Binding.antt =====
-- crates/kalpak-control/src/state_machine.rs, `bind_one`: one prefix binding, with its revision,
-- its reference counts and its edge of the prefix tree.
use kalpakdb.Prelude.{
  ℕ, ◌+◌, ◌-◌, ◌%◌, Option, none, some, List, [], ◌∷◌, ◌++◌, Bytes, nat_eq, list_eq, eqb,
  if◌then◌else◌, contains, unwrap_or, saturating_add, u32_mod,
}
use kalpakdb.Prelude.Map.{Map, get, insert, remove}
use kalpakdb.Core.Key.{BlockId, AgentId, CacheKey}
use kalpakdb.Control.Types.{BindingRecord, LeaseState, MetadataState}
use kalpakdb.Control.Commit.{binding_key}

-- Once leases are in use, every binding moves its key's revision.
unfoldable pub bump_revision : Bytes → LeaseState → LeaseState
bump_revision key l =
    if l.initialized
    then record l {
      revisions = insert key (saturating_add (unwrap_or (get key l.revisions) 0) 1) l.revisions;
    }
    else l

unfoldable pub release_ref : BlockId → Map BlockId ℕ → Map BlockId ℕ
release_ref b refs = elim (get b refs) [
  | none ↦ refs
  | some n ↦ if eqb (n - 1) 0 then remove b refs else insert b (n - 1) refs
]

unfoldable pub release_refs : List BlockId → Map BlockId ℕ → Map BlockId ℕ
unfolding release_ref
release_refs [] refs = refs
release_refs (b ∷ bs) refs = release_refs bs (release_ref b refs)

-- The counts are `u32` and wrap in a release build.
unfoldable pub acquire_refs : List BlockId → Map BlockId ℕ → Map BlockId ℕ
acquire_refs [] refs = refs
acquire_refs (b ∷ bs) refs =
    acquire_refs bs (insert b ((unwrap_or (get b refs) 0 + 1) % u32_mod) refs)

abbrev pub blocks_of : Option BindingRecord → List BlockId
blocks_of none = []
blocks_of (some old) = old.blocks

link_key : Bytes → Bytes → Map Bytes (List Bytes) → Map Bytes (List Bytes)
link_key parent key children =
    let kids = unwrap_or (get parent children) [] in
    insert parent (if contains key kids then kids else kids ++ key ∷ []) children

module _ {M : Type 0} (to_string : CacheKey → Bytes) where
  link_child : MetadataState M → Option CacheKey → Bytes → Map Bytes (List Bytes)
  unfolding link_key
  link_child s none key = s.children
  link_child s (some parent) key = link_key (binding_key to_string parent) key s.children

  unfoldable pub bind_one :
      MetadataState M → AgentId → CacheKey → List BlockId → Option CacheKey → MetadataState M
  unfolding link_child link_key
  bind_one s agent key blocks parent =
      let key_s = binding_key to_string key in
      record s {
        leases = bump_revision key_s s.leases;
        block_refs =
            acquire_refs blocks (release_refs (blocks_of (get key_s s.bindings)) s.block_refs);
        bindings = insert key_s (record { agent = agent; blocks = blocks }) s.bindings;
        children = link_child s parent key_s;
      }
