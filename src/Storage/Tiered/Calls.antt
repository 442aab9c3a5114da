-- ===== src/Storage/Tiered/Calls.antt =====
-- The calls of the memory tier (crates/kalpak-storage/src/tiered.rs), one after the other.
use kalpakdb.Prelude.{◌<◌, Bool, false, List, [], ◌∷◌, Bytes, length, list_eq, nat_eq, All}
use kalpakdb.Core.Key.{BlockId, id_of}
use kalpakdb.Storage.Segment.{Location}
use kalpakdb.Storage.Store.{get_block}
use kalpakdb.Storage.Store.Writing.{Event, put_many, put_block, repair_block}
use kalpakdb.Storage.Store.Compaction.{compact}
use kalpakdb.Storage.Tiered.{
  compact_tiered, Moka, TieredStore, get_tiered, pin, put_tiered, put_batch, verify_cold, repair,
}
use kalpakdb.Storage.Tiered.Tier.{put_many_inner-ids, IsTier, ReadsFit, get_tiered-ReadTier}
use kalpakdb.Storage.Tiered.Effects.{
  pin-IsTier, put_warm-IsTier, put_many_warm-IsTier, verified_cold-IsTier, repair_warm-IsTier,
  compacted-IsTier, first-id, repair_block-verified,
}

-- A call of the tier, with what the device will do.
pub data Call : Type 0 where
  gets : BlockId → Call
  pins : BlockId → Call
  puts : Bytes → List Event → Call
  puts_many : List Bytes → List Event → Call
  verifies : BlockId → Call
  repairs : BlockId → Bytes → List Event → Call
  compacts : (BlockId → Bool) → List Event → Call

module _ (moka : Moka) (hash : Bytes → Bytes) (device : Location → Bool) where
  abbrev Tier : TieredStore moka → Type 0
  Tier = IsTier moka hash

  unfoldable pub call_tier : Call → TieredStore moka → TieredStore moka
  call_tier (gets id) t = (get_tiered moka hash device id t).0
  call_tier (pins id) t = (pin moka hash device id t).0
  call_tier (puts payload events) t = (put_tiered moka hash device payload events t).0
  call_tier (puts_many payloads events) t = (put_batch moka hash device payloads events t).0
  call_tier (verifies id) t = (verify_cold moka hash device id t).0
  call_tier (repairs id payload events) t = (repair moka hash device id payload events t).0
  call_tier (compacts live events) t = (compact_tiered moka hash device live events t).0

  -- What the call puts or reads is in memory.
  abbrev pub Fits : Call → TieredStore moka → Type 0
  Fits (gets id) t = ReadsFit moka hash device t id
  Fits (pins id) t = ReadsFit moka hash device t id
  Fits (puts payload events) t = length payload < 9223372036854775808
  Fits (puts_many payloads events) t = All (λ p. length p < 9223372036854775808) payloads
  Fits (verifies id) t = Unit
  Fits (repairs id payload events) t = length payload < 9223372036854775808
  Fits (compacts live events) t = Unit

  -- Every call on the memory tier (get, pin, put, put_many, verify_cold, repair, compact),
  -- whatever moka evicts and whatever fails in the cold store, keeps what holds of it: each
  -- pinned or cached payload hashes to its id, no block is pinned twice, pinned_bytes is the
  -- sum of the lengths of the pinned payloads, and it stays within the pinned budget, itself
  -- below 2^62. What a call puts or reads is below 2^63 bytes.
  pub call_tier-IsTier :
      (call : Call) (t : TieredStore moka) → Fits call t → Tier t → Tier (call_tier call t)
  unfolding call_tier put_tiered put_batch verify_cold repair compact_tiered id_of
  call_tier-IsTier (gets id) t fits tier = (get_tiered-ReadTier moka hash device id t fits tier).0.0
  call_tier-IsTier (pins id) t fits tier = pin-IsTier moka hash device id t fits tier
  call_tier-IsTier (puts payload events) t fits tier =
      let p = put_block hash device t.cold payload events in
      put_warm-IsTier moka hash device payload (record t { cold = p.store }) p.reply
        (λ id h.
          first-id moka hash device (put_many hash device t.cold (payload ∷ []) events).reply id
            (hash payload)
            (λ ids e. put_many_inner-ids hash device t.cold (payload ∷ []) false events ids e) h)
        fits tier
  call_tier-IsTier (puts_many payloads events) t fits tier =
      let p = put_many hash device t.cold payloads events in
      put_many_warm-IsTier moka hash device payloads (record t { cold = p.store }) p.reply
        (λ ids e. put_many_inner-ids hash device t.cold payloads false events ids e) fits tier
  call_tier-IsTier (verifies id) t fits tier =
      verified_cold-IsTier moka hash device id t (get_block hash device t.cold id) tier
  call_tier-IsTier (repairs id payload events) t fits tier =
      let p = repair_block hash device t.cold id payload events in
      repair_warm-IsTier moka hash device id payload (record t { cold = p.store }) p.reply
        (λ done h. repair_block-verified moka hash device t.cold id payload events done h) fits tier
  call_tier-IsTier (compacts live events) t fits tier =
      compacted-IsTier moka hash device t (compact hash device live t.cold events) tier
