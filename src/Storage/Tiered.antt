-- ===== src/Storage/Tiered.antt =====
-- crates/kalpak-storage/src/tiered.rs: a memory tier over the block store. The moka cache is a
-- parameter. BLAKE3 is the parameter `hash`; whether the device can read at a place is the
-- parameter `device`. Sums on u64 wrap.
pub mod Tier
pub mod Effects
pub mod Calls
pub mod Reads
use kalpakdb.Prelude.{
  ℕ, ◌+◌, ◌-◌, ◌/◌, ◌≤◌, ◌≡◌, ◌≢◌, ◌⊎◌, Bool, true, false, not, ◌&&◌, Option, none, some, List, [],
  ◌∷◌, Bytes, ltb, leb, if◌then◌else◌, length, contains, Result, ok, err, list_eq, nat_eq, ◌==◌,
}
use kalpakdb.Prelude.Map.{Map, get, insert, remove, contains_key}
use kalpakdb.Core.Key.{BlockId}
use kalpakdb.Storage.Segment.{Location, wrap}
use kalpakdb.Storage.Store.{Error, corrupt, block_not_found, BlockStore, get_block, contains_block}
use kalpakdb.Storage.Store.Compaction.{Outcome, CompactStats, compact}
use kalpakdb.Storage.Store.Writing.{Event, put_many, put_block, repair_block, Put, PutBlock}

-- What is used of moka: an entry may be evicted at any time, but it is never made up.
pub record Moka : Type 1 where
  pub Cache : Type 0
  pub entry : BlockId → Cache → Option Bytes
  pub touch : BlockId → Cache → Cache
  pub put_entry : BlockId → Bytes → Cache → Cache
  pub invalidate : BlockId → Cache → Cache
  -- The ids that an iteration finds.
  pub cached : Cache → List BlockId
  pub entry-touch :
      (j k : BlockId) (c : Cache) (v : Bytes) → entry j (touch k c) ≡ some v → entry j c ≡ some v
  pub entry-put_entry :
      (j k : BlockId) (w : Bytes) (c : Cache) (v : Bytes)
      → entry j (put_entry k w c) ≡ some v
      → ((j ≡ k) × (v ≡ w)) ⊎ (entry j c ≡ some v)
  pub entry-invalidate :
      (j k : BlockId) (c : Cache) (v : Bytes)
      → entry j (invalidate k c) ≡ some v
      → (j ≢ k) × (entry j c ≡ some v)

pub record TierStats : Type 0 where
  pub warm_blocks : ℕ
  pub warm_bytes : ℕ
  pub warm_budget : ℕ
  pub pinned_blocks : ℕ
  pub pinned_bytes : ℕ
  pub pinned_budget : ℕ
  pub hits : ℕ
  pub misses : ℕ

module _ (moka : Moka) where
  pub record TieredStore : Type 0 where
    pub quarantined : List BlockId
    pub cold : BlockStore
    pub warm : moka.Cache
    pub warm_budget : ℕ
    pub pinned : Map BlockId Bytes
    pub pinned_bytes : ℕ
    pub pinned_budget : ℕ
    pub hits : ℕ
    pub misses : ℕ

  -- A call's effect and its answer.
  abbrev pub Reply : Type 0 → Type 0
  Reply A = TieredStore × Result Error A

  unfoldable pub new : BlockStore → moka.Cache → ℕ → TieredStore
  new cold empty warm_budget = record {
    quarantined = [];
    cold = cold;
    warm = empty;
    warm_budget = warm_budget;
    pinned = [];
    pinned_bytes = 0;
    pinned_budget = warm_budget / 4;
    hits = 0;
    misses = 0;
  }

  unfoldable pub warm_insert : BlockId → Bytes → TieredStore → TieredStore
  warm_insert id payload t =
      if leb (length payload) t.warm_budget
      then record t { warm = moka.put_entry id payload t.warm }
      else t

  unfoldable pub warm_all : List BlockId → List Bytes → TieredStore → TieredStore
  unfolding warm_insert
  warm_all [] payloads t = t
  warm_all (id ∷ ids) [] t = t
  warm_all (id ∷ ids) (payload ∷ payloads) t = warm_all ids payloads (warm_insert id payload t)

  abbrev pub unpinned : BlockId → TieredStore → Option Bytes → TieredStore
  unpinned id t none = t
  unpinned id t (some payload) = record t {
    pinned = remove id t.pinned;
    pinned_bytes = wrap (t.pinned_bytes + 18446744073709551616 - length payload);
  }

  unfoldable pub unpin : BlockId → TieredStore → TieredStore
  unpin id t = unpinned id t (get id t.pinned)

  abbrev pub without : BlockId → List BlockId → List BlockId
  without id [] = []
  without id (j ∷ ids) = let rest = without id ids in if j == id then rest else j ∷ rest

  module _ (hash : Bytes → Bytes) (device : Location → Bool) where
    -- A cold hit is promoted.
    unfoldable pub promote : BlockId → TieredStore → Result Error Bytes → Reply Bytes
    unfolding warm_insert
    promote id t (ok payload) = (warm_insert id payload t, ok payload)
    promote id t (err e) = (t, err e)

    abbrev pub get_warm : BlockId → TieredStore → Option Bytes → Reply Bytes
    get_warm id t (some payload) = (record t { hits = wrap (t.hits + 1) }, ok payload)
    get_warm id t none =
        promote id (record t { misses = wrap (t.misses + 1) }) (get_block hash device t.cold id)

    abbrev pub get_pinned : BlockId → TieredStore → Option Bytes → Reply Bytes
    get_pinned id t (some payload) = (record t { hits = wrap (t.hits + 1) }, ok payload)
    get_pinned id t none =
        get_warm id (record t { warm = moka.touch id t.warm }) (moka.entry id t.warm)

    unfoldable pub get_tiered : BlockId → TieredStore → Reply Bytes
    unfolding promote
    get_tiered id t =
        if contains id t.quarantined
        then (t, err (corrupt id))
        else get_pinned id t (get id t.pinned)

    unfoldable pub contains_tiered : BlockId → TieredStore → Bool
    unfolding contains_block
    contains_tiered id t = not (contains id t.quarantined) && contains_block t.cold id

    abbrev pub pin_payload : BlockId → Reply Bytes → Reply Bool
    pin_payload id (t, err e) = (t, err e)
    pin_payload id (t, ok payload) =
        if ltb t.pinned_budget (wrap (t.pinned_bytes + length payload)) then (t, ok false) else (
          record t {
            pinned = insert id payload t.pinned;
            pinned_bytes = wrap (t.pinned_bytes + length payload);
          },
          ok true,
        )

    -- Sequentially, the second test for the key finds what the first one found.
    unfoldable pub pin : BlockId → TieredStore → Reply Bool
    unfolding get_tiered
    pin id t = if contains_key id t.pinned then (t, ok true) else pin_payload id (get_tiered id t)

    abbrev pub put_warm : Bytes → TieredStore → Result Error BlockId → Reply BlockId
    put_warm payload t (ok id) = (warm_insert id payload t, ok id)
    put_warm payload t (err e) = (t, err e)

    unfoldable pub put_tiered : Bytes → List Event → TieredStore → Reply BlockId
    unfolding warm_insert
    put_tiered payload events t =
        let p = put_block hash device t.cold payload events in
        put_warm payload (record t { cold = p.store }) p.reply

    abbrev pub put_many_warm :
        List Bytes → TieredStore → Result Error (List BlockId) → Reply (List BlockId)
    put_many_warm payloads t (ok ids) = (warm_all ids payloads t, ok ids)
    put_many_warm payloads t (err e) = (t, err e)

    unfoldable pub put_batch : List Bytes → List Event → TieredStore → Reply (List BlockId)
    unfolding warm_all
    put_batch payloads events t =
        let p = put_many hash device t.cold payloads events in
        put_many_warm payloads (record t { cold = p.store }) p.reply

    -- Damage in the cold store is quarantined, and the copies that would hide it are dropped.
    abbrev pub quarantine : BlockId → TieredStore → TieredStore
    quarantine id t = unpin id (record t {
      quarantined = if contains id t.quarantined then t.quarantined else id ∷ t.quarantined;
      warm = moka.invalidate id t.warm;
    })

    abbrev pub verified_cold : BlockId → TieredStore → Result Error Bytes → Reply Unit
    verified_cold id t (ok payload) = (record t { quarantined = without id t.quarantined }, ok tt)
    verified_cold id t (err (block_not_found j)) = (t, err (block_not_found j))
    verified_cold id t (err e) = (quarantine id t, err e)

    unfoldable pub verify_cold : BlockId → TieredStore → Reply Unit
    unfolding unpin
    verify_cold id t = verified_cold id t (get_block hash device t.cold id)

    abbrev pub repair_warm : BlockId → Bytes → TieredStore → Result Error BlockId → Reply BlockId
    repair_warm id payload t (ok done) =
        (warm_insert id payload (record t { quarantined = without id t.quarantined }), ok id)
    repair_warm id payload t (err e) = (t, err e)

    unfoldable pub repair : BlockId → Bytes → List Event → TieredStore → Reply BlockId
    unfolding warm_insert
    repair id payload events t =
        let p = repair_block hash device t.cold id payload events in
        repair_warm id payload (record t { cold = p.store }) p.reply

    abbrev pub invalidate_all : List BlockId → TieredStore → TieredStore
    invalidate_all [] t = t
    invalidate_all (id ∷ ids) t = invalidate_all ids (record t { warm = moka.invalidate id t.warm })

    abbrev pub unpin_all : List BlockId → TieredStore → TieredStore
    unpin_all [] t = t
    unpin_all (id ∷ ids) t = unpin_all ids (unpin id t)

    abbrev pub pinned_ids : Map BlockId Bytes → List BlockId
    pinned_ids [] = []
    pinned_ids ((id, payload) ∷ pinned) = id ∷ pinned_ids pinned

    -- The ids that the cold store no longer has.
    abbrev pub gone : BlockStore → List BlockId → List BlockId
    gone cold [] = []
    gone cold (id ∷ ids) =
        let rest = gone cold ids in if contains_block cold id then rest else id ∷ rest

    abbrev pub sweep : TieredStore → TieredStore
    sweep t =
        let u = unpin_all (gone t.cold (pinned_ids t.pinned)) t in
        invalidate_all (gone u.cold (moka.cached u.warm)) u

    abbrev pub compacted : TieredStore → Outcome → Reply CompactStats
    compacted t (err failed) = (record t { cold = failed.1.store }, err failed.0)
    compacted t (ok c) = (
      (if ltb 0 c.stats.blocks_dropped
          then sweep (record t { cold = c.store })
          else record t { cold = c.store }),
      ok c.stats,
    )

    unfoldable pub compact_tiered : (BlockId → Bool) → List Event → TieredStore → Reply CompactStats
    unfolding unpin contains_block
    compact_tiered live events t = compacted t (compact hash device live t.cold events)

    unfoldable pub tier_stats :
        (moka.Cache → moka.Cache) → (moka.Cache → ℕ) → (moka.Cache → ℕ) → TieredStore → TierStats
    tier_stats maintain entry_count weighted_size t =
        let warm = maintain t.warm in
        record {
          warm_blocks = entry_count warm;
          warm_bytes = weighted_size warm;
          warm_budget = t.warm_budget;
          pinned_blocks = length t.pinned;
          pinned_bytes = t.pinned_bytes;
          pinned_budget = t.pinned_budget;
          hits = t.hits;
          misses = t.misses;
        }
