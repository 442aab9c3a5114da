-- ===== src/Storage/Tiered/Reads.antt =====
-- What a read of the memory tier answers (`get`, `verify_cold` of
-- crates/kalpak-storage/src/tiered.rs).
use kalpakdb.Prelude.{
  ◌+◌, ◌≡◌, ◌≢◌, inl, inr, refl, sym, ap, ◌∙◌, Bool, true, false, Option, none, some, Bytes,
  if◌then◌else◌, contains, Result, ok, err, list_eq, nat_eq, ==_refl, arith, Bool-cases,
}
use kalpakdb.Prelude.Map.{get}
use kalpakdb.Core.Key.{BlockId}
use kalpakdb.Storage.Segment.{Location, wrap}
use kalpakdb.Storage.Segment.Steps.{if_true, if_false}
use kalpakdb.Storage.Store.{Error, corrupt, io, block_not_found, panicked, get_block}
use kalpakdb.Storage.Tiered.{
  Moka, TieredStore, Reply, promote, get_warm, get_pinned, get_tiered, quarantine, unpinned,
  verified_cold, verify_cold, unpin,
}
use kalpakdb.Storage.Tiered.Tier.{IsTier}

module _ (moka : Moka) (hash : Bytes → Bytes) (device : Location → Bool) where
  get_warm-cold :
      (id : BlockId) (t : TieredStore moka) (payload : Bytes) (found : Option Bytes)
      → ((v : Bytes) → found ≡ some v → v ≡ payload)
      → get_block hash device t.cold id ≡ ok payload
      → (get_warm moka hash device id t found).1 ≡ ok payload
  unfolding promote
  get_warm-cold id t payload (some v) same cold = ap {B = Result Error Bytes} ok (same v refl)
  get_warm-cold id t payload none same cold =
      ap (λ r. (promote moka hash device id (record t { misses = wrap (t.misses + 1) }) r).1) cold

  get_pinned-cold :
      (id : BlockId) (t : TieredStore moka) (payload : Bytes) (found : Option Bytes)
      → ((v : Bytes) → found ≡ some v → v ≡ payload)
      → ((v : Bytes) → moka.entry id t.warm ≡ some v → v ≡ payload)
      → get_block hash device t.cold id ≡ ok payload
      → (get_pinned moka hash device id t found).1 ≡ ok payload
  get_pinned-cold id t payload (some v) same warm cold =
      ap {B = Result Error Bytes} ok (same v refl)
  get_pinned-cold id t payload none same warm cold =
      get_warm-cold id (record t { warm = moka.touch id t.warm }) payload (moka.entry id t.warm)
        warm cold

  pub get_tiered-quarantined :
      (id : BlockId) (t : TieredStore moka)
      → contains id t.quarantined ≡ true
      → (get_tiered moka hash device id t).1 ≡ err (corrupt id)
  unfolding get_tiered
  get_tiered-quarantined id t bad =
      ap (λ (r : Reply moka Bytes). r.1) (if_true (contains id t.quarantined) _ _ bad)

  -- For a block that can be read in the cold store and whose payload is the only one with its
  -- hash, a get through a well-formed memory tier answers what the cold store answers, or that
  -- the block is corrupt when it is quarantined, whatever is pinned or cached.
  pub get_tiered-cold :
      (id : BlockId) (t : TieredStore moka) (payload : Bytes)
      → IsTier moka hash t
      → ((other : Bytes) → hash other ≡ id → other ≡ payload)
      → get_block hash device t.cold id ≡ ok payload
      → (get_tiered moka hash device id t).1
        ≡ (if contains id t.quarantined then err (corrupt id) else get_block hash device t.cold id)
  unfolding get_tiered
  get_tiered-cold id t payload tier unique cold =
      elim (contains id t.quarantined)
        as (λ b.
          (if b
            then (t, err (corrupt id))
            else get_pinned moka hash device id t (get id t.pinned)).1
          ≡ (if b then err (corrupt id) else get_block hash device t.cold id)) [
            | true ↦ refl
            | false ↦
                get_pinned-cold id t payload (get id t.pinned) (λ v h. unique v (tier.0.0 id v h))
                  (λ v h. unique v (tier.0.1 id v h).0) cold
                ∙ sym cold
          ]

  unpinned_quarantined :
      (id : BlockId) (t : TieredStore moka) (found : Option Bytes)
      → (unpinned moka id t found).quarantined ≡ t.quarantined
  unpinned_quarantined id t none = refl
  unpinned_quarantined id t (some v) = refl

  quarantine-contains :
      (id : BlockId) (t : TieredStore moka)
      → contains id (quarantine moka hash device id t).quarantined ≡ true
  unfolding unpin
  quarantine-contains id t =
      ap (contains id) (unpinned_quarantined id _ (get id t.pinned))
      ∙ elim (Bool-cases (contains id t.quarantined)) [
        | inl old ↦ ap (contains id) (if_true (contains id t.quarantined) _ _ old) ∙ old
        | inr new ↦
            ap (contains id) (if_false (contains id t.quarantined) _ _ new)
            ∙ ground (arith, ==_refl id)
      ]

  damaged :
      (id : BlockId) (t : TieredStore moka) (e : Error)
      → ((j : BlockId) → e ≢ block_not_found j)
      → (get_tiered moka hash device id (verified_cold moka hash device id t (err e)).0).1
        ≡ err (corrupt id)
  damaged id t (block_not_found j) other = absurd (other j refl)
  damaged id t (corrupt j) other = get_tiered-quarantined id _ (quarantine-contains id t)
  damaged id t io other = get_tiered-quarantined id _ (quarantine-contains id t)
  damaged id t panicked other = get_tiered-quarantined id _ (quarantine-contains id t)

  -- After verify_cold of a block whose cold record fails to read for another reason than that
  -- the block is not known, a get answers that the block is corrupt, whatever copies were
  -- pinned or cached.
  pub get_tiered-verify_cold :
      (id : BlockId) (t : TieredStore moka) (e : Error)
      → get_block hash device t.cold id ≡ err e
      → ((j : BlockId) → e ≢ block_not_found j)
      → (get_tiered moka hash device id (verify_cold moka hash device id t).0).1 ≡ err (corrupt id)
  unfolding verify_cold
  get_tiered-verify_cold id t e bad other =
      ap (λ r. (get_tiered moka hash device id (verified_cold moka hash device id t r).0).1) bad
      ∙ damaged id t e other
