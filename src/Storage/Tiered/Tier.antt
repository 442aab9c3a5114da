-- ===== src/Storage/Tiered/Tier.antt =====
-- What the memory tier keeps (crates/kalpak-storage/src/tiered.rs).
use kalpakdb.Prelude.{
  ℕ, ◌+◌, ◌-◌, ◌<◌, ◌≤◌, ◌≡◌, inl, inr, refl, sym, ap, ◌∙◌, subst, Bool, true, false, Option, none,
  some, List, [], ◌∷◌, Bytes, leb, if◌then◌else◌, length, contains, Result, ok, err, list_eq,
  nat_eq, ==_iff, arith, map, Bool-cases, ◌>>=◌,
}
use kalpakdb.Prelude.Map.{
  Map, get, remove, Distinct, Distinct-remove, get-remove, sum_values, measure, measure-le_sum,
}
use kalpakdb.Core.Key.{BlockId, id_of}
use kalpakdb.Storage.Segment.{Location, wrap}
use kalpakdb.Storage.Segment.Steps.{if_true, if_false}
use kalpakdb.Storage.Store.{Error, corrupt, io, BlockStore, get_block}
use kalpakdb.Storage.Store.Writing.{
  Event, Step, settle, start_attempt, finish_batch, put_each, Put, put_many_inner,
}
use kalpakdb.Storage.Store.Verified.{get_block-verified}
use kalpakdb.Storage.Tiered.{
  Moka, TieredStore, Reply, warm_insert, unpin, promote, get_warm, get_pinned, get_tiered, unpinned,
}

sum_values-remove :
    (f : Bytes → ℕ) (k : BlockId) (m : Map BlockId Bytes)
    → Distinct m
    → sum_values f (remove k m) + measure f (get k m) ≡ sum_values f m
unfolding get remove sum_values
sum_values-remove f k [] d = omega arith
sum_values-remove f k ((j, v) ∷ m) d = ground (arith, sum_values-remove f k m d.1, ==_iff j k)

module _ (hash : Bytes → Bytes) (device : Location → Bool) where
  settle-ids :
      (store : BlockStore) (ids found : List BlockId) (r : Step)
      → (settle store ids r).reply ≡ ok found
      → found ≡ ids
  settle-ids store ids found (ok a) h = ground arith
  settle-ids store ids found (err a) h = absurd (ground arith)

  -- The answer of a batch is the ids of its payloads.
  pub put_many_inner-ids :
      (store : BlockStore) (payloads : List Bytes) (mending : Bool) (events : List Event)
      (ids : List BlockId)
      → (put_many_inner hash device store payloads mending events).reply ≡ ok ids
      → ids ≡ map hash payloads
  unfolding put_many_inner id_of
  put_many_inner-ids store payloads mending events ids h =
      let body = settle store (map hash payloads) (
        put_each hash device store mending payloads (start_attempt store events)
        >>= finish_batch) in
      elim (Bool-cases store.write_failed) [
        | inl failed ↦ absurd (
            let refused =
              ap (λ (p : Put). p.reply)
                (if_true store.write_failed
                  (record { store = store; events = events; reply = err io }) body failed) in
            ground arith)
        | inr fine ↦
            settle-ids store (map hash payloads) ids
              (put_each hash device store mending payloads (start_attempt store events)
                >>= finish_batch)
              (sym (
                  ap (λ (p : Put). p.reply)
                    (if_false store.write_failed
                      (record { store = store; events = events; reply = err io }) body fine))
                ∙ h)
      ]

module _ (moka : Moka) (hash : Bytes → Bytes) where
  -- What is cached hashes to its id, and the bytes of the pinned blocks are counted and bounded.
  abbrev pub IsTier : TieredStore moka → Type 0
  IsTier t =
      (((id : BlockId) (v : Bytes) → get id t.pinned ≡ some v → hash v ≡ id)
        × ((id : BlockId) (v : Bytes)
            → moka.entry id t.warm ≡ some v
            → (hash v ≡ id) × (length v < 9223372036854775808)))
      × (Distinct t.pinned
          × ((t.pinned_bytes ≡ sum_values length t.pinned)
              × ((t.pinned_bytes ≤ t.pinned_budget) × (t.pinned_budget < 4611686018427387904))))

  pub warm_insert-IsTier :
      (id : BlockId) (payload : Bytes) (t : TieredStore moka)
      → hash payload ≡ id
      → length payload < 9223372036854775808
      → IsTier t
      → IsTier (warm_insert moka id payload t)
  unfolding warm_insert
  warm_insert-IsTier id payload t hashed fits ((pinned_true, warm_true), rest) =
      elim (leb (length payload) t.warm_budget)
        as (λ b. IsTier (if b then record t { warm = moka.put_entry id payload t.warm } else t)) [
          | true ↦ (
            (
              pinned_true,
              λ j v e. elim (moka.entry-put_entry j id payload t.warm v e) [
                | inl (same, new) ↦ (
                  ap hash new ∙ hashed ∙ sym same,
                  subst (λ b. length b < 9223372036854775808) (sym new) fits,
                )
                | inr old ↦ warm_true j v old
              ],
            ),
            rest,
          )
          | false ↦ ((pinned_true, warm_true), rest)
        ]

  pinned-warm_insert :
      (id : BlockId) (payload : Bytes) (t : TieredStore moka)
      → (warm_insert moka id payload t).pinned ≡ t.pinned
  unfolding warm_insert
  pinned-warm_insert id payload t =
      elim (leb (length payload) t.warm_budget)
        as (λ b.
          (if b then record t { warm = moka.put_entry id payload t.warm } else t).pinned
          ≡ t.pinned) [ true ↦ refl | false ↦ refl ]

  unpinned-IsTier :
      (id : BlockId) (t : TieredStore moka) (found : Option Bytes)
      → get id t.pinned ≡ found
      → IsTier t
      → IsTier (unpinned moka id t found)
  unpinned-IsTier id t none e tier = tier
  unpinned-IsTier id t (some payload) e
        ((pinned_true, warm_true), (distinct, (counted, (bounded, small)))) =
      let removed = sum_values-remove length id t.pinned distinct in
      let there = ap (measure length) e in
      let bytes : wrap (t.pinned_bytes + 18446744073709551616 - length payload)
          ≡ sum_values length (remove id t.pinned) =
        omega (arith, removed, there, counted, bounded, small) in
      (
        (λ j v h. pinned_true j v (ground (arith, get-remove id j t.pinned)), warm_true),
        (
          Distinct-remove id t.pinned distinct,
          (bytes, (omega (arith, bytes, removed, counted, bounded), small)),
        ),
      )

  pub unpin-IsTier : (id : BlockId) (t : TieredStore moka) → IsTier t → IsTier (unpin moka id t)
  unfolding unpin
  unpin-IsTier id t tier = unpinned-IsTier id t (get id t.pinned) refl tier

  module _ (device : Location → Bool) where
    -- Payloads that the cold store reads are in memory.
    abbrev pub ReadsFit : TieredStore moka → BlockId → Type 0
    ReadsFit t id =
        (payload : Bytes)
        → get_block hash device t.cold id ≡ ok payload
        → length payload < 9223372036854775808

    -- A read keeps what holds and what is pinned, and what it returns hashes to its id.
    abbrev pub ReadTier : BlockId → Map BlockId Bytes → Reply moka Bytes → Type 0
    ReadTier id pinned r =
        (IsTier r.0 × (r.0.pinned ≡ pinned))
        × ((payload : Bytes)
            → r.1 ≡ ok payload
            → (hash payload ≡ id) × (length payload < 9223372036854775808))

    promote-ReadTier :
        (id : BlockId) (t : TieredStore moka) (r : Result Error Bytes)
        → get_block hash device t.cold id ≡ r
        → ReadsFit t id
        → IsTier t
        → ReadTier id t.pinned (promote moka hash device id t r)
    unfolding promote
    promote-ReadTier id t (ok payload) e fits tier =
        let hashed = get_block-verified hash device t.cold id payload e in
        (
          (
            warm_insert-IsTier id payload t hashed (fits payload e) tier,
            pinned-warm_insert id payload t,
          ),
          λ found q.
              let same : found ≡ payload = ground arith in
              (
                ap hash same ∙ hashed,
                subst (λ b. length b < 9223372036854775808) (sym same) (fits payload e),
              ),
        )
    promote-ReadTier id t (err x) e fits tier = ((tier, refl), λ found q. absurd (ground arith))

    get_warm-ReadTier :
        (id : BlockId) (t : TieredStore moka) (found : Option Bytes)
        → ((v : Bytes) → found ≡ some v → (hash v ≡ id) × (length v < 9223372036854775808))
        → ReadsFit t id
        → IsTier t
        → ReadTier id t.pinned (get_warm moka hash device id t found)
    get_warm-ReadTier id t (some payload) good fits tier =
        ((tier, refl), λ v q. good v (ground arith))
    get_warm-ReadTier id t none good fits tier =
        promote-ReadTier id (record t { misses = wrap (t.misses + 1) })
          (get_block hash device t.cold id) refl fits tier

    get_pinned-ReadTier :
        (id : BlockId) (t : TieredStore moka) (found : Option Bytes)
        → get id t.pinned ≡ found
        → ((v : Bytes) → found ≡ some v → length v < 9223372036854775808)
        → ReadsFit t id
        → IsTier t
        → ReadTier id t.pinned (get_pinned moka hash device id t found)
    get_pinned-ReadTier id t (some payload) e small fits tier =
        ((tier, refl), λ v q. (tier.0.0 id v (ground arith), small v (ground arith)))
    get_pinned-ReadTier id t none e small fits tier =
        get_warm-ReadTier id (record t { warm = moka.touch id t.warm }) (moka.entry id t.warm)
          (tier.0.1 id) fits
          ((tier.0.0, λ j v h. tier.0.1 j v (moka.entry-touch j id t.warm v h)), tier.1)

    -- A pinned payload is no longer than all of them.
    pinned_fits :
        (id : BlockId) (t : TieredStore moka) (v : Bytes)
        → IsTier t
        → get id t.pinned ≡ some v
        → length v < 9223372036854775808
    pinned_fits id t v (true_ones, (distinct, (counted, (bounded, small)))) e =
        omega
          (arith, measure-le_sum length id t.pinned, ap (measure length) e, counted, bounded, small)

    pub get_tiered-ReadTier :
        (id : BlockId) (t : TieredStore moka)
        → ReadsFit t id
        → IsTier t
        → ReadTier id t.pinned (get_tiered moka hash device id t)
    unfolding get_tiered
    get_tiered-ReadTier id t fits tier =
        elim (contains id t.quarantined)
          as (λ b. ReadTier id t.pinned (
            if b
            then (t, err (corrupt id))
            else get_pinned moka hash device id t (get id t.pinned))) [
              | true ↦ ((tier, refl), λ v q. absurd (ground arith))
              | false ↦
                  get_pinned-ReadTier id t (get id t.pinned) refl (λ v. pinned_fits id t v tier)
                    fits tier
            ]
