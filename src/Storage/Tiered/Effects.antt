-- ===== src/Storage/Tiered/Effects.antt =====
-- What each operation of the memory tier keeps (crates/kalpak-storage/src/tiered.rs).
use kalpakdb.Prelude.{
  true, ◌+◌, ◌<◌, ◌≡◌, inl, inr, refl, sym, ap, ◌∙◌, subst, Bool, false, none, List, [], ◌∷◌, Bytes,
  ltb, if◌then◌else◌, length, contains, Result, ok, err, list_eq, nat_eq, ◌==◌, ==_iff, arith, map,
  Bool-cases, Option-cases, All, is_some,
}
use kalpakdb.Prelude.Map.{
  Map, get, insert, contains_key, Distinct-insert, get-insert, sum_values, sum_values-insert,
  measure,
}
use kalpakdb.Core.Key.{BlockId, id_of, verify}
use kalpakdb.Storage.Segment.{Location, wrap}
use kalpakdb.Storage.Segment.Steps.{if_true, if_false}
use kalpakdb.Storage.Store.{Error, corrupt, io, block_not_found, panicked, BlockStore}
use kalpakdb.Storage.Store.Writing.{Event, PutBlock, repair_block, first}
use kalpakdb.Storage.Store.Compaction.{Outcome}
use kalpakdb.Storage.Tiered.{
  invalidate_all, unpin_all, gone, pinned_ids, sweep, compacted, Moka, TieredStore, Reply,
  warm_insert, warm_all, get_tiered, pin_payload, pin, put_warm, put_many_warm, quarantine,
  verified_cold, repair_warm, unpin,
}
use kalpakdb.Storage.Tiered.Tier.{
  IsTier, warm_insert-IsTier, unpin-IsTier, ReadsFit, ReadTier, get_tiered-ReadTier,
}

module _ (moka : Moka) (hash : Bytes → Bytes) (device : Location → Bool) where
  abbrev Tier : TieredStore moka → Type 0
  Tier = IsTier moka hash

  pin_payload-IsTier :
      (id : BlockId) (pinned : Map BlockId Bytes) (r : Reply moka Bytes)
      → get id pinned ≡ none
      → ReadTier moka hash device id pinned r
      → Tier (pin_payload moka hash device id r).0
  pin_payload-IsTier id pinned (t, err e) new h = h.0.0
  pin_payload-IsTier id pinned (t, ok payload) new
        ((((pinned_true, warm_true), (distinct, (counted, (bounded, small)))), same), good) =
      let full = ltb t.pinned_budget (wrap (t.pinned_bytes + length payload)) in
      let free_slot : get id t.pinned ≡ none = ap (get id) same ∙ new in
      let known = good payload refl in
      elim (Bool-cases full) [
        | inl over ↦
            subst (λ (r : Reply moka Bool). Tier r.0) (sym (if_true full _ _ over))
              ((pinned_true, warm_true), (distinct, (counted, (bounded, small))))
        | inr under ↦
            (let total = sum_values-insert length id payload t.pinned in
              let nothing = ap (measure length) free_slot in
              let bytes : wrap (t.pinned_bytes + length payload)
                  ≡ sum_values length (insert id payload t.pinned) =
                omega (arith, total, nothing, counted, bounded, small, known.1) in
              subst (λ (r : Reply moka Bool). Tier r.0) (sym (if_false full _ _ under))
                (
                  (
                    λ j v h. elim (Bool-cases (id == j)) [
                      | inl here ↦
                          (let e = (==_iff id j).0 here in
                            let q : v ≡ payload =
                              ground (arith, get-insert id j payload t.pinned) in
                            ap hash q ∙ known.0 ∙ e)
                      | inr other ↦
                          pinned_true j v (ground (arith, get-insert id j payload t.pinned))
                    ],
                    warm_true,
                  ),
                  (Distinct-insert id payload t.pinned distinct, (bytes, (ground arith, small))),
                ))
      ]

  pub pin-IsTier :
      (id : BlockId) (t : TieredStore moka)
      → ReadsFit moka hash device t id
      → Tier t
      → Tier (pin moka hash device id t).0
  unfolding pin
  pin-IsTier id t fits tier = elim (Option-cases (get id t.pinned)) [
    | inl new ↦
        subst (λ (r : Reply moka Bool). Tier r.0)
          (sym (if_false (contains_key id t.pinned) _ _ (ap is_some new)))
          (pin_payload-IsTier id t.pinned (get_tiered moka hash device id t) new
            (get_tiered-ReadTier moka hash device id t fits tier))
    | inr (v, old) ↦
        subst (λ (r : Reply moka Bool). Tier r.0)
          (sym (if_true (contains_key id t.pinned) _ _ (ap is_some old))) tier
  ]

  pub first-id :
      (r : Result Error (List BlockId)) (id x : BlockId)
      → ((ids : List BlockId) → r ≡ ok ids → ids ≡ x ∷ [])
      → first r ≡ ok id
      → id ≡ x
  first-id (ok []) id x only h = absurd (ground arith)
  first-id (ok (i ∷ ids)) id x only h = let e = only (i ∷ ids) refl in cc
  first-id (err e) id x only h = absurd (ground arith)

  pub put_warm-IsTier :
      (payload : Bytes) (t : TieredStore moka) (r : Result Error BlockId)
      → ((id : BlockId) → r ≡ ok id → id ≡ hash payload)
      → length payload < 9223372036854775808
      → Tier t
      → Tier (put_warm moka hash device payload t r).0
  put_warm-IsTier payload t (ok id) same fits tier =
      warm_insert-IsTier moka hash id payload t (sym (same id refl)) fits tier
  put_warm-IsTier payload t (err e) same fits tier = tier

  warm_all-IsTier :
      (payloads : List Bytes) (t : TieredStore moka)
      → All (λ p. length p < 9223372036854775808) payloads
      → Tier t
      → Tier (warm_all moka (map hash payloads) payloads t)
  unfolding warm_all
  warm_all-IsTier [] t fits tier = tier
  warm_all-IsTier (payload ∷ payloads) t (fit, fits) tier =
      warm_all-IsTier payloads (warm_insert moka (hash payload) payload t) fits
        (warm_insert-IsTier moka hash (hash payload) payload t refl fit tier)

  pub put_many_warm-IsTier :
      (payloads : List Bytes) (t : TieredStore moka) (r : Result Error (List BlockId))
      → ((ids : List BlockId) → r ≡ ok ids → ids ≡ map hash payloads)
      → All (λ p. length p < 9223372036854775808) payloads
      → Tier t
      → Tier (put_many_warm moka hash device payloads t r).0
  put_many_warm-IsTier payloads t (ok ids) same fits tier =
      subst (λ l. Tier (warm_all moka l payloads t)) (sym (same ids refl))
        (warm_all-IsTier payloads t fits tier)
  put_many_warm-IsTier payloads t (err e) same fits tier = tier

  quarantine-IsTier :
      (id : BlockId) (t : TieredStore moka) → Tier t → Tier (quarantine moka hash device id t)
  quarantine-IsTier id t tier =
      unpin-IsTier moka hash id
        (record t {
          quarantined = if contains id t.quarantined then t.quarantined else id ∷ t.quarantined;
          warm = moka.invalidate id t.warm;
        })
        ((tier.0.0, λ j v h. tier.0.1 j v (moka.entry-invalidate j id t.warm v h).1), tier.1)

  pub verified_cold-IsTier :
      (id : BlockId) (t : TieredStore moka) (r : Result Error Bytes)
      → Tier t
      → Tier (verified_cold moka hash device id t r).0
  verified_cold-IsTier id t (ok payload) tier = tier
  verified_cold-IsTier id t (err (block_not_found j)) tier = tier
  verified_cold-IsTier id t (err (corrupt j)) tier = quarantine-IsTier id t tier
  verified_cold-IsTier id t (err io) tier = quarantine-IsTier id t tier
  verified_cold-IsTier id t (err panicked) tier = quarantine-IsTier id t tier

  pub repair_warm-IsTier :
      (id : BlockId) (payload : Bytes) (t : TieredStore moka) (r : Result Error BlockId)
      → ((done : BlockId) → r ≡ ok done → hash payload ≡ id)
      → length payload < 9223372036854775808
      → Tier t
      → Tier (repair_warm moka hash device id payload t r).0
  repair_warm-IsTier id payload t (ok done) same fits tier =
      warm_insert-IsTier moka hash id payload (record t { quarantined = _ }) (same done refl) fits
        tier
  repair_warm-IsTier id payload t (err e) same fits tier = tier

  pub repair_block-verified :
      (store : BlockStore) (id : BlockId) (payload : Bytes) (events : List Event) (done : BlockId)
      → (repair_block hash device store id payload events).reply ≡ ok done
      → hash payload ≡ id
  unfolding repair_block verify id_of
  repair_block-verified store id payload events done h =
      elim (Bool-cases (verify hash id payload)) [
        | inl same ↦ (==_iff (hash payload) id).0 same
        | inr other ↦ absurd (
            let refused : (repair_block hash device store id payload events).reply
                ≡ err (corrupt id) =
              ap (λ (p : PutBlock). p.reply) (if_false (verify hash id payload) _ _ other) in
            ground arith)
      ]

  invalidate_all-IsTier :
      (ids : List BlockId) (t : TieredStore moka)
      → Tier t
      → Tier (invalidate_all moka hash device ids t)
  invalidate_all-IsTier [] t tier = tier
  invalidate_all-IsTier (id ∷ ids) t tier =
      invalidate_all-IsTier ids (record t { warm = moka.invalidate id t.warm })
        ((tier.0.0, λ j v h. tier.0.1 j v (moka.entry-invalidate j id t.warm v h).1), tier.1)

  unpin_all-IsTier :
      (ids : List BlockId) (t : TieredStore moka) → Tier t → Tier (unpin_all moka hash device ids t)
  unpin_all-IsTier [] t tier = tier
  unpin_all-IsTier (id ∷ ids) t tier =
      unpin_all-IsTier ids (unpin moka id t) (unpin-IsTier moka hash id t tier)

  pub compacted-IsTier :
      (t : TieredStore moka) (r : Outcome) → Tier t → Tier (compacted moka hash device t r).0
  compacted-IsTier t (err failed) tier = tier
  compacted-IsTier t (ok c) tier =
      elim (ltb 0 c.stats.blocks_dropped)
        as (λ b. Tier (
          if b
          then sweep moka hash device (record t { cold = c.store })
          else record t { cold = c.store })) [
            | true ↦
                (let u =
                    unpin_all moka hash device
                      (gone moka hash device c.store (pinned_ids moka hash device t.pinned))
                      (record t { cold = c.store }) in
                  invalidate_all-IsTier (gone moka hash device u.cold (moka.cached u.warm)) u (
                    unpin_all-IsTier
                      (gone moka hash device c.store (pinned_ids moka hash device t.pinned))
                      (record t { cold = c.store }) tier))
            | false ↦ tier
          ]
