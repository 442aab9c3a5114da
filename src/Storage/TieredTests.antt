-- ===== src/Storage/TieredTests.antt =====
-- A concrete tiered store for crates/kalpak-storage/src/tiered.rs, whose cache evicts nothing; the
-- hash of bytes is the bytes.
use kalpakdb.Prelude.{
  ◌≡◌, ◌≢◌, ◌⊎◌, inl, inr, refl, Bool, true, false, some, [], ◌∷◌, ◌++◌, Bytes, replicate, err,
  list_eq, nat_eq, ==_iff, arith, if◌then◌else◌, contains, ◌==◌, Bool-cases, List,
}
use kalpakdb.Prelude.Map.{Map, sum_values, get, insert, remove, get-insert, get-remove}
use kalpakdb.Core.Key.{BlockId, verify}
use kalpakdb.Storage.Segment.{Location}
use kalpakdb.Storage.Store.{BlockStore, corrupt, io, get_block}
use kalpakdb.Storage.Tiered.{Moka, TieredStore, new, get_tiered, verify_cold}
use kalpakdb.Storage.Tiered.Tier.{IsTier}
use kalpakdb.Storage.Tiered.Calls.{puts_many, call_tier, call_tier-IsTier}
use kalpakdb.Storage.Tiered.Reads.{get_tiered-cold, get_tiered-verify_cold}

get-insert_cases :
    (j k : BlockId) (w : Bytes) (c : Map BlockId Bytes) (v : Bytes)
    → get j (insert k w c) ≡ some v
    → ((j ≡ k) × (v ≡ w)) ⊎ (get j c ≡ some v)
get-insert_cases j k w c v e = elim (Bool-cases (k == j)) [
  | inl found ↦ inl (ground (arith, get-insert k j w c, ==_iff k j))
  | inr other ↦ inr (ground (arith, get-insert k j w c))
]

get-remove_cases :
    (j k : BlockId) (c : Map BlockId Bytes) (v : Bytes)
    → get j (remove k c) ≡ some v
    → (j ≢ k) × (get j c ≡ some v)
get-remove_cases j k c v e = elim (Bool-cases (k == j)) [
  | inl found ↦ absurd (ground (arith, get-remove k j c))
  | inr other ↦ (λ q. ground (arith, ==_iff k j), ground (arith, get-remove k j c))
]

abbrev keys_of : Map BlockId Bytes → List BlockId
keys_of [] = []
keys_of ((id, v) ∷ m) = id ∷ keys_of m

abbrev table : Moka
table = record {
  Cache = Map BlockId Bytes;
  entry = get;
  touch = λ id c. c;
  put_entry = insert;
  invalidate = remove;
  cached = keys_of;
  entry-touch = λ j k c v e. e;
  entry-put_entry = get-insert_cases;
  entry-invalidate = get-remove_cases;
}

abbrev same : Bytes → Bytes
same bytes = bytes

abbrev healthy : Location → Bool
healthy loc = true

abbrev broken : Location → Bool
broken loc = false

abbrev one_cold : BlockStore
one_cold = record {
  index = (8 ∷ 9 ∷ [], record { segment = 0; offset = 0; payload_len = 2 }) ∷ [];
  files = (replicate 64 0 ++ (8 ∷ 9 ∷ [])) ∷ [];
  append = 66;
  roll_bytes = 268435456;
  write_failed = false;
}

abbrev fresh : TieredStore table
fresh = new table one_cold [] 1024

fresh-IsTier : IsTier table same fresh
unfolding new get sum_values
fresh-IsTier = (
  (λ id v e. absurd (ground arith), λ id v e. absurd (ground arith)),
  (tt, (refl, (omega arith, omega arith))),
)

call_tier-IsTier_example :
    IsTier table same (call_tier table same healthy (puts_many ((5 ∷ []) ∷ (6 ∷ []) ∷ []) []) fresh)
call_tier-IsTier_example =
    call_tier-IsTier table same healthy (puts_many ((5 ∷ []) ∷ (6 ∷ []) ∷ []) []) fresh
      (omega arith, (omega arith, tt)) fresh-IsTier

get_tiered-cold_example : (get_tiered table same healthy (8 ∷ 9 ∷ []) fresh).1 ≡ (
    if contains (8 ∷ 9 ∷ []) fresh.quarantined
    then err (corrupt (8 ∷ 9 ∷ []))
    else get_block same healthy fresh.cold (8 ∷ 9 ∷ []))
unfolding new get get_block verify
get_tiered-cold_example =
    get_tiered-cold table same healthy (8 ∷ 9 ∷ []) fresh (8 ∷ 9 ∷ []) fresh-IsTier (λ other e. e)
      refl

get_tiered-verify_cold_example :
    (get_tiered table same broken
      (8 ∷ 9 ∷ [])
      (verify_cold table same broken (8 ∷ 9 ∷ []) fresh).0).1
    ≡ err (corrupt (8 ∷ 9 ∷ []))
unfolding new get get_block
get_tiered-verify_cold_example =
    get_tiered-verify_cold table same broken (8 ∷ 9 ∷ []) fresh io refl (λ j e. ground arith)
