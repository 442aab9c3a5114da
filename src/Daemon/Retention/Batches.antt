-- ===== src/Daemon/Retention/Batches.antt =====
-- Batches of ids and the journal that has one batch more (crates/kalpakdb/src/retention.rs).
use mathlib.Core.List.{append_assoc, append-nil}
use kalpakdb.Prelude.{
  ℕ, zero, suc, ◌+◌, ◌≤◌, ◌≡◌, refl, sym, ap, ◌∙◌, true, false, List, [], ◌∷◌, ◌++◌, Bytes,
  if◌then◌else◌, length, is_empty, take, contains, All, list_eq, nat_eq, arith,
}
use kalpakdb.Prelude.Map.{Map, insert, get-insert, length-insert}
use kalpakdb.Core.Key.{BlockId}
use kalpakdb.Core.Signing.Injective.{IsId}
use kalpakdb.Daemon.Retention.{guard_all, distinct_ids, count_fresh, encode_entry}
use kalpakdb.Daemon.Retention.Journal.{IsBatch}
use kalpakdb.Daemon.Retention.Reopen.{journal, guards_of}

pub distinct_ids-shorter : (ids : List BlockId) → length (distinct_ids ids) ≤ length ids
distinct_ids-shorter [] = omega arith
distinct_ids-shorter (id ∷ ids) = ground (arith, distinct_ids-shorter ids)

pub distinct_ids-All : (ids : List BlockId) → All IsId ids → All IsId (distinct_ids ids)
distinct_ids-All [] h = tt
distinct_ids-All (id ∷ ids) (h, hs) =
    elim (contains id (distinct_ids ids))
      as (λ b. All IsId (if b then distinct_ids ids else id ∷ distinct_ids ids)) [
        | true ↦ distinct_ids-All ids hs
        | false ↦ (h, distinct_ids-All ids hs)
      ]

pub count_fresh-insert :
    (ids : List BlockId) (id : BlockId) (n : ℕ) (m : Map BlockId ℕ)
    → count_fresh ids (insert id n m) ≤ count_fresh ids m
count_fresh-insert [] id n m = omega arith
count_fresh-insert (j ∷ ids) id n m =
    ground (arith, count_fresh-insert ids id n m, get-insert id j n m)

-- The count before the write bounds the map after it.
pub length-guard_all :
    (ids : List BlockId) (n : ℕ) (m : Map BlockId ℕ)
    → length (guard_all ids n m) ≤ length m + count_fresh ids m
length-guard_all [] n m = omega arith
length-guard_all (id ∷ ids) n m = ground (
  arith,
  length-guard_all ids n (insert id n m),
  length-insert id n m,
  count_fresh-insert ids id n m,
)

pub journal-snoc :
    (hash : Bytes → Bytes) (bs : List (List BlockId)) (n : ℕ) (b : List BlockId)
    → journal hash n (bs ++ b ∷ []) ≡ journal hash n bs ++ encode_entry hash b (n + length bs + 1)
unfolding journal
journal-snoc hash [] n b =
    append-nil (encode_entry hash b (n + 1)) ∙ ap (λ k. encode_entry hash b k) (omega arith)
journal-snoc hash (c ∷ bs) n b =
    ap (λ t. encode_entry hash c (n + 1) ++ t)
      (journal-snoc hash bs (n + 1) b
        ∙ ap (λ k. journal hash (n + 1) bs ++ encode_entry hash b k) (omega arith))
    ∙ sym (
        append_assoc (encode_entry hash c (n + 1)) (journal hash (n + 1) bs)
          (encode_entry hash b (n + length (c ∷ bs) + 1)))

pub guards_of-snoc :
    (bs : List (List BlockId)) (n : ℕ) (b : List BlockId) (m : Map BlockId ℕ)
    → guards_of n (bs ++ b ∷ []) m ≡ guard_all b (n + length bs + 1) (guards_of n bs m)
guards_of-snoc [] n b m = ap (λ k. guard_all b k m) (omega arith)
guards_of-snoc (c ∷ bs) n b m =
    guards_of-snoc bs (n + 1) b (guard_all c (n + 1) m)
    ∙ ap (λ k. guard_all b k (guards_of (n + 1) bs (guard_all c (n + 1) m))) (omega arith)

pub All-snoc :
    (bs : List (List BlockId)) (b : List BlockId)
    → All IsBatch bs
    → IsBatch b
    → All IsBatch (bs ++ b ∷ [])
All-snoc [] b h k = (k, tt)
All-snoc (c ∷ bs) b (h, hs) k = (h, All-snoc bs b hs k)

pub take_long : (n : ℕ) (b : Bytes) → length b ≤ n → take n b ≡ b
take_long zero [] h = refl
take_long zero (x ∷ b) h = absurd (omega arith)
take_long (suc n) [] h = refl
take_long (suc n) (x ∷ b) h = ap (λ l. x ∷ l) (take_long n b (omega arith))

pub batch_some : (b : List BlockId) → 1 ≤ length b → is_empty b ≡ false
batch_some [] h = absurd (omega arith)
batch_some (id ∷ b) h = refl

pub some_batch : (b : List BlockId) → is_empty b ≡ false → 1 ≤ length b
some_batch [] h = absurd (ground arith)
some_batch (id ∷ b) h = omega arith
