-- ===== src/Daemon/Retention/Journal.antt =====
-- One record of the journal of upload guards, read back (crates/kalpakdb/src/retention.rs).
use mathlib.Core.List.{append_assoc, append-nil}
use kalpakdb.Prelude.{
  ℕ, ◌+◌, ◌*◌, ◌<◌, ◌≤◌, ◌≡◌, refl, sym, ap, ◌∙◌, false, not, Option, some, List, [], ◌∷◌, ◌++◌,
  Bytes, ltb, if◌then◌else◌, length, take, drop, All, length-append, Result, ok, err, list_eq,
  nat_eq, option_eq, ◌==◌, ==_refl, arith,
}
use kalpakdb.Core.Key.{BlockId, to_le_bytes}
use kalpakdb.Core.Signing.Injective.{IsId}
use kalpakdb.Storage.Segment.{from_le_bytes}
use kalpakdb.Storage.Segment.Record.{from_le_bytes-to_le_bytes, take_front, drop_front}
use kalpakdb.Storage.Segment.Steps.{if_false, le_ltb}
use kalpakdb.Daemon.Retention.{
  Error, invalid, Entry, header_size, chunks, joined_ids, header_start, body_of, encode_entry,
  header_bad, numbers_bad, read_body, read_guard,
}

-- The ids of a batch that `protect` accepts.
abbrev pub IsBatch : List BlockId → Type 0
IsBatch ids = ((1 ≤ length ids) × (length ids ≤ 4096)) × All IsId ids

pub length-joined_ids :
    (ids : List BlockId) → All IsId ids → length (joined_ids ids) ≡ length ids * 32
length-joined_ids [] h = refl
length-joined_ids (id ∷ ids) (h, hs) =
    omega (arith, length-append id (joined_ids ids), length-joined_ids ids hs, h)

chunks-joined_ids : (ids : List BlockId) → All IsId ids → chunks (length ids) (joined_ids ids) ≡ ids
chunks-joined_ids [] h = refl
chunks-joined_ids (id ∷ ids) (h, hs) =
    ap (λ i. i ∷ chunks (length ids) (drop 32 (id ++ joined_ids ids)))
      (take_front 32 id (joined_ids ids) h)
    ∙ ap (λ b. id ∷ chunks (length ids) b) (drop_front 32 id (joined_ids ids) h)
    ∙ ap (λ l. id ∷ l) (chunks-joined_ids ids hs)

take_all : (b : Bytes) → IsId b → take 32 b ≡ b
take_all b h = ap (take 32) (sym (append-nil b)) ∙ take_front 32 b [] h

module _ (hash : Bytes → Bytes) (hash_is_id : (b : Bytes) → IsId (hash b)) where
  -- The header of a record, and what follows.
  abbrev pub with_header : ℕ → ℕ → Bytes → Bytes
  with_header count next rest =
      header_start hash count next ++ (hash (header_start hash count next) ++ rest)

  header_fine :
      (count next : ℕ) (rest : Bytes)
      → header_bad hash (take header_size (with_header count next rest)) ≡ false
  unfolding to_le_bytes
  header_fine count next rest =
      let start = header_start hash count next in
      ap (λ t. not (hash start == take 32 t)) (take_front 32 (hash start) rest (hash_is_id start))
      ∙ ap (λ t. not (hash start == t)) (take_all (hash start) (hash_is_id start))
      ∙ ap not (==_refl (hash start))

  drop_header :
      (count next : ℕ) (rest : Bytes) → drop header_size (with_header count next rest) ≡ rest
  unfolding to_le_bytes
  drop_header count next rest =
      drop_front 32 (hash (header_start hash count next)) rest
        (hash_is_id (header_start hash count next))

  pub length-with_header :
      (count next : ℕ) (rest : Bytes) → length (with_header count next rest) ≡ 56 + length rest
  unfolding to_le_bytes
  length-with_header count next rest =
      let start = header_start hash count next in
      omega (arith, length-append (hash start) rest, hash_is_id start)

  numbers_fine :
      (count sequence : ℕ)
      → 1 ≤ count
      → count ≤ 4096
      → sequence < 18446744073709551615
      → numbers_bad hash count sequence (sequence + 1) ≡ false
  numbers_fine count sequence some_ids few small = ground (arith, ==_refl (some (sequence + 1)))

  abbrev after_header : ℕ → Bytes → ℕ → ℕ → Result Error (Option Entry)
  after_header sequence body count next =
      if numbers_bad hash count sequence next then err invalid else read_body hash count next body

  abbrev entry_of : ℕ → ℕ → List BlockId → Result Error (Option Entry)
  entry_of count next ids =
      ok (some (record { entry_ids = ids; next = next; size = header_size + (count * 32 + 32) }))

  pub read_guard-with_header :
      (count sequence : ℕ) (rest : Bytes)
      → 1 ≤ count
      → count ≤ 4096
      → sequence < 18446744073709551615
      → read_guard hash sequence (with_header count (sequence + 1) rest)
        ≡ read_body hash count (sequence + 1) rest
  unfolding read_guard to_le_bytes
  read_guard-with_header count sequence rest some_ids few small =
      let next = sequence + 1 in
      let file = with_header count next rest in
      if_false (ltb (length file) header_size) _ _
        (le_ltb _ _ (omega (arith, length-with_header count next rest)))
      ∙ if_false (header_bad hash (take header_size file)) _ _ (header_fine count next rest)
      ∙ ap
          (λ c.
            after_header sequence (drop header_size file) c (from_le_bytes (to_le_bytes 8 next)))
          (from_le_bytes-to_le_bytes 4 count (omega (arith, few)))
      ∙ ap (after_header sequence (drop header_size file) count)
          (from_le_bytes-to_le_bytes 8 next (omega (arith, small)))
      ∙ ap (λ b. after_header sequence b count next) (drop_header count next rest)
      ∙ if_false (numbers_bad hash count sequence next) _ _
          (numbers_fine count sequence some_ids few small)

  -- The body that `protect` writes reads back, whatever follows.
  pub read_body-body_of :
      (ids : List BlockId) (next : ℕ) (rest : Bytes)
      → All IsId ids
      → read_body hash (length ids) next (body_of hash ids ++ rest)
        ≡ ok (
            some (record {
              entry_ids = ids;
              next = next;
              size = header_size + (length ids * 32 + 32);
            }))
  read_body-body_of ids next rest good =
      let n = length ids * 32 in
      let joined = joined_ids ids in
      let size = length-joined_ids ids good in
      let seal = hash joined in
      let whole = body_of hash ids ++ rest in
      let parts = append_assoc joined seal rest in
      let front : take n whole ≡ joined =
        ap (take n) parts ∙ take_front n joined (seal ++ rest) size in
      let back : take 32 (drop n whole) ≡ seal =
        ap (λ b. take 32 (drop n b)) parts
        ∙ ap (take 32) (drop_front n joined (seal ++ rest) size)
        ∙ take_front 32 seal rest (hash_is_id joined) in
      let long : ltb (length whole) (n + 32) ≡ false = le_ltb _ _ (
        omega (
          arith,
          length-append (body_of hash ids) rest,
          length-append joined seal,
          size,
          hash_is_id joined,
        )) in
      let sealed : not (hash (take n whole) == take 32 (drop n whole)) ≡ false =
        ap (λ b. not (hash b == take 32 (drop n whole))) front
        ∙ ap (λ b. not (seal == b)) back
        ∙ ap not (==_refl seal) in
      if_false (ltb (length whole) (n + 32)) _ _ long
      ∙ if_false (not (hash (take n whole) == take 32 (drop n whole))) _ _ sealed
      ∙ ap (entry_of (length ids) next)
          (ap (chunks (length ids)) front ∙ chunks-joined_ids ids good)

  pub read_guard-encode_entry :
      (ids : List BlockId) (sequence : ℕ) (rest : Bytes)
      → IsBatch ids
      → sequence < 18446744073709551615
      → read_guard hash sequence (encode_entry hash ids (sequence + 1) ++ rest)
        ≡ ok (
            some (record {
              entry_ids = ids;
              next = sequence + 1;
              size = header_size + (length ids * 32 + 32);
            }))
  unfolding encode_entry to_le_bytes
  read_guard-encode_entry ids sequence rest ((some_ids, few), good) small =
      let start = header_start hash (length ids) (sequence + 1) in
      ap (λ b. read_guard hash sequence (start ++ b))
        (append_assoc (hash start) (body_of hash ids) rest)
      ∙ read_guard-with_header (length ids) sequence (body_of hash ids ++ rest) some_ids few small
      ∙ read_body-body_of ids (sequence + 1) rest good
