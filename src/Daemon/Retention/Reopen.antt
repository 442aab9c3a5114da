-- ===== src/Daemon/Retention/Reopen.antt =====
-- Opening the journal of upload guards again (`open` of crates/kalpakdb/src/retention.rs).
use mathlib.Core.List.{append_assoc}
use kalpakdb.Prelude.{
  ℕ, zero, suc, ◌+◌, ◌-◌, ◌*◌, ◌<◌, ◌≤◌, ◌≡◌, inl, inr, sym, ap, ◌∙◌, false, Option, none, some,
  List, [], ◌∷◌, ◌++◌, Bytes, ltb, if◌then◌else◌, length, take, drop, take_append, All,
  length-append, Result, ok, err, list_eq, nat_eq, arith,
}
use kalpakdb.Prelude.Map.{Map, insert, length-insert}
use kalpakdb.Core.Key.{BlockId, to_le_bytes}
use kalpakdb.Core.Signing.Injective.{IsId}
use kalpakdb.Storage.Segment.Record.{drop_front}
use kalpakdb.Storage.Segment.Scan.{length-take_le}
use kalpakdb.Storage.Segment.Steps.{if_true, if_false, le_ltb, lt_ltb, le_or_lt}
use kalpakdb.Daemon.Retention.{
  Error, capacity, State, Entry, header_size, max_bytes, max_ids, joined_ids, guard_all,
  header_start, body_of, encode_entry, read_guard, Replayed, replay_journal, opened_state,
  open_journal,
}
use kalpakdb.Daemon.Retention.Journal.{
  IsBatch, length-joined_ids, length-with_header, read_guard-with_header, read_guard-encode_entry,
}

take_split : (x y : Bytes) (k : ℕ) → length x ≤ k → take k (x ++ y) ≡ x ++ take (k - length x) y
take_split [] y k h = ap (λ n. take n y) (omega arith)
take_split (c ∷ x) y zero h = absurd (omega arith)
take_split (c ∷ x) y (suc k) h =
    ap (λ l. c ∷ l) (take_split x y k (omega arith)) ∙ ap (λ n. c ∷ x ++ take n y) (omega arith)

guard_all-longer :
    (ids : List BlockId) (n : ℕ) (m : Map BlockId ℕ) → length m ≤ length (guard_all ids n m)
guard_all-longer [] n m = omega arith
guard_all-longer (id ∷ ids) n m =
    ground (arith, guard_all-longer ids n (insert id n m), length-insert id n m)

-- The journal of batches, the first with the number after `n`, and the guards that it says.
unfoldable pub journal : (Bytes → Bytes) → ℕ → List (List BlockId) → Bytes
journal hash n [] = []
journal hash n (b ∷ bs) = encode_entry hash b (n + 1) ++ journal hash (n + 1) bs

abbrev pub guards_of : ℕ → List (List BlockId) → Map BlockId ℕ → Map BlockId ℕ
guards_of n [] m = m
guards_of n (b ∷ bs) m = guards_of (n + 1) bs (guard_all b (n + 1) m)

guards_of-longer :
    (n : ℕ) (bs : List (List BlockId)) (m : Map BlockId ℕ) → length m ≤ length (guards_of n bs m)
guards_of-longer n [] m = omega arith
guards_of-longer n (b ∷ bs) m =
    omega (arith, guards_of-longer (n + 1) bs (guard_all b (n + 1) m), guard_all-longer b (n + 1) m)

module _ (hash : Bytes → Bytes) (hash_is_id : (b : Bytes) → IsId (hash b)) where
  pub length-encode_entry :
      (ids : List BlockId) (next : ℕ)
      → All IsId ids
      → length (encode_entry hash ids next) ≡ 56 + (length ids * 32 + 32)
  unfolding encode_entry
  length-encode_entry ids next good = omega (
    arith,
    length-with_header hash hash_is_id (length ids) next (body_of hash ids),
    length-append (joined_ids ids) (hash (joined_ids ids)),
    length-joined_ids ids good,
    hash_is_id (joined_ids ids),
  )

  length-head :
      (count next : ℕ)
      → length (header_start hash count next ++ hash (header_start hash count next)) ≡ 56
  unfolding to_le_bytes
  length-head count next = omega (arith, hash_is_id (header_start hash count next))

  body_size : (ids : List BlockId) → All IsId ids → length (body_of hash ids) ≡ length ids * 32 + 32
  body_size ids good = omega (
    arith,
    length-append (joined_ids ids) (hash (joined_ids ids)),
    length-joined_ids ids good,
    hash_is_id (joined_ids ids),
  )

  pub read_guard-short :
      (sequence : ℕ) (rest : Bytes) → length rest < 56 → read_guard hash sequence rest ≡ ok none
  unfolding read_guard
  read_guard-short sequence rest short = if_true (ltb (length rest) header_size) _ _ (ground arith)

  -- A record that is cut off anywhere is none.
  pub read_guard-torn :
      (ids : List BlockId) (sequence k : ℕ)
      → IsBatch ids
      → sequence < 18446744073709551615
      → k < length (encode_entry hash ids (sequence + 1))
      → read_guard hash sequence (take k (encode_entry hash ids (sequence + 1))) ≡ ok none
  unfolding encode_entry
  read_guard-torn ids sequence k ((some_ids, few), good) small torn = elim (le_or_lt 56 k) [
    | inr short ↦
        read_guard-short sequence (take k (encode_entry hash ids (sequence + 1)))
          (omega (arith, short, length-take_le k (encode_entry hash ids (sequence + 1))))
    | inl long ↦
        (let next = sequence + 1 in
          let start = header_start hash (length ids) next in
          let head = start ++ hash start in
          let body = body_of hash ids in
          let more = take (k - length head) body in
          let head_is : length head ≡ 56 = length-head (length ids) next in
          let size = length-encode_entry ids next good in
          ap (read_guard hash sequence) (
            ap (take k) (sym (append_assoc start (hash start) body))
            ∙ take_split head body k (omega (arith, head_is, long))
            ∙ append_assoc start (hash start) more)
          ∙ read_guard-with_header hash hash_is_id (length ids) sequence more some_ids few small
          ∙ if_true (ltb (length more) (length ids * 32 + 32)) _ _ (
              lt_ltb _ _ (
                omega (
                  arith,
                  length-take_le (k - length head) body,
                  size,
                  torn,
                  long,
                  head_is,
                  body_size ids good,
                ))))
  ]

  abbrev after_entry : ℕ → Bytes → Replayed → Result Error (Option Entry) → Result Error Replayed
  after_entry fuel rest r found = elim found [
    | err e ↦ err e
    | ok none ↦ ok r
    | ok (some entry) ↦
        if ltb max_ids (length (guard_all entry.entry_ids entry.next r.found))
        then err capacity
        else replay_journal hash fuel (drop entry.size rest) (record {
          found = guard_all entry.entry_ids entry.next r.found;
          last = entry.next;
          valid = r.valid + entry.size;
        })
  ]

  abbrev done : Map BlockId ℕ → ℕ → ℕ → Result Error Replayed
  done m n v = ok (record { found = m; last = n; valid = v })

  replay_journal-journal :
      (bs : List (List BlockId)) (n v fuel : ℕ) (m : Map BlockId ℕ) (tail : Bytes)
      → All IsBatch bs
      → n + length bs < 18446744073709551615
      → length (guards_of n bs m) ≤ 1048576
      → read_guard hash (n + length bs) tail ≡ ok none
      → length bs < fuel
      → replay_journal hash fuel
          (journal hash n bs ++ tail)
          (record { found = m; last = n; valid = v })
        ≡ done (guards_of n bs m) (n + length bs) (v + length (journal hash n bs))
  unfolding replay_journal journal
  replay_journal-journal bs n v zero m tail good small few ends enough = absurd (omega arith)
  replay_journal-journal [] n v (suc fuel) m tail good small few ends enough =
      ap (after_entry fuel tail (record { found = m; last = n; valid = v }))
        (ap (λ k. read_guard hash k tail) (omega arith) ∙ ends)
      ∙ ap (λ k. done m k v) (omega arith)
      ∙ ap (λ k. done m (n + 0) k) (omega arith)
  replay_journal-journal (b ∷ bs) n v (suc fuel) m tail (fit, good) small few ends enough =
      let next = n + 1 in
      let later = journal hash next bs in
      let size = header_size + (length b * 32 + 32) in
      let entry : Entry = record { entry_ids = b; next = next; size = size } in
      let start : Replayed = record { found = m; last = n; valid = v } in
      let rest = encode_entry hash b next ++ (later ++ tail) in
      let m' = guard_all b next m in
      let sized = length-encode_entry b next fit.1 in
      let over = ltb max_ids (length m') in
      ap (λ f. replay_journal hash (suc fuel) f start)
        (append_assoc (encode_entry hash b next) later tail)
      ∙ ap (after_entry fuel rest start)
          (read_guard-encode_entry hash hash_is_id b n (later ++ tail) fit (omega (arith, small)))
      ∙ if_false over _ _ (le_ltb _ _ (omega (arith, few, guards_of-longer next bs m')))
      ∙ ap (λ f. replay_journal hash fuel f (record { found = m'; last = next; valid = v + size }))
          (drop_front size (encode_entry hash b next) (later ++ tail) sized)
      ∙ replay_journal-journal bs next (v + size) fuel m' tail good (omega (arith, small)) few
          (ap (λ k. read_guard hash k tail) (omega arith) ∙ ends) (omega (arith, enough))
      ∙ ap (λ k. done (guards_of next bs m') k (v + size + length later)) (omega arith)
      ∙ ap (done (guards_of next bs m') (n + length (b ∷ bs)))
          (omega (arith, sized, length-append (encode_entry hash b next) later))

  batches_le :
      (bs : List (List BlockId)) (n : ℕ) → All IsBatch bs → length bs ≤ length (journal hash n bs)
  unfolding journal
  batches_le [] n good = omega arith
  batches_le (b ∷ bs) n (fit, good) = omega (
    arith,
    batches_le bs (n + 1) good,
    length-encode_entry b (n + 1) fit.1,
    length-append (encode_entry hash b (n + 1)) (journal hash (n + 1) bs),
  )

  -- The state that an opening leaves.
  abbrev pub reopened : List (List BlockId) → State
  reopened bs = record {
    file = journal hash 0 bs;
    ids = guards_of 0 bs [];
    sequence = length bs;
    bytes = length (journal hash 0 bs);
    failed = false;
    active = [];
    release_checks = [];
  }

  pub open_journal-tail :
      (bs : List (List BlockId)) (tail : Bytes)
      → All IsBatch bs
      → length (guards_of 0 bs []) ≤ 1048576
      → length (journal hash 0 bs ++ tail) ≤ 134217728
      → read_guard hash (length bs) tail ≡ ok none
      → open_journal hash (journal hash 0 bs ++ tail) ≡ ok (reopened bs)
  unfolding open_journal
  open_journal-tail bs tail good few fits ends =
      let whole = journal hash 0 bs in
      let file = whole ++ tail in
      let counted = batches_le bs 0 good in
      let size = length-append whole tail in
      if_false (ltb max_bytes (length file)) _ _ (le_ltb _ _ fits)
      ∙ ap (opened_state hash file) (
          replay_journal-journal bs 0 0 (suc (length file)) [] tail good
            (omega (arith, counted, size, fits)) few
            (ap (λ k. read_guard hash k tail) (omega arith) ∙ ends) (omega (arith, counted, size)))
      ∙ ap (λ k. opened_state hash file (done (guards_of 0 bs []) (0 + length bs) k)) (omega arith)
      ∙ ap (λ k. opened_state hash file (done (guards_of 0 bs []) k (length whole))) (omega arith)
      ∙ ap {B = Result Error State} (λ (f : Bytes). ok (record (reopened bs) { file = f }))
          (take_append whole tail)
