-- ===== src/Daemon/Retention/Protecting.antt =====
-- What a call of `protect` leaves in the journal, for the next opening
-- (crates/kalpakdb/src/retention.rs).
use mathlib.Core.List.{append-nil}
use kalpakdb.Prelude.{
  ℕ, ◌+◌, ◌*◌, ◌<◌, ◌≤◌, ◌≡◌, ◌⊎◌, inl, inr, refl, sym, ap, ◌∙◌, subst, Bool, true, false, some,
  List, [], ◌∷◌, ◌++◌, Bytes, ltb, if◌then◌else◌, length, is_empty, take, any, contains, All,
  length-append, checked_add, ok, err, list_eq, nat_eq, arith,
}
use kalpakdb.Prelude.Map.{Map}
use kalpakdb.Core.Key.{BlockId}
use kalpakdb.Core.Signing.Injective.{IsId}
use kalpakdb.Storage.Store.Writing.{Event, works, fails}
use kalpakdb.Storage.Segment.Scan.{length-take_le}
use kalpakdb.Storage.Segment.Steps.{if_true, if_false, le_or_lt}
use kalpakdb.Daemon.Retention.{
  capacity, needs_restart, would_block, State, max_batch, guard_all, distinct_ids, count_fresh,
  encode_entry, open_journal, Protected, commit_entry, write_guard, journal_full, protect_next,
  protect,
}
use kalpakdb.Daemon.Retention.Journal.{IsBatch}
use kalpakdb.Daemon.Retention.Reopen.{
  journal, guards_of, length-encode_entry, read_guard-short, read_guard-torn, reopened,
  open_journal-tail,
}
use kalpakdb.Daemon.Retention.Batches.{
  distinct_ids-shorter, distinct_ids-All, length-guard_all, journal-snoc, guards_of-snoc, All-snoc,
  take_long, batch_some, some_batch,
}

module _ (hash : Bytes → Bytes) (hash_is_id : (b : Bytes) → IsId (hash b)) where
  -- An empty batch is not written.
  abbrev pub batches_after : List (List BlockId) → List BlockId → List (List BlockId)
  batches_after bs b = if is_empty b then bs else bs ++ b ∷ []

  -- The state says what the journal says.
  abbrev pub InStep : State → List (List BlockId) → Type 0
  InStep s bs =
      ((s.file ≡ journal hash 0 bs) × (s.ids ≡ guards_of 0 bs []))
      × ((s.sequence ≡ length bs) × (s.bytes ≡ length (journal hash 0 bs)))

  abbrev pub Bounded : State → List (List BlockId) → Type 0
  Bounded s bs =
      ((length s.ids ≤ 1048576) × (s.bytes ≤ 134217728))
      × ((length bs < 18446744073709551614) × All IsBatch bs)

  -- The next opening finds the batches.
  abbrev pub Finds : State → List (List BlockId) → Type 0
  Finds t bs = open_journal hash t.file ≡ ok (reopened hash hash_is_id bs)

  -- After an answer with a guard the batch is in the journal; after an error the journal has it or
  -- not.
  abbrev pub Survives : List (List BlockId) → List BlockId → Protected hash → Type 0
  Survives bs b (t, ok guard) =
      (guard ≡ b) × (InStep t (batches_after bs b) × Finds t (batches_after bs b))
  Survives bs b (t, err e) = Finds t bs ⊎ Finds t (bs ++ b ∷ [])

  unchanged-Finds : (s : State) (bs : List (List BlockId)) → InStep s bs → Bounded s bs → Finds s bs
  unchanged-Finds s bs ((file_is, ids_are), (last, size)) ((few, fits), (small, good)) =
      ap (open_journal hash) (file_is ∙ sym (append-nil (journal hash 0 bs)))
      ∙ open_journal-tail hash hash_is_id bs [] good
          (subst (λ (m : Map BlockId ℕ). length m ≤ 1048576) ids_are few)
          (omega (arith, size, fits, length-append (journal hash 0 bs) []))
          (read_guard-short hash hash_is_id (length bs) [] (omega arith))

  module _ (s : State) (bs : List (List BlockId)) (b : List BlockId) (step : InStep s bs)
      (bounded : Bounded s bs) (batch : IsBatch b)
      (ids_fit : length s.ids + count_fresh b s.ids ≤ 1048576)
      (bytes_fit : s.bytes + (56 + length b * 32 + 32) ≤ 134217728) where
    abbrev next : ℕ
    next = length bs + 1

    abbrev encoded : Bytes
    encoded = encode_entry hash b next

    file_after : s.file ++ encoded ≡ journal hash 0 (bs ++ b ∷ [])
    file_after =
        ap (λ f. f ++ encoded) step.0.0
        ∙ ap (λ k. journal hash 0 bs ++ encode_entry hash b k) (omega arith)
        ∙ sym (journal-snoc hash bs 0 b)

    ids_after : guard_all b next s.ids ≡ guards_of 0 (bs ++ b ∷ []) []
    ids_after =
        ap (guard_all b next) step.0.1
        ∙ ap (λ k. guard_all b k (guards_of 0 bs [])) (omega arith)
        ∙ sym (guards_of-snoc bs 0 b [])

    bytes_after : s.bytes + (56 + length b * 32 + 32) ≡ length (journal hash 0 (bs ++ b ∷ []))
    bytes_after = omega (
      arith,
      ap length file_after,
      ap length step.0.0,
      length-append s.file encoded,
      step.1.1,
      length-encode_entry hash hash_is_id b next batch.1,
    )

    whole_Finds :
        open_journal hash (s.file ++ encoded) ≡ ok (reopened hash hash_is_id (bs ++ b ∷ []))
    whole_Finds =
        let bs' = bs ++ b ∷ [] in
        ap (open_journal hash) (file_after ∙ sym (append-nil (journal hash 0 bs')))
        ∙ open_journal-tail hash hash_is_id bs' [] (All-snoc bs b bounded.1.1 batch)
            (omega (arith, ap length ids_after, length-guard_all b next s.ids, ids_fit))
            (omega (arith, bytes_after, bytes_fit, length-append (journal hash 0 bs') []))
            (read_guard-short hash hash_is_id (length bs') [] (omega arith))

    torn_Finds :
        (n : ℕ)
        → n < length encoded
        → open_journal hash (s.file ++ take n encoded) ≡ ok (reopened hash hash_is_id bs)
    torn_Finds n torn =
        ap (λ f. open_journal hash (f ++ take n encoded)) step.0.0
        ∙ open_journal-tail hash hash_is_id bs (take n encoded) bounded.1.1
            (subst (λ (m : Map BlockId ℕ). length m ≤ 1048576) step.0.1 bounded.0.0)
            (omega (
              arith,
              step.1.1,
              bytes_fit,
              torn,
              length-append (journal hash 0 bs) (take n encoded),
              length-take_le n encoded,
              length-encode_entry hash hash_is_id b next batch.1,
            ))
            (read_guard-torn hash hash_is_id b (length bs) n batch (omega (arith, bounded.1.0))
              torn)

    cut_Finds :
        (n : ℕ) (t : State)
        → t.file ≡ s.file ++ take n encoded
        → Finds t bs ⊎ Finds t (bs ++ b ∷ [])
    cut_Finds n t e = elim (le_or_lt (length encoded) n) [
      | inl whole ↦ inr (
          ap (open_journal hash) (e ∙ ap (λ f. s.file ++ f) (take_long n encoded whole))
          ∙ whole_Finds)
      | inr torn ↦ inl (ap (open_journal hash) e ∙ torn_Finds n torn)
    ]

    abbrev done_state : State
    done_state = (commit_entry hash s b next).0

    committed_Survives : Survives bs b (commit_entry hash s b next)
    committed_Survives = (
      refl,
      subst (λ l. InStep done_state l × Finds done_state l)
          (sym (if_false (is_empty b) bs (bs ++ b ∷ []) (batch_some b batch.0.0)))
          (
            ((file_after, ids_after), (omega (arith, length-append bs (b ∷ [])), bytes_after)),
            whole_Finds,
          ),
    )

    write_guard-Survives : (es : List Event) → Survives bs b (write_guard hash s b next es)
    write_guard-Survives [] = committed_Survives
    write_guard-Survives (fails n ∷ es) =
        cut_Finds n (record s { file = s.file ++ take n encoded; failed = true }) refl
    write_guard-Survives (works ∷ []) = committed_Survives
    write_guard-Survives (works ∷ works ∷ es) = committed_Survives
    write_guard-Survives (works ∷ fails n ∷ es) = inr whole_Finds

  Survives-if :
      (bs : List (List BlockId)) (b : List BlockId) (c : Bool) (x y : Protected hash)
      → (c ≡ true → Survives bs b x)
      → (c ≡ false → Survives bs b y)
      → Survives bs b (if c then x else y)
  Survives-if bs b true x y here there = here refl
  Survives-if bs b false x y here there = there refl

  protect_next-Survives :
      (s : State) (bs : List (List BlockId)) (b : List BlockId) (es : List Event)
      → InStep s bs
      → Bounded s bs
      → IsBatch b
      → Survives bs b (protect_next hash s b (checked_add s.sequence 1) es)
  protect_next-Survives s bs b es step bounded batch =
      let next = length bs + 1 in
      let numbered : checked_add s.sequence 1 ≡ some next = ground (arith, step.1.0, bounded.1.0) in
      subst (λ o. Survives bs b (protect_next hash s b o es)) (sym numbered)
        (Survives-if bs b (journal_full hash s b) (s, err capacity) (write_guard hash s b next es)
          (λ full. inl (unchanged-Finds s bs step bounded))
          (λ free.
            write_guard-Survives s bs b step bounded batch (ground (arith, free))
              (ground (arith, free)) es))

  -- After a call of protect with 32-byte ids on a state that is in step with its journal and
  -- within its bounds, whatever the write and the sync do and wherever a write stops: when the
  -- answer is a guard, it is for the set of the ids, the state is in step with the journal,
  -- and the next opening finds all batches before and this one, with their sequence numbers
  -- (an empty batch is not written); when the answer is an error, the next opening finds all
  -- batches before, and this one or not. Hashes have 32 bytes.
  pub protect-Survives :
      (ids : List BlockId) (es : List Event) (s : State) (bs : List (List BlockId))
      → All IsId ids
      → InStep s bs
      → Bounded s bs
      → Survives bs (distinct_ids ids) (protect hash ids es s)
  unfolding protect
  protect-Survives ids es s bs good step bounded =
      let b = distinct_ids ids in
      let same = unchanged-Finds s bs step bounded in
      let busy = any (λ id. contains id s.release_checks) b in
      let last : Protected hash =
        if is_empty b then (s, ok b) else protect_next hash s b (checked_add s.sequence 1) es in
      let third : Protected hash = if busy then (s, err would_block) else last in
      let second : Protected hash = if s.failed then (s, err needs_restart) else third in
      Survives-if bs b (ltb max_batch (length ids)) (s, err capacity) second (λ e. inl same)
        (λ few.
          Survives-if bs b s.failed (s, err needs_restart) third (λ e. inl same)
            (λ fine.
              Survives-if bs b busy (s, err would_block) last (λ e. inl same)
                (λ free.
                  Survives-if bs b (is_empty b) (s, ok b)
                    (protect_next hash s b (checked_add s.sequence 1) es)
                    (λ e. (
                      refl,
                      subst (λ l. InStep s l × Finds s l)
                          (sym (if_true (is_empty b) bs (bs ++ b ∷ []) e)) (step, same),
                    ))
                    (λ e. protect_next-Survives s bs b es step bounded (
                      (some_batch b e, ground (arith, few, distinct_ids-shorter ids)),
                      distinct_ids-All ids good,
                    )))))
