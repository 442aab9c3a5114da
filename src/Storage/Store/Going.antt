-- ===== src/Storage/Store/Going.antt =====
-- What holds while `put_many_inner` of crates/kalpak-storage/src/store.rs stages and flushes its
-- records: nothing that was readable changes, and the staged records are where the index will say.
use mathlib.Core.List.{append-nil}
use kalpakdb.Prelude.{
  ℕ, ◌+◌, ◌<◌, ◌≡◌, inl, inr, refl, sym, ap, ◌∙◌, subst, true, Option, none, some, List, [], ◌∷◌,
  ◌++◌, Bytes, length, is_empty, length-append, Bool-cases, ok, err, arith, list_eq, nat_eq,
}
use kalpakdb.Prelude.Map.{Map, get}
use kalpakdb.Core.Key.{BlockId}
use kalpakdb.Storage.Segment.{Location}
use kalpakdb.Storage.Segment.Steps.{if_true, if_false}
use kalpakdb.Storage.Store.Writing.{
  Written, write_batch, Attempt, last_file, set_last, Step, flushed, flush_pending, insert_all,
}
use kalpakdb.Storage.Store.Layout.{
  Extends, Holds, Extends-trans, Extends-last, Holds-grow, last_file-last, set_last-last,
  length-set_last,
}
use kalpakdb.Storage.Store.Batch.{Consecutive, joined, Outcome, write_batch-Outcome}

-- The bounds of the machine's integers, with so many bytes and records to come.
abbrev pub Room : ℕ → ℕ → Attempt → Type 0
Room size count a = (a.tail + size < 9223372036854775808) × (length a.files + count < 4294967296)

nothing : (ws : List (ℕ × Bytes)) → is_empty ws ≡ true → ws ≡ []
nothing [] e = refl
nothing (w ∷ ws) e = absurd (ground arith)

module _ (hash : Bytes → Bytes) where
  -- What the index says of an id, beside what an ideal memory holds for it.
  abbrev pub Entry : List Bytes → BlockId → Option Location → Option Bytes → Type 0
  Entry files id none none = Unit
  Entry files id none (some payload) = ⊥
  Entry files id (some loc) none = ⊥
  Entry files id (some loc) (some payload) = Holds files loc payload × (hash payload ≡ id)

  abbrev pub Holding : List Bytes → Map BlockId Location → Map BlockId Bytes → Type 0
  Holding files index memory = (id : BlockId) → Entry files id (get id index) (get id memory)

  Entry_grow :
      (fs gs : List Bytes) (id : BlockId) (found : Option Location) (ideal : Option Bytes)
      → Extends fs gs
      → Entry fs id found ideal
      → Entry gs id found ideal
  Entry_grow fs gs id none none grown e = tt
  Entry_grow fs gs id none (some payload) grown e = e
  Entry_grow fs gs id (some loc) none grown e = e
  Entry_grow fs gs id (some loc) (some payload) grown (h, hashed) =
      (Holds-grow fs gs loc payload grown h, hashed)

  pub Holding-grow :
      (fs gs : List Bytes) (index : Map BlockId Location) (memory : Map BlockId Bytes)
      → Extends fs gs
      → Holding fs index memory
      → Holding gs index memory
  Holding-grow fs gs index memory grown h =
      λ id. Entry_grow fs gs id (get id index) (get id memory) grown (h id)

  -- The active file is `front`, up to where the pending records will stand, and a rest that they
  -- overwrite.
  pub record Going (base : List Bytes) (index : Map BlockId Location) (memory : Map BlockId Bytes)
      (a : Attempt) : Type 0 where
    pub sealed : List Bytes
    pub front : Bytes
    pub rest : Bytes
    pub files_are : a.files ≡ sealed ++ (front ++ rest) ∷ []
    pub in_line : Consecutive (length front) a.pending
    pub tail_is : a.tail ≡ length front + length (joined a.pending)
    pub active_is : a.active ≡ length sealed
    pub kept : Extends base (sealed ++ front ∷ [])
    pub holding :
        Holding (sealed ++ (front ++ joined a.pending) ∷ []) (insert_all a.staged index) memory

  abbrev pub After : List Bytes → Map BlockId Location → Map BlockId Bytes → ℕ → ℕ → Step → Type 0
  After base index memory size count (ok a) = Going base index memory a × Room size count a
  After base index memory size count (err a) = Extends base a.files

  -- After a flush nothing is pending.
  abbrev pub Flushed : List Bytes → Map BlockId Location → Map BlockId Bytes → ℕ → ℕ → Step → Type 0
  Flushed base index memory size count (ok a) =
      (Going base index memory a × Room size count a) × (a.pending ≡ [])
  Flushed base index memory size count (err a) = Extends base a.files

  module _ (base : List Bytes) (index : Map BlockId Location) (memory : Map BlockId Bytes)
      (size count : ℕ) (a : Attempt) (going : Going base index memory a)
      (room : Room size count a) where
    written_files : (file : Bytes) → set_last file a.files ≡ going.sealed ++ file ∷ []
    written_files file =
        ap (set_last file) going.files_are
        ∙ set_last-last file going.sealed (going.front ++ going.rest)

    flushed_done :
        (w : Written) (more : Bytes)
        → w.file ≡ (going.front ++ joined a.pending) ++ more
        → Flushed base index memory size count
            (ok (record a { files = set_last w.file a.files; events = w.events; pending = [] }))
    unfolding joined
    flushed_done w more e =
        let front = going.front ++ joined a.pending in
        let grown = Extends-last going.sealed going.front (joined a.pending) in
        (
          (
            record {
              sealed = going.sealed;
              front = front;
              rest = more;
              files_are = written_files w.file ∙ ap (λ f. going.sealed ++ f ∷ []) e;
              in_line = tt;
              tail_is = omega (arith, going.tail_is, length-append going.front (joined a.pending));
              active_is = going.active_is;
              kept = Extends-trans base _ _ going.kept grown;
              holding =
                  subst (λ f. Holding (going.sealed ++ f ∷ []) (insert_all a.staged index) memory)
                    (sym (append-nil front)) going.holding;
            },
            (room.0, omega (arith, room.1, length-set_last w.file a.files)),
          ),
          refl,
        )

    flushed_failed :
        (w : Written) (more : Bytes)
        → w.file ≡ going.front ++ more
        → Extends base (set_last w.file a.files)
    flushed_failed w more e =
        subst (Extends base) (sym (written_files w.file ∙ ap (λ f. going.sealed ++ f ∷ []) e))
          (Extends-trans base _ _ going.kept (Extends-last going.sealed going.front more))

    flushed-Flushed :
        (w : Written)
        → Outcome going.front (joined a.pending) w
        → Flushed base index memory size count (flushed a w)
    unfolding flushed
    flushed-Flushed w ((more, e), whole) = elim (Bool-cases w.done) [
      | inl done ↦
          (let (rest, q) = whole done in
            subst (Flushed base index memory size count) (sym (if_true w.done _ _ done))
              (flushed_done w rest q))
      | inr failed ↦
          subst (Flushed base index memory size count) (sym (if_false w.done _ _ failed))
            (flushed_failed w more e)
    ]

    batch-Outcome :
        Outcome going.front (joined a.pending) (write_batch (last_file a.files) a.pending a.events)
    batch-Outcome =
        subst (λ f. Outcome going.front (joined a.pending) (write_batch f a.pending a.events))
          (sym (
            ap last_file going.files_are ∙ last_file-last going.sealed (going.front ++ going.rest)))
          (write_batch-Outcome a.pending a.events going.front going.rest going.in_line)

    pub flush_pending-Flushed : Flushed base index memory size count (flush_pending a)
    unfolding flush_pending
    flush_pending-Flushed = elim (Bool-cases (is_empty a.pending)) [
      | inl empty ↦
          subst (Flushed base index memory size count)
            (sym (if_true (is_empty a.pending) _ _ empty)) ((going, room), nothing a.pending empty)
      | inr full ↦
          subst (Flushed base index memory size count)
            (sym (if_false (is_empty a.pending) _ _ full))
            (flushed-Flushed (write_batch (last_file a.files) a.pending a.events) batch-Outcome)
    ]
