-- ===== src/Storage/Store/Refines.antt =====
-- The block store of crates/kalpak-storage/src/store.rs as an ideal memory: calls of `put_many` and
-- `get`, whatever the device does with the writes.
use mathlib.Core.List.{append-nil}
use kalpakdb.Prelude.{
  ℕ, ◌+◌, ◌<◌, ◌≡◌, ◌⊎◌, inl, inr, refl, sym, ap, ◌∙◌, subst, Bool, true, false, List, [], ◌∷◌,
  ◌++◌, Bytes, length, length-append, ok, err, ◌>>=◌, arith, list_eq, nat_eq, All, map, Bool-cases,
  if◌then◌else◌,
}
use kalpakdb.Prelude.Map.{Map}
use kalpakdb.Core.Key.{BlockId, id_of}
use kalpakdb.Storage.Segment.{Location}
use kalpakdb.Storage.Segment.Steps.{if_true, if_false}
use kalpakdb.Storage.Store.{BlockStore, io}
use kalpakdb.Storage.Store.Writing.{
  Event, works, fails, Attempt, Step, flush_pending, sync_dir, finish_batch, start_attempt, settle,
  Put, put_many, put_many_inner, put_each, insert_all,
}
use kalpakdb.Storage.Store.Layout.{Extends, Extends-refl, Extends-trans, Extends-last}
use kalpakdb.Storage.Store.Batch.{joined}
use kalpakdb.Storage.Store.Going.{
  Holding, Holding-grow, Going, After, Flushed, flush_pending-Flushed,
}
use kalpakdb.Storage.Store.Staging.{remember_all}
use kalpakdb.Storage.Store.Loop.{total_size, Storable, put_each-After}

module _ (hash : Bytes → Bytes) where
  -- The store can take writes: the active file is full up to `append`, and what lies after that is
  -- not read.
  pub record Ready (size count : ℕ) (store : BlockStore) (memory : Map BlockId Bytes) : Type 0 where
    pub sealed : List Bytes
    pub front : Bytes
    pub rest : Bytes
    pub files_are : store.files ≡ sealed ++ (front ++ rest) ∷ []
    pub append_is : store.append ≡ length front
    pub holding : Holding hash (sealed ++ front ∷ []) store.index memory
    pub bytes_fit : store.append + size < 9223372036854775808
    pub files_fit : length store.files + count < 4294967296

  -- The store has the blocks of the memory and no others; so many bytes and records may follow.
  abbrev pub Tracks : ℕ → ℕ → BlockStore → Map BlockId Bytes → Type 0
  Tracks size count store memory =
      Holding hash store.files store.index memory
      × (store.write_failed ≡ false → Ready size count store memory)

  module _ (base : List Bytes) (index : Map BlockId Location) (memory : Map BlockId Bytes)
      (size count : ℕ) where
    sync_dir-Flushed :
        (a : Attempt) (es : List Event)
        → Flushed hash base index memory size count (ok a)
        → Flushed hash base index memory size count (sync_dir a es)
    sync_dir-Flushed a [] h = h
    sync_dir-Flushed a (works ∷ es) ((going, room), flat) = (
      (
        record {
          sealed = going.sealed;
          front = going.front;
          rest = going.rest;
          files_are = going.files_are;
          in_line = going.in_line;
          tail_is = going.tail_is;
          active_is = going.active_is;
          kept = going.kept;
          holding = going.holding;
        },
        room,
      ),
      flat,
    )
    sync_dir-Flushed a (fails n ∷ es) ((going, room), flat) =
        subst (Extends base) (sym going.files_are)
          (Extends-trans base _ _ going.kept (Extends-last going.sealed going.front going.rest))

    synced :
        (r : Step)
        → Flushed hash base index memory size count r
        → Flushed hash base index memory size count
            (r >>= λ b. if b.rolled then sync_dir b b.events else ok b)
    synced (ok b) h =
        elim b.rolled
          as (λ t.
            Flushed hash base index memory size count (if t then sync_dir b b.events else ok b)) [
              | true ↦ sync_dir-Flushed b b.events h
              | false ↦ h
            ]
    synced (err b) h = h

    finished :
        (r : Step)
        → After hash base index memory size count r
        → Flushed hash base index memory size count (r >>= finish_batch)
    finished (ok a) (going, room) =
        synced (flush_pending a)
          (flush_pending-Flushed hash base index memory size count a going room)
    finished (err a) kept = kept

  start_attempt-Going :
      (size count : ℕ) (store : BlockStore) (memory : Map BlockId Bytes) (events : List Event)
      (ready : Ready size count store memory)
      → Going hash
          (ready.sealed ++ ready.front ∷ [])
          store.index
          memory
          (start_attempt store events)
  unfolding joined insert_all
  start_attempt-Going size count store memory events ready =
      let size_is = ap length ready.files_are in
      record {
        sealed = ready.sealed;
        front = ready.front;
        rest = ready.rest;
        files_are = ready.files_are;
        in_line = tt;
        tail_is = omega (arith, ready.append_is);
        active_is = omega (
          arith,
          size_is,
          length-append ready.sealed ((ready.front ++ ready.rest) ∷ []),
          ready.files_fit,
        );
        kept = Extends-refl (ready.sealed ++ ready.front ∷ []);
        holding =
            subst (λ f. Holding hash (ready.sealed ++ f ∷ []) store.index memory)
              (sym (append-nil ready.front)) ready.holding;
      }

  -- The batch is in the memory and the ids are the answer, or nothing changed.
  abbrev pub Answered : ℕ → ℕ → List Bytes → Map BlockId Bytes → Put → Type 0
  Answered size count payloads memory p =
      ((p.reply ≡ ok (map hash payloads))
        × Tracks size count p.store (remember_all hash payloads memory))
      ⊎ ((p.reply ≡ err io) × Tracks size count p.store memory)

  settle-Answered :
      (size count : ℕ) (store : BlockStore) (payloads : List Bytes) (memory : Map BlockId Bytes)
      (base : List Bytes) (r : Step)
      → store.write_failed ≡ false
      → Holding hash base store.index memory
      → Flushed hash base store.index (remember_all hash payloads memory) size count r
      → Answered size count payloads memory (settle store (map hash payloads) r)
  unfolding joined
  settle-Answered size count store payloads memory base (ok a) fine holding ((going, room), flat) =
      let later = remember_all hash payloads memory in
      let index = insert_all a.staged store.index in
      let bare : going.front ++ joined a.pending ≡ going.front =
        ap (λ ws. going.front ++ joined ws) flat ∙ append-nil going.front in
      let held =
        subst (λ f. Holding hash (going.sealed ++ f ∷ []) index later) bare going.holding in
      let grown = Extends-last going.sealed going.front going.rest in
      inl (
        refl,
        (
          subst (λ fs. Holding hash fs index later) (sym going.files_are)
              (Holding-grow hash _ _ index later grown held),
          λ e. record {
            sealed = going.sealed;
            front = going.front;
            rest = going.rest;
            files_are = going.files_are;
            append_is = omega (arith, going.tail_is, ap (λ ws. length (joined ws)) flat);
            holding = held;
            bytes_fit = room.0;
            files_fit = room.1;
          },
        ),
      )
  settle-Answered size count store payloads memory base (err a) fine holding kept = inr (
    refl,
    (Holding-grow hash base a.files store.index memory kept holding, λ e. absurd (ground arith)),
  )

  pub put_many-Answered :
      (device : Location → Bool) (size count : ℕ) (store : BlockStore) (payloads : List Bytes)
      (events : List Event) (memory : Map BlockId Bytes)
      → All (Storable hash) payloads
      → Tracks (total_size hash payloads + size) (length payloads + count) store memory
      → Answered size count payloads memory (put_many hash device store payloads events)
  unfolding put_many_inner id_of
  put_many-Answered device size count store payloads events memory fit (holding, ready) =
      elim (Bool-cases store.write_failed) [
        | inl failed ↦
            subst (Answered size count payloads memory)
              (sym (if_true store.write_failed _ _ failed))
              (inr (refl, (holding, λ e. absurd (ground arith))))
        | inr fine ↦
            (let now = ready fine in
              let base = now.sealed ++ now.front ∷ [] in
              let later = remember_all hash payloads memory in
              let more = total_size hash payloads + size in
              let many = length payloads + count in
              subst (Answered size count payloads memory)
                (sym (if_false store.write_failed _ _ fine))
                (settle-Answered size count store payloads memory base _ fine now.holding (
                  finished base store.index later size count
                    (put_each hash device store false payloads (start_attempt store events))
                    (put_each-After hash device store base payloads memory size count
                      (start_attempt store events) fit
                      (start_attempt-Going more many store memory events now)
                      (now.bytes_fit, now.files_fit)))))
      ]
