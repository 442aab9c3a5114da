-- ===== src/Storage/Store/Working.antt =====
-- Calls of `put_many` in crates/kalpak-storage/src/store.rs on a device that works.
use kalpakdb.Prelude.{
  ◌&&◌, ℕ, ◌+◌, ◌≡◌, inl, inr, refl, sym, ap, ◌∙◌, subst, Bool, true, false, Option, none, some,
  List, [], ◌∷◌, Bytes, length, is_empty, ok, err, ◌>>=◌, arith, list_eq, nat_eq, All, map,
  Bool-cases, if◌then◌else◌, ◌||◌, ◌==◌, ==_refl, ==_iff, ltb, is_some,
}
use kalpakdb.Prelude.Map.{Map, get, contains_key, get-insert}
use kalpakdb.Core.Key.{BlockId, id_of}
use kalpakdb.Storage.Segment.{Location, wrap, encode_record}
use kalpakdb.Storage.Segment.Steps.{if_true, if_false}
use kalpakdb.Storage.Store.{BlockStore, get_block}
use kalpakdb.Storage.Store.Writing.{
  Event, Attempt, Step, Written, write_batch, last_file, flushed, flush_pending, open_next, roll,
  stage, append_record, present, is_staged, put_one, put_each, sync_dir, finish_batch,
  start_attempt, settle, put_many, put_many_inner, write_at, Put,
}
use kalpakdb.Storage.Store.Going.{Entry, Holding}
use kalpakdb.Storage.Store.Staging.{remember, remember_all}
use kalpakdb.Storage.Store.Loop.{total_size, Storable}
use kalpakdb.Storage.Store.Refines.{Tracks, put_many-Answered}
use kalpakdb.Storage.Store.History.{get_block-Entry}

-- The step is no early return, and no fault is left.
abbrev Worked : Step → Type 0
Worked (ok a) = a.events ≡ []
Worked (err a) = ⊥

write_batch-works :
    (writes : List (ℕ × Bytes)) (file : Bytes)
    → ((write_batch file writes []).done ≡ true) × ((write_batch file writes []).events ≡ [])
unfolding write_batch
write_batch-works [] file = (refl, refl)
write_batch-works (w ∷ writes) file = write_batch-works writes (write_at file w.1 w.0)

flushed-Worked : (a : Attempt) (w : Written) → w.done ≡ true → w.events ≡ [] → Worked (flushed a w)
unfolding flushed
flushed-Worked a w done none_left = subst Worked (sym (if_true w.done _ _ done)) none_left

flush_pending-Worked : (a : Attempt) → a.events ≡ [] → Worked (flush_pending a)
unfolding flush_pending
flush_pending-Worked a h = elim (Bool-cases (is_empty a.pending)) [
  | inl empty ↦ subst Worked (sym (if_true (is_empty a.pending) _ _ empty)) h
  | inr full ↦
      (let w = write_batch (last_file a.files) a.pending a.events in
        let works = write_batch-works a.pending (last_file a.files) in
        let same = ap (write_batch (last_file a.files) a.pending) h in
        subst Worked (sym (if_false (is_empty a.pending) _ _ full)) (
          flushed-Worked a w (ap (λ (v : Written). v.done) same ∙ works.0)
            (ap (λ (v : Written). v.events) same ∙ works.1)))
]

then_Worked :
    (r : Step) (f : Attempt → Step)
    → ((a : Attempt) → a.events ≡ [] → Worked (f a))
    → Worked r
    → Worked (r >>= f)
then_Worked (ok a) f next h = next a h
then_Worked (err a) f next h = absurd h

open_next-Worked : (a : Attempt) (es : List Event) → es ≡ [] → Worked (open_next a es)
open_next-Worked a es e = subst (λ l. Worked (open_next a l)) (sym e) refl

sync_dir-Worked : (a : Attempt) (es : List Event) → a.events ≡ [] → es ≡ [] → Worked (sync_dir a es)
sync_dir-Worked a es h e = subst (λ l. Worked (sync_dir a l)) (sym e) h

either_Worked : (b : Bool) (r s : Step) → Worked r → Worked s → Worked (if b then r else s)
either_Worked true r s h k = h
either_Worked false r s h k = k

finish_batch-Worked : (a : Attempt) → a.events ≡ [] → Worked (finish_batch a)
finish_batch-Worked a h =
    then_Worked (flush_pending a) _
      (λ b e. either_Worked b.rolled _ _ (sync_dir-Worked b b.events e e) e)
      (flush_pending-Worked a h)

append_record-Worked :
    (roll_bytes : ℕ) (id : BlockId) (payload : Bytes) (a : Attempt)
    → a.events ≡ []
    → Worked (append_record roll_bytes id payload a)
unfolding append_record stage
append_record-Worked roll_bytes id payload a h =
    either_Worked
      (ltb roll_bytes (wrap (a.tail + length (encode_record id payload))) && ltb 0 a.tail)
      (roll a >>= λ b. ok (stage id payload b)) (ok (stage id payload a))
      (then_Worked (roll a) (λ b. ok (stage id payload b)) (λ b e. e)
        (then_Worked (flush_pending a) _ (λ b e. open_next-Worked b b.events e)
          (flush_pending-Worked a h)))
      h

module _ (hash : Bytes → Bytes) (device : Location → Bool) where
  put_each-Worked :
      (store : BlockStore) (repair : Bool) (payloads : List Bytes) (a : Attempt)
      → a.events ≡ []
      → Worked (put_each hash device store repair payloads a)
  unfolding put_each put_one
  put_each-Worked store repair [] a h = h
  put_each-Worked store repair (payload ∷ payloads) a h =
      let id = id_of hash payload in
      then_Worked (put_one hash device store repair id payload a) _
        (λ b e. put_each-Worked store repair payloads b e)
        (either_Worked (present hash device store repair a.files id || is_staged id a.staged) _ _ h
          (append_record-Worked store.roll_bytes id payload a h))

  settle-works :
      (store : BlockStore) (ids : List BlockId) (r : Step)
      → Worked r
      → (settle store ids r).reply ≡ ok ids
  settle-works store ids (ok a) h = refl
  settle-works store ids (err a) h = absurd h

  -- Whatever the files hold.
  put_many_inner-works :
      (store : BlockStore) (payloads : List Bytes) (repair : Bool)
      → store.write_failed ≡ false
      → (put_many_inner hash device store payloads repair []).reply ≡ ok (map hash payloads)
  unfolding put_many_inner id_of
  put_many_inner-works store payloads repair fine =
      ap (λ (p : Put). p.reply) (if_false store.write_failed _ _ fine)
      ∙ settle-works store (map hash payloads) _ (
          then_Worked (put_each hash device store repair payloads (start_attempt store []))
            finish_batch finish_batch-Worked
            (put_each-Worked store repair payloads (start_attempt store []) refl))

  -- The memory has a payload for the id of everything that was put.
  remember-has :
      (payload : Bytes) (memory : Map BlockId Bytes) (id : BlockId)
      → (hash payload == id || contains_key id memory) ≡ true
      → contains_key id (remember hash payload memory) ≡ true
  unfolding remember
  remember-has payload memory id h = elim (Bool-cases (contains_key (hash payload) memory)) [
    | inl old ↦
        ap (contains_key id) (if_true (contains_key (hash payload) memory) _ _ old)
        ∙ ground (arith, ==_iff (hash payload) id, old)
    | inr new ↦
        ap (contains_key id) (if_false (contains_key (hash payload) memory) _ _ new)
        ∙ ap is_some (get-insert (hash payload) id payload memory)
        ∙ ground arith
  ]

  remember_all-has :
      (payloads : List Bytes) (memory : Map BlockId Bytes) (id : BlockId)
      → contains_key id memory ≡ true
      → contains_key id (remember_all hash payloads memory) ≡ true
  unfolding remember_all
  remember_all-has [] memory id h = h
  remember_all-has (payload ∷ payloads) memory id h =
      remember_all-has payloads (remember hash payload memory) id
        (remember-has payload memory id (ground arith))

  -- A payload that hashes to the id can be read.
  abbrev pub IsStored : BlockStore → BlockId → Type 0
  IsStored store id =
      (payload : Bytes) × ((get_block hash device store id ≡ ok payload) × (hash payload ≡ id))

  IsStored-Entry :
      (store : BlockStore) (id : BlockId) (found : Option Location) (ideal : Option Bytes)
      → ((loc : Location) → device loc ≡ true)
      → get id store.index ≡ found
      → Entry hash store.files id found ideal
      → is_some ideal ≡ true
      → IsStored store id
  IsStored-Entry store id found none healthy known e there = absurd (ground arith)
  IsStored-Entry store id none (some payload) healthy known e there = absurd e
  IsStored-Entry store id (some loc) (some payload) healthy known e there = (
    payload,
    (get_block-Entry hash device store id (some loc) (some payload) healthy known e, e.1),
  )

  remember_all-IsStored :
      (payloads : List Bytes) (memory : Map BlockId Bytes) (store : BlockStore)
      → ((loc : Location) → device loc ≡ true)
      → Holding hash store.files store.index (remember_all hash payloads memory)
      → All (λ payload. IsStored store (hash payload)) payloads
  unfolding remember_all
  remember_all-IsStored [] memory store healthy holding = tt
  remember_all-IsStored (payload ∷ payloads) memory store healthy holding =
      let id = hash payload in
      let later = remember hash payload memory in
      (
        IsStored-Entry store id (get id store.index) (get id (remember_all hash payloads later))
            healthy refl (holding id)
            (remember_all-has payloads later id
              (remember-has payload memory id (ground (arith, ==_refl id)))),
        remember_all-IsStored payloads later store healthy holding,
      )

  -- On a device that works, put_many of a store that has not failed and has the blocks of an
  -- ideal memory answers with the ids of its payloads, and for each of them a get then finds a
  -- payload with that hash, under the same bounds on ids, payloads and segments.
  pub put_many-works :
      (store : BlockStore) (payloads : List Bytes) (memory : Map BlockId Bytes) (size count : ℕ)
      → ((loc : Location) → device loc ≡ true)
      → store.write_failed ≡ false
      → All (Storable hash) payloads
      → Tracks hash (total_size hash payloads + size) (length payloads + count) store memory
      → let p = put_many hash device store payloads [] in
        (p.reply ≡ ok (map hash payloads))
        × All (λ payload. IsStored p.store (hash payload)) payloads
  put_many-works store payloads memory size count healthy fine fit tracks =
      let works = put_many_inner-works store payloads false fine in
      (
        works,
        elim (put_many-Answered hash device size count store payloads [] memory fit tracks) [
          | inl (e, after) ↦
              remember_all-IsStored payloads memory (put_many hash device store payloads []).store
                healthy after.0
          | inr (e, after) ↦ absurd (ground arith)
        ],
      )
