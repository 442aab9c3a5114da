-- ===== src/Storage/Store/History.antt =====
-- Sequences of calls on a block store (crates/kalpak-storage/src/store.rs), beside an ideal memory.
use kalpakdb.Prelude.{
  ℕ, ◌+◌, ◌≡◌, inl, inr, refl, sym, ap, ◌∙◌, subst, Bool, true, Option, none, some, List, [], ◌∷◌,
  Bytes, length, Result, ok, err, list_eq, nat_eq, All, map, Option-cases,
}
use kalpakdb.Prelude.Map.{Map, get}
use kalpakdb.Core.Key.{BlockId}
use kalpakdb.Storage.Segment.{Location}
use kalpakdb.Storage.Store.{BlockStore, Error, io, block_not_found, get_block}
use kalpakdb.Storage.Store.Writing.{Event, put_many}
use kalpakdb.Storage.Store.Layout.{get_block-Holds, get_block-missing}
use kalpakdb.Storage.Store.Going.{Entry}
use kalpakdb.Storage.Store.Staging.{remember_all}
use kalpakdb.Storage.Store.Loop.{total_size, Storable}
use kalpakdb.Storage.Store.Refines.{Tracks, put_many-Answered}

-- A call of `put_many`, with what the device will do, or of `get`.
pub data Call : Type 0 where
  puts : List Bytes → List Event → Call
  gets : BlockId → Call

pub data Answer : Type 0 where
  stored : Result Error (List BlockId) → Answer
  read : Result Error Bytes → Answer

module _ (hash : Bytes → Bytes) where
  -- What an ideal memory answers. It takes all of a batch, and answers with the ids, or nothing of
  -- it, and answers with an I/O error. A payload whose id is there already is dropped.
  pub data Ideal : Map BlockId Bytes → List Call → List Answer → Map BlockId Bytes → Type 0 where
    quiet : (memory : Map BlockId Bytes) → Ideal memory [] [] memory
    takes :
        (memory later : Map BlockId Bytes) (payloads : List Bytes) (events : List Event)
        (calls : List Call) (answers : List Answer)
        → Ideal (remember_all hash payloads memory) calls answers later
        → Ideal memory
            (puts payloads events ∷ calls)
            (stored (ok (map hash payloads)) ∷ answers)
            later
    refuses :
        (memory later : Map BlockId Bytes) (payloads : List Bytes) (events : List Event)
        (calls : List Call) (answers : List Answer)
        → Ideal memory calls answers later
        → Ideal memory (puts payloads events ∷ calls) (stored (err io) ∷ answers) later
    finds :
        (memory later : Map BlockId Bytes) (id : BlockId) (payload : Bytes) (calls : List Call)
        (answers : List Answer)
        → get id memory ≡ some payload
        → Ideal memory calls answers later
        → Ideal memory (gets id ∷ calls) (read (ok payload) ∷ answers) later
    misses :
        (memory later : Map BlockId Bytes) (id : BlockId) (calls : List Call)
        (answers : List Answer)
        → get id memory ≡ none
        → Ideal memory calls answers later
        → Ideal memory (gets id ∷ calls) (read (err (block_not_found id)) ∷ answers) later

  -- The payloads of all calls can be stored, and their bytes and their number.
  abbrev pub AllStorable : List Call → Type 0
  AllStorable [] = Unit
  AllStorable (puts payloads events ∷ calls) = All (Storable hash) payloads × AllStorable calls
  AllStorable (gets id ∷ calls) = AllStorable calls

  abbrev pub bytes_of : List Call → ℕ
  bytes_of [] = 0
  bytes_of (puts payloads events ∷ calls) = total_size hash payloads + bytes_of calls
  bytes_of (gets id ∷ calls) = bytes_of calls

  abbrev pub count_of : List Call → ℕ
  count_of [] = 0
  count_of (puts payloads events ∷ calls) = length payloads + count_of calls
  count_of (gets id ∷ calls) = count_of calls

  abbrev pub ideal_get : BlockId → Option Bytes → Result Error Bytes
  ideal_get id none = err (block_not_found id)
  ideal_get id (some payload) = ok payload

  module _ (device : Location → Bool) where
    unfoldable pub run : BlockStore → List Call → List Answer
    run store [] = []
    run store (puts payloads events ∷ calls) =
        let p = put_many hash device store payloads events in stored p.reply ∷ run p.store calls
    run store (gets id ∷ calls) = read (get_block hash device store id) ∷ run store calls

    -- The answer to a get, by what the memory has.
    pub get_block-Entry :
        (store : BlockStore) (id : BlockId) (found : Option Location) (ideal : Option Bytes)
        → ((loc : Location) → device loc ≡ true)
        → get id store.index ≡ found
        → Entry hash store.files id found ideal
        → get_block hash device store id ≡ ideal_get id ideal
    get_block-Entry store id none none healthy known e =
        get_block-missing hash device store id known
    get_block-Entry store id none (some payload) healthy known e = absurd e
    get_block-Entry store id (some loc) none healthy known e = absurd e
    get_block-Entry store id (some loc) (some payload) healthy known (held, hashed) =
        get_block-Holds hash device store id loc payload (healthy loc) known held hashed

    module _ (healthy : (loc : Location) → device loc ≡ true) where
      -- A block store that has the blocks of an ideal memory answers every sequence of
      -- put_many and get calls as such a memory may: a batch is taken whole and answered
      -- with the ids of its payloads, or nothing of it is taken and the answer is an I/O
      -- error, whatever writes, syncs and opens fail and wherever in a write; a get
      -- answers the payload that the memory has for the id, or that there is none. The
      -- device is one that reads; the ids have 32 bytes, the payloads are below 2^63
      -- bytes, the active segment with all payloads stays below 2^63 bytes and the
      -- segments below 2^32.
      pub run-Ideal :
          (calls : List Call) (store : BlockStore) (memory : Map BlockId Bytes)
          → AllStorable calls
          → Tracks hash (bytes_of calls) (count_of calls) store memory
          → (later : Map BlockId Bytes) × Ideal memory calls (run store calls) later
      unfolding run
      run-Ideal [] store memory fit tracks = (memory, quiet memory)
      run-Ideal (puts payloads events ∷ calls) store memory (fits, fit) tracks =
          let p = put_many hash device store payloads events in
          let answers = run p.store calls in
          let answered = λ (later : Map BlockId Bytes) (r : Result Error (List BlockId)).
            Ideal memory (puts payloads events ∷ calls) (stored r ∷ answers) later in
          elim (put_many-Answered hash device (bytes_of calls) (count_of calls) store payloads
            events memory fits tracks) [
              | inl (taken, after) ↦
                  (let (later, ideal) =
                      run-Ideal calls p.store (remember_all hash payloads memory) fit after in
                    (
                      later,
                      subst (answered later) (sym taken)
                          (takes memory later payloads events calls answers ideal),
                    ))
              | inr (refused, after) ↦
                  (let (later, ideal) = run-Ideal calls p.store memory fit after in
                    (
                      later,
                      subst (answered later) (sym refused)
                          (refuses memory later payloads events calls answers ideal),
                    ))
            ]
      run-Ideal (gets id ∷ calls) store memory fit tracks =
          let (later, ideal) = run-Ideal calls store memory fit tracks in
          let answers = run store calls in
          let reads =
            get_block-Entry store id (get id store.index) (get id memory) healthy refl
              (tracks.0 id) in
          let answered =
            λ (r : Result Error Bytes). Ideal memory (gets id ∷ calls) (read r ∷ answers) later in
          elim (Option-cases (get id memory)) [
            | inl missing ↦ (
              later,
              subst answered (sym (reads ∙ ap (ideal_get id) missing))
                  (misses memory later id calls answers missing ideal),
            )
            | inr (payload, found) ↦ (
              later,
              subst answered (sym (reads ∙ ap (ideal_get id) found))
                  (finds memory later id payload calls answers found ideal),
            )
          ]
