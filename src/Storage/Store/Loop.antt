-- ===== src/Storage/Store/Loop.antt =====
-- The loop of `put_many_inner` in crates/kalpak-storage/src/store.rs, beside an ideal memory.
use mathlib.Core.List.{append-nil}
use kalpakdb.Prelude.{
  ℕ, suc, ◌+◌, ◌≡◌, inl, inr, sym, ap, ◌∙◌, subst, Bool, ◌&&◌, false, List, [], ◌∷◌, ◌++◌, Bytes,
  length, length-append, Bool-cases, ok, err, ◌>>=◌, arith, list_eq, nat_eq, if◌then◌else◌, All,
  ◌||◌, ltb,
}
use kalpakdb.Prelude.Map.{Map, insert, contains_key}
use kalpakdb.Core.Key.{BlockId, id_of}
use kalpakdb.Core.Signing.Injective.{IsId}
use kalpakdb.Storage.Segment.{Location, encode_record, record_len, wrap}
use kalpakdb.Storage.Segment.Record.{Fits}
use kalpakdb.Storage.Segment.Steps.{if_true, if_false}
use kalpakdb.Storage.Store.{BlockStore}
use kalpakdb.Storage.Store.Writing.{
  Event, works, fails, Attempt, Step, flush_pending, new_segment, open_next, roll, stage,
  insert_all, is_staged, append_record, put_one, put_each, present,
}
use kalpakdb.Storage.Store.Layout.{Extends, Extends-trans, Extends-last, Extends-append}
use kalpakdb.Storage.Store.Batch.{Consecutive, joined}
use kalpakdb.Storage.Store.Going.{
  Room, Holding, Holding-grow, Going, After, Flushed, flush_pending-Flushed,
}
use kalpakdb.Storage.Store.Staging.{
  remember, remember_all, contains_key-insert_all, contains_key-Holding, stage-Going,
}

module _ (hash : Bytes → Bytes) where
  module _ (base : List Bytes) (index : Map BlockId Location) (memory : Map BlockId Bytes) where
    new_segment-After :
        (b : Attempt) (size count : ℕ) (es : List Event)
        → Going hash base index memory b
        → b.pending ≡ []
        → Room size (suc count) b
        → After hash base index memory size count (ok (new_segment b es))
    unfolding joined
    new_segment-After b size count es going flat room =
        let full = going.front ++ going.rest in
        let sealed = going.sealed ++ full ∷ [] in
        let bare : going.front ++ joined b.pending ≡ going.front =
          ap (λ ws. going.front ++ joined ws) flat ∙ append-nil going.front in
        let grown =
          Extends-trans (going.sealed ++ going.front ∷ []) sealed (sealed ++ [] ∷ [])
            (Extends-last going.sealed going.front going.rest) (Extends-append sealed ([] ∷ [])) in
        let size_is = ap length going.files_are in
        (
          record {
            sealed = sealed;
            front = [];
            rest = [];
            files_are = ap (λ fs. fs ++ [] ∷ []) going.files_are;
            in_line = subst (Consecutive 0) (sym flat) tt;
            tail_is = omega (arith, ap (λ ws. length (joined ws)) flat);
            active_is = omega (arith, size_is, room.1);
            kept = Extends-trans base _ _ going.kept grown;
            holding =
                subst
                  (λ ws. Holding hash (sealed ++ joined ws ∷ []) (insert_all b.staged index) memory)
                  (sym flat)
                  (Holding-grow hash _ (sealed ++ [] ∷ []) (insert_all b.staged index) memory grown
                    (subst
                      (λ f.
                        Holding hash (going.sealed ++ f ∷ []) (insert_all b.staged index) memory)
                      bare going.holding));
          },
          (omega (arith, room.0), omega (arith, length-append b.files ([] ∷ []), room.1)),
        )

    open_next-After :
        (b : Attempt) (size count : ℕ) (es : List Event)
        → Going hash base index memory b
        → b.pending ≡ []
        → Room size (suc count) b
        → After hash base index memory size count (open_next b es)
    open_next-After b size count [] going flat room =
        new_segment-After b size count [] going flat room
    open_next-After b size count (works ∷ es) going flat room =
        new_segment-After b size count es going flat room
    open_next-After b size count (fails n ∷ es) going flat room =
        subst (Extends base) (sym going.files_are)
          (Extends-trans base _ _ going.kept (Extends-last going.sealed going.front going.rest))

    continue :
        (size count : ℕ) (r : Step)
        → Flushed hash base index memory size (suc count) r
        → After hash base index memory size count (r >>= λ b. open_next b b.events)
    continue size count (ok b) ((going, room), flat) =
        open_next-After b size count b.events going flat room
    continue size count (err b) kept = kept

    roll-After :
        (a : Attempt) (size count : ℕ)
        → Going hash base index memory a
        → Room size (suc count) a
        → After hash base index memory size count (roll a)
    roll-After a size count going room =
        continue size count (flush_pending a)
          (flush_pending-Flushed hash base index memory size (suc count) a going room)

    stage-After :
        (payload : Bytes) (size count : ℕ) (r : Step)
        → IsId (hash payload)
        → Fits payload
        → After hash base index memory (record_len (length payload) + size) count r
        → After hash base index
            (insert (hash payload) payload memory)
            size
            count
            (r >>= λ b. ok (stage (hash payload) payload b))
    stage-After payload size count (ok a) is_id fits (going, room) =
        stage-Going hash base index memory a going payload size count is_id fits room
    stage-After payload size count (err a) is_id fits kept = kept

    append_record-After :
        (a : Attempt) (payload : Bytes) (roll_bytes size count : ℕ)
        → IsId (hash payload)
        → Fits payload
        → Going hash base index memory a
        → Room (record_len (length payload) + size) (suc count) a
        → After hash base index
            (insert (hash payload) payload memory)
            size
            count
            (append_record roll_bytes (hash payload) payload a)
    unfolding append_record
    append_record-After a payload roll_bytes size count is_id fits going room =
        let id = hash payload in
        let more = record_len (length payload) + size in
        let After' = After hash base index (insert id payload memory) size count in
        let full =
          ltb roll_bytes (wrap (a.tail + length (encode_record id payload))) && ltb 0 a.tail in
        elim (Bool-cases full) [
          | inl rolls ↦ subst After' (sym (if_true full _ _ rolls)) (
              stage-After payload size count (roll a) is_id fits
                (roll-After a more count going room))
          | inr stays ↦ subst After' (sym (if_false full _ _ stays)) (
              stage-Going hash base index memory a going payload size count is_id fits
                (room.0, omega (arith, room.1)))
        ]

  -- The bytes that payloads take in segments.
  unfoldable pub total_size : List Bytes → ℕ
  total_size [] = 0
  total_size (payload ∷ payloads) = record_len (length payload) + total_size payloads

  abbrev pub Storable : Bytes → Type 0
  Storable payload = IsId (hash payload) × Fits payload

  module _ (device : Location → Bool) (store : BlockStore) (base : List Bytes) where
    skip :
        (memory : Map BlockId Bytes) (a : Attempt) (id : BlockId)
        → Going hash base store.index memory a
        → (present hash device store false a.files id || is_staged id a.staged)
          ≡ contains_key id memory
    unfolding present
    skip memory a id going =
        sym (contains_key-insert_all a.staged store.index id)
        ∙ contains_key-Holding hash _ (insert_all a.staged store.index) memory id going.holding

    put_one-After :
        (memory : Map BlockId Bytes) (a : Attempt) (payload : Bytes) (size count : ℕ)
        → Storable payload
        → Going hash base store.index memory a
        → Room (record_len (length payload) + size) (suc count) a
        → After hash base store.index
            (remember hash payload memory)
            size
            count
            (put_one hash device store false (hash payload) payload a)
    unfolding put_one remember
    put_one-After memory a payload size count (is_id, fits) going room =
        let id = hash payload in
        let Step' =
          λ (m : Map BlockId Bytes) (r : Step). After hash base store.index m size count r in
        let known = contains_key id memory in
        let found = present hash device store false a.files id || is_staged id a.staged in
        elim (Bool-cases known) [
          | inl old ↦
              subst
                (λ m. Step' m (if found then ok a else append_record store.roll_bytes id payload a))
                (sym (if_true known _ _ old))
                (subst (Step' memory) (sym (if_true found _ _ (skip memory a id going ∙ old)))
                  (going, (omega (arith, room.0), omega (arith, room.1))))
          | inr new ↦
              subst
                (λ m. Step' m (if found then ok a else append_record store.roll_bytes id payload a))
                (sym (if_false known _ _ new))
                (subst (Step' (insert id payload memory))
                  (sym (if_false found _ _ (skip memory a id going ∙ new)))
                  (append_record-After base store.index memory a payload store.roll_bytes size count
                    is_id fits going room))
        ]

    pub put_each-After :
        (payloads : List Bytes) (memory : Map BlockId Bytes) (size count : ℕ) (a : Attempt)
        → All Storable payloads
        → Going hash base store.index memory a
        → Room (total_size payloads + size) (length payloads + count) a
        → After hash base store.index
            (remember_all hash payloads memory)
            size
            count
            (put_each hash device store false payloads a)
    unfolding put_each remember_all total_size id_of
    put_each-After [] memory size count a fits going room =
        (going, (omega (arith, room.0), omega (arith, room.1)))
    put_each-After (payload ∷ payloads) memory size count a (fit, fits) going room =
        elim (put_one hash device store false (hash payload) payload a)
            as (λ r.
              After hash base store.index (remember hash payload memory)
                (total_size payloads + size) (length payloads + count) r
              → After hash base store.index
                  (remember_all hash payloads (remember hash payload memory)) size count
                  (r >>= λ b. put_each hash device store false payloads b)) [
                    | ok b ↦ λ (now, left).
                        put_each-After payloads (remember hash payload memory) size count b fits now
                          left
                    | err b ↦ λ kept. kept
                  ]
          (put_one-After memory a payload (total_size payloads + size) (length payloads + count) fit
            going (omega (arith, room.0), omega (arith, room.1)))
