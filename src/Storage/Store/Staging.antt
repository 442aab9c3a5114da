-- ===== src/Storage/Store/Staging.antt =====
-- One record more in `put_many_inner` of crates/kalpak-storage/src/store.rs, beside an ideal
-- memory that has one payload more.
use mathlib.Core.List.{append_assoc}
use kalpakdb.Prelude.{
  ℕ, ◌+◌, ◌≡◌, refl, sym, ap, ◌∙◌, subst, Bool, true, false, Option, none, some, List, [], ◌∷◌,
  ◌++◌, Bytes, length, length-append, arith, list_eq, nat_eq, ◌==◌, if◌then◌else◌, ◌||◌, ==_iff,
  is_some,
}
use kalpakdb.Prelude.Map.{Map, get, insert, contains_key, get-insert}
use kalpakdb.Core.Key.{BlockId}
use kalpakdb.Core.Signing.Injective.{IsId}
use kalpakdb.Storage.Segment.{Location, encode_record, record_len}
use kalpakdb.Storage.Segment.Record.{Fits, length-encode_record}
use kalpakdb.Storage.Store.Writing.{Attempt, stage, insert_all, is_staged}
use kalpakdb.Storage.Store.Layout.{Holds, Extends-last, Holds-new}
use kalpakdb.Storage.Store.Batch.{Consecutive, joined, Consecutive-snoc, joined-append}
use kalpakdb.Storage.Store.Going.{Room, Entry, Holding, Holding-grow, Going}

insert_all-snoc :
    (staged : List (BlockId × Location)) (index : Map BlockId Location) (id : BlockId)
    (loc : Location)
    → insert_all (staged ++ (id, loc) ∷ []) index ≡ insert id loc (insert_all staged index)
unfolding insert_all
insert_all-snoc [] index id loc = refl
insert_all-snoc ((i, l) ∷ staged) index id loc = insert_all-snoc staged (insert i l index) id loc

-- A block is in the published index when it is in the old one or staged.
pub contains_key-insert_all :
    (staged : List (BlockId × Location)) (index : Map BlockId Location) (id : BlockId)
    → contains_key id (insert_all staged index) ≡ (contains_key id index || is_staged id staged)
unfolding insert_all
contains_key-insert_all [] index id = ground arith
contains_key-insert_all ((i, l) ∷ staged) index id =
    ground (arith, contains_key-insert_all staged (insert i l index) id, get-insert i id l index)

module _ (hash : Bytes → Bytes) where
  -- The ideal memory: what was put is there, the first payload of an id stays.
  unfoldable pub remember : Bytes → Map BlockId Bytes → Map BlockId Bytes
  remember payload memory =
      if contains_key (hash payload) memory then memory else insert (hash payload) payload memory

  unfoldable pub remember_all : List Bytes → Map BlockId Bytes → Map BlockId Bytes
  remember_all [] memory = memory
  remember_all (payload ∷ payloads) memory = remember_all payloads (remember payload memory)

  entry_if :
      (b : Bool) (files : List Bytes) (id : BlockId) (loc : Location) (payload : Bytes)
      (found : Option Location) (ideal : Option Bytes)
      → (b ≡ true → Holds files loc payload × (hash payload ≡ id))
      → Entry hash files id found ideal
      → Entry hash files id (if b then some loc else found) (if b then some payload else ideal)
  entry_if true files id loc payload found ideal here there = here refl
  entry_if false files id loc payload found ideal here there = there

  entry_some :
      (files : List Bytes) (id : BlockId) (found : Option Location) (ideal : Option Bytes)
      → Entry hash files id found ideal
      → is_some found ≡ is_some ideal
  entry_some files id none none e = refl
  entry_some files id none (some payload) e = absurd e
  entry_some files id (some loc) none e = absurd e
  entry_some files id (some loc) (some payload) e = refl

  pub Holding-insert :
      (files : List Bytes) (index : Map BlockId Location) (memory : Map BlockId Bytes)
      (id : BlockId) (loc : Location) (payload : Bytes)
      → Holding hash files index memory
      → Holds files loc payload
      → hash payload ≡ id
      → Holding hash files (insert id loc index) (insert id payload memory)
  Holding-insert files index memory id loc payload h held hashed j =
      subst (λ o. Entry hash files j o (get j (insert id payload memory)))
        (sym (get-insert id j loc index))
        (subst (Entry hash files j (if id == j then some loc else get j index))
          (sym (get-insert id j payload memory))
          (entry_if (id == j) files j loc payload (get j index) (get j memory)
            (λ e. (held, hashed ∙ (==_iff id j).0 e)) (h j)))

  pub contains_key-Holding :
      (files : List Bytes) (index : Map BlockId Location) (memory : Map BlockId Bytes)
      (id : BlockId)
      → Holding hash files index memory
      → contains_key id index ≡ contains_key id memory
  contains_key-Holding files index memory id h =
      entry_some files id (get id index) (get id memory) (h id)

  module _ (base : List Bytes) (index : Map BlockId Location) (memory : Map BlockId Bytes) where
    module _ (a : Attempt) (going : Going hash base index memory a) where
      staged_front : Bytes
      staged_front = going.front ++ joined a.pending

      abbrev place : Bytes → Location
      place payload = record { segment = a.active; offset = a.tail; payload_len = length payload }

      here : length staged_front ≡ a.tail
      unfolding staged_front
      here = omega (arith, going.tail_is, length-append going.front (joined a.pending))

      -- The files as they will be with the pending records and the new one.
      abbrev files_with : Bytes → List Bytes
      files_with payload =
          going.sealed ++ (staged_front ++ encode_record (hash payload) payload) ∷ []

      held_new :
          (payload : Bytes)
          → IsId (hash payload)
          → Holds (files_with payload) (place payload) payload
      held_new payload is_id =
          let files = files_with payload in
          let n = length payload in
          subst
            (λ k. Holds files (record { segment = k; offset = a.tail; payload_len = n }) payload)
            (sym going.active_is)
            (subst
              (λ o.
                Holds files (record { segment = length going.sealed; offset = o; payload_len = n })
                  payload)
              here (Holds-new going.sealed staged_front (hash payload) payload is_id))

      longer :
          (encoded : Bytes)
          → going.front ++ joined (a.pending ++ (a.tail, encoded) ∷ []) ≡ staged_front ++ encoded
      unfolding staged_front
      longer encoded =
          ap (λ t. going.front ++ t) (joined-append a.pending a.tail encoded)
          ∙ sym (append_assoc going.front (joined a.pending) encoded)

      staged-Holding :
          (payload : Bytes)
          → IsId (hash payload)
          → Holding hash
              (going.sealed
                ++ (going.front
                    ++ joined (a.pending ++ (a.tail, encode_record (hash payload) payload) ∷ []))
                  ∷ [])
              (insert_all (a.staged ++ (hash payload, place payload) ∷ []) index)
              (insert (hash payload) payload memory)
      unfolding staged_front
      staged-Holding payload is_id =
          let id = hash payload in
          let later = insert id payload memory in
          let grown = Extends-last going.sealed staged_front (encode_record id payload) in
          subst
            (λ f.
              Holding hash (going.sealed ++ f ∷ [])
                (insert_all (a.staged ++ (id, place payload) ∷ []) index) later)
            (sym (longer (encode_record id payload)))
            (subst (λ i. Holding hash (files_with payload) i later)
              (sym (insert_all-snoc a.staged index id (place payload)))
              (Holding-insert (files_with payload) (insert_all a.staged index) memory id
                (place payload) payload
                (Holding-grow hash _ (files_with payload) (insert_all a.staged index) memory grown
                  going.holding)
                (held_new payload is_id) refl))

      pub stage-Going :
          (payload : Bytes) (size count : ℕ)
          → IsId (hash payload)
          → Fits payload
          → Room (record_len (length payload) + size) count a
          → Going hash base index
              (insert (hash payload) payload memory)
              (stage (hash payload) payload a)
            × Room size count (stage (hash payload) payload a)
      unfolding stage staged_front
      stage-Going payload size count is_id fits room =
          let encoded = encode_record (hash payload) payload in
          let sized = length-encode_record (hash payload) payload is_id fits in
          let total = length-append going.front (joined (a.pending ++ (a.tail, encoded) ∷ [])) in
          let whole = ap length (longer encoded) ∙ length-append staged_front encoded in
          (
            record {
              sealed = going.sealed;
              front = going.front;
              rest = going.rest;
              files_are = going.files_are;
              in_line =
                  subst (λ o. Consecutive (length going.front) (a.pending ++ (o, encoded) ∷ []))
                    (sym going.tail_is)
                    (Consecutive-snoc (length going.front) a.pending encoded going.in_line);
              tail_is = omega (arith, room.0, sized, total, whole, here);
              active_is = going.active_is;
              kept = going.kept;
              holding = staged-Holding payload is_id;
            },
            (omega (arith, room.0, sized), room.1),
          )
