-- ===== src/Storage/Store/Layout.antt =====
-- Where payloads lie in the segment files of a block store (crates/kalpak-storage/src/store.rs).
use mathlib.Core.List.{append_assoc, append-nil}
use kalpakdb.Prelude.{
  ◌&&◌, not, list_eq, nat_eq, ◌==◌, ==_iff, Result, err, ℕ, zero, suc, ◌+◌, ◌≡◌, refl, sym, ap, ◌∙◌,
  Bool, true, false, Option, none, some, List, [], ◌∷◌, ◌++◌, Bytes, length, take, replicate,
  length-append, arith, ltb, ok, unwrap_or, ◌-◌,
}
use kalpakdb.Prelude.Map.{get}
use kalpakdb.Core.Key.{BlockId, verify, id_of}
use kalpakdb.Core.Signing.Injective.{IsId}
use kalpakdb.Storage.Segment.{Location, encode_record, record_len}
use kalpakdb.Storage.Segment.Record.{
  header_of, body_of, encode_record-split, length-header_of, drop_front, take_front,
}
use kalpakdb.Storage.Segment.Steps.{le_ltb, if_true}
use kalpakdb.Storage.Store.{
  file_at, read_payload, get_block, Error, block_not_found, panicked, checked, BlockStore,
}
use kalpakdb.Storage.Store.Writing.{last_file, set_last}

-- Each file of the first list is the beginning of the same file of the second.
abbrev pub Extends : List Bytes → List Bytes → Type 0
Extends [] gs = Unit
Extends (f ∷ fs) [] = ⊥
Extends (f ∷ fs) (g ∷ gs) = ((more : Bytes) × (g ≡ f ++ more)) × Extends fs gs

-- The payload stands at its place in the files.
abbrev pub Holds : List Bytes → Location → Bytes → Type 0
Holds files loc payload =
    (front : Bytes) × ((rest : Bytes) × ((file_at loc.segment files
          ≡ some (front ++ (payload ++ rest)))
        × ((length front ≡ loc.offset + 64) × (length payload ≡ loc.payload_len))))

pub Extends-refl : (fs : List Bytes) → Extends fs fs
Extends-refl [] = tt
Extends-refl (f ∷ fs) = (([], sym (append-nil f)), Extends-refl fs)

pub Extends-trans : (fs gs hs : List Bytes) → Extends fs gs → Extends gs hs → Extends fs hs
Extends-trans [] gs hs a b = tt
Extends-trans (f ∷ fs) [] hs a b = absurd a
Extends-trans (f ∷ fs) (g ∷ gs) [] a b = absurd b
Extends-trans (f ∷ fs) (g ∷ gs) (h ∷ hs) ((m, e), a) ((n, q), b) =
    ((m ++ n, q ∙ ap (λ t. t ++ n) e ∙ append_assoc f m n), Extends-trans fs gs hs a b)

pub Extends-append : (fs gs : List Bytes) → Extends fs (fs ++ gs)
Extends-append [] gs = tt
Extends-append (f ∷ fs) gs = (([], sym (append-nil f)), Extends-append fs gs)

-- The last file grows.
pub Extends-last : (fs : List Bytes) (f m : Bytes) → Extends (fs ++ f ∷ []) (fs ++ (f ++ m) ∷ [])
Extends-last [] f m = ((m, refl), tt)
Extends-last (g ∷ fs) f m = (([], sym (append-nil g)), Extends-last fs f m)

file_at-Extends :
    (n : ℕ) (fs gs : List Bytes) (f : Bytes)
    → Extends fs gs
    → file_at n fs ≡ some f
    → (more : Bytes) × (file_at n gs ≡ some (f ++ more))
unfolding file_at
file_at-Extends n [] gs f a e = absurd (ground arith)
file_at-Extends n (h ∷ fs) [] f a e = absurd a
file_at-Extends zero (h ∷ fs) (g ∷ gs) f ((m, q), a) e =
    (m, ap {B = Option Bytes} some q ∙ ap {B = Option Bytes} (λ o. some (unwrap_or o h ++ m)) e)
file_at-Extends (suc n) (h ∷ fs) (g ∷ gs) f ((m, q), a) e = file_at-Extends n fs gs f a e

pub Holds-grow :
    (fs gs : List Bytes) (loc : Location) (payload : Bytes)
    → Extends fs gs
    → Holds fs loc payload
    → Holds gs loc payload
Holds-grow fs gs loc payload a (front, (rest, (e, sizes))) =
    let (more, q) = file_at-Extends loc.segment fs gs (front ++ (payload ++ rest)) a e in
    (
      front,
      (
        rest ++ more,
        (
          q
              ∙ ap {B = Option Bytes} some (
                  append_assoc front (payload ++ rest) more
                  ∙ ap (λ t. front ++ t) (append_assoc payload rest more)),
          sizes,
        ),
      ),
    )

file_at-last : (fs : List Bytes) (f : Bytes) → file_at (length fs) (fs ++ f ∷ []) ≡ some f
unfolding file_at
file_at-last [] f = refl
file_at-last (g ∷ fs) f = file_at-last fs f

pub last_file-last : (fs : List Bytes) (f : Bytes) → last_file (fs ++ f ∷ []) ≡ f
unfolding last_file
last_file-last [] f = refl
last_file-last (g ∷ []) f = refl
last_file-last (g ∷ h ∷ fs) f = last_file-last (h ∷ fs) f

pub set_last-last :
    (g : Bytes) (fs : List Bytes) (f : Bytes) → set_last g (fs ++ f ∷ []) ≡ fs ++ g ∷ []
unfolding set_last
set_last-last g [] f = refl
set_last-last g (h ∷ []) f = refl
set_last-last g (h ∷ k ∷ fs) f = ap (λ l. h ∷ l) (set_last-last g (k ∷ fs) f)

pub length-set_last : (g : Bytes) (fs : List Bytes) → length (set_last g fs) ≡ length fs
unfolding set_last
length-set_last g [] = refl
length-set_last g (f ∷ []) = refl
length-set_last g (f ∷ h ∷ fs) = ap suc (length-set_last g (h ∷ fs))

-- A record that is put at the end of the last file.
pub Holds-new :
    (fs : List Bytes) (front : Bytes) (id : BlockId) (payload : Bytes)
    → IsId id
    → Holds
        (fs ++ (front ++ encode_record id payload) ∷ [])
        (record { segment = length fs; offset = length front; payload_len = length payload })
        payload
Holds-new fs front id payload h = (
  front ++ header_of id payload,
  (
    replicate (record_len (length payload) - (64 + length payload)) 0,
    (
      file_at-last fs _
          ∙ ap {B = Option Bytes} some (
              ap (λ t. front ++ t) (encode_record-split id payload)
              ∙ sym (append_assoc front (header_of id payload) (body_of payload))),
      (
        omega (arith, length-append front (header_of id payload), length-header_of id payload h),
        refl,
      ),
    ),
  ),
)

module _ (hash : Bytes → Bytes) (device : Location → Bool) where
  read_payload-front :
      (loc : Location) (front payload rest : Bytes)
      → device loc ≡ true
      → length front ≡ loc.offset + 64
      → length payload ≡ loc.payload_len
      → read_payload hash device loc (front ++ (payload ++ rest)) ≡ ok payload
  unfolding read_payload
  read_payload-front loc front payload rest healthy at size =
      let file = front ++ (payload ++ rest) in
      let enough : ltb (length file) (loc.offset + 64 + loc.payload_len) ≡ false = le_ltb _ _ (
        omega
          (arith, at, size, length-append front (payload ++ rest), length-append payload rest)) in
      if_true (device loc && not (ltb (length file) (loc.offset + 64 + loc.payload_len))) _ _
        (ground (arith, healthy, enough))
      ∙ ap {B = Result Error Bytes} ok (
          ap (take loc.payload_len) (drop_front (loc.offset + 64) front (payload ++ rest) at)
          ∙ take_front loc.payload_len payload rest size)

  abbrev after_file : BlockId → Location → Option Bytes → Result Error Bytes
  after_file id loc found = elim found [
    | none ↦ err panicked
    | some file ↦ checked hash device id (read_payload hash device loc file)
  ]

  abbrev after_lookup : BlockStore → BlockId → Option Location → Result Error Bytes
  after_lookup store id found = elim found [
    | none ↦ err (block_not_found id)
    | some loc ↦ after_file id loc (file_at loc.segment store.files)
  ]

  pub get_block-missing :
      (store : BlockStore) (id : BlockId)
      → get id store.index ≡ none
      → get_block hash device store id ≡ err (block_not_found id)
  unfolding get_block
  get_block-missing store id unknown = ap (after_lookup store id) unknown

  checked-hashed :
      (id : BlockId) (payload : Bytes)
      → hash payload ≡ id
      → checked hash device id (ok payload) ≡ ok payload
  unfolding checked verify id_of
  checked-hashed id payload hashed =
      if_true (hash payload == id) _ _ ((==_iff (hash payload) id).1 hashed)

  -- What is held is what a get returns, from a device that reads.
  pub get_block-Holds :
      (store : BlockStore) (id : BlockId) (loc : Location) (payload : Bytes)
      → device loc ≡ true
      → get id store.index ≡ some loc
      → Holds store.files loc payload
      → hash payload ≡ id
      → get_block hash device store id ≡ ok payload
  unfolding get_block
  get_block-Holds store id loc payload healthy known (front, (rest, (e, (at, size)))) hashed =
      ap (after_lookup store id) known
      ∙ ap (after_file id loc) e
      ∙ ap (checked hash device id) (read_payload-front loc front payload rest healthy at size)
      ∙ checked-hashed id payload hashed
