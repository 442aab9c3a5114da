-- ===== src/Storage/Segment/Steps.antt =====
-- The steps of the scan over a segment (crates/kalpak-storage/src/segment.rs).
use mathlib.Core.List.{append_assoc}
use kalpakdb.Prelude.{
  ℕ, suc, ◌+◌, ◌<◌, ◌≤◌, ◌≡◌, ◌⊎◌, inl, inr, refl, sym, ap, ◌∙◌, Bool, true, false, Option, none,
  some, List, [], ◌∷◌, ◌++◌, Bytes, if◌then◌else◌, ltb, length, take, drop, length-append,
  take_append, drop_append, arith,
}
use kalpakdb.Core.Key.{BlockId}
use kalpakdb.Core.Signing.Injective.{IsId}
use kalpakdb.Storage.Segment.{
  record_len, encode_record, RecordHeader, parse_header, Location, scan_from, wrap,
}
use kalpakdb.Storage.Segment.Record.{
  Fits, record_len-covers, length-encode_record, header_of, body_of, encode_record-split,
  length-header_of, parse_header-header_of,
}

pub if_true : {A : Type 0} (b : Bool) (x y : A) → b ≡ true → (if b then x else y) ≡ x
if_true true x y e = refl
if_true false x y e = absurd (ground arith)

pub if_false : {A : Type 0} (b : Bool) (x y : A) → b ≡ false → (if b then x else y) ≡ y
if_false true x y e = absurd (ground arith)
if_false false x y e = refl

pub le_or_lt : (a b : ℕ) → (a ≤ b) ⊎ (b < a)
le_or_lt a b = ground arith

pub lt_ltb : (a b : ℕ) → a < b → ltb a b ≡ true
lt_ltb a b h = ground arith

pub le_ltb : (a b : ℕ) → b ≤ a → ltb a b ≡ false
le_ltb a b h = ground arith

abbrev pub Record : Type 0
Record = BlockId × Bytes

unfoldable pub segment_bytes : List Record → Bytes
segment_bytes [] = []
segment_bytes (r ∷ rs) = encode_record r.0 r.1 ++ segment_bytes rs

-- Where the records lie, from an offset on, and where they end.
unfoldable pub locations : ℕ → ℕ → List Record → List (BlockId × Location)
locations segment offset [] = []
locations segment offset (r ∷ rs) =
    (r.0, record { segment = segment; offset = offset; payload_len = length r.1 })
    ∷ locations segment (offset + record_len (length r.1)) rs

abbrev pub RecordFits : Record → Type 0
RecordFits r = IsId r.0 × Fits r.1

abbrev pub Found : Type 0
Found = Option (List (BlockId × Location) × ℕ)

abbrev pub after_scan : ℕ → ℕ → RecordHeader → Found → Found
after_scan segment offset found result = elim result [
  | none ↦ none
  | some rest ↦ some (
    (found.id, record { segment = segment; offset = offset; payload_len = found.payload_len })
        ∷ rest.0,
    rest.1,
  )
]

abbrev after_parse : ℕ → Bytes → ℕ → ℕ → Option RecordHeader → Found
after_parse fuel file segment offset parsed = elim parsed [
  | none ↦ some ([], offset)
  | some found ↦
      if ltb (length file) (wrap (offset + record_len found.payload_len))
      then some ([], offset)
      else after_scan segment offset found
          (scan_from fuel file segment (wrap (offset + record_len found.payload_len)))
]

pub parsed_step :
    (fuel : ℕ) (file : Bytes) (segment offset : ℕ) (parsed : Option RecordHeader)
    → ltb (length file) (wrap (offset + 64)) ≡ false
    → parse_header (take 64 (drop offset file)) ≡ parsed
    → scan_from (suc fuel) file segment offset ≡ after_parse fuel file segment offset parsed
unfolding scan_from
parsed_step fuel file segment offset parsed long e =
    if_false (ltb (length file) (wrap (offset + 64))) _ _ long
    ∙ ap (after_parse fuel file segment offset) e

short_step :
    (fuel : ℕ) (file : Bytes) (segment offset : ℕ)
    → ltb (length file) (wrap (offset + 64)) ≡ true
    → scan_from (suc fuel) file segment offset ≡ some ([], offset)
unfolding scan_from
short_step fuel file segment offset short =
    if_true (ltb (length file) (wrap (offset + 64))) _ _ short

-- What a scan does not take for a record: fewer bytes than a header, bytes that are no header, or a
-- header of a record that is cut off.
pub data Ends (tail : Bytes) : Type 0 where
  too_short : length tail < 64 → Ends tail
  no_header : parse_header (take 64 tail) ≡ none → Ends tail
  cut_off :
      (found : RecordHeader)
      → parse_header (take 64 tail) ≡ some found
      → length tail < record_len found.payload_len
      → found.payload_len < 9223372036854775808
      → Ends tail

-- A file of less than 2^62 bytes; nothing in a scan of it wraps but the size of a record.
abbrev pub Small : Bytes → Type 0
Small file = length file < 4611686018427387904

header_there :
    (front tail : Bytes)
    → Small (front ++ tail)
    → 64 ≤ length tail
    → ltb (length (front ++ tail)) (wrap (length front + 64)) ≡ false
header_there front tail small long =
    le_ltb _ _ (omega (arith, small, long, length-append front tail))

parsed_at :
    (front tail : Bytes) (parsed : Option RecordHeader)
    → parse_header (take 64 tail) ≡ parsed
    → parse_header (take 64 (drop (length front) (front ++ tail))) ≡ parsed
parsed_at front tail parsed e = ap (λ t. parse_header (take 64 t)) (drop_append front tail) ∙ e

cut_step :
    (front tail : Bytes) (n : ℕ)
    → Small (front ++ tail)
    → length tail < record_len n
    → n < 9223372036854775808
    → ltb (length (front ++ tail)) (wrap (length front + record_len n)) ≡ true
cut_step front tail n small short low =
    let covers = record_len-covers n low in
    lt_ltb _ _ (omega (arith, covers, small, short, length-append front tail))

-- The first 64 bytes of an encoded record with a 32-byte id and a payload below 2^63 bytes,
-- whatever follows the record, parse to that id and the length of the payload.
pub parse_header-encode_record :
    (id : BlockId) (payload rest : Bytes)
    → IsId id
    → Fits payload
    → parse_header (take 64 (encode_record id payload ++ rest))
      ≡ some (record { id = id; payload_len = length payload })
parse_header-encode_record id payload rest h fits =
    ap (λ t. parse_header (take 64 (t ++ rest))) (encode_record-split id payload)
    ∙ ap (λ t. parse_header (take 64 t))
        (append_assoc (header_of id payload) (body_of payload) rest)
    ∙ ap parse_header (
        ap (λ k. take k (header_of id payload ++ (body_of payload ++ rest)))
          (sym (length-header_of id payload h))
        ∙ take_append (header_of id payload) (body_of payload ++ rest))
    ∙ parse_header-header_of id payload h fits

short_tail :
    (front tail : Bytes) (fuel segment : ℕ)
    → length tail < 64
    → Small (front ++ tail)
    → scan_from (suc fuel) (front ++ tail) segment (length front) ≡ some ([], length front)
short_tail front tail fuel segment h small =
    short_step fuel (front ++ tail) segment (length front)
      (lt_ltb _ _ (omega (arith, h, length-append front tail, small)))

pub scan_tail :
    (front tail : Bytes) (fuel segment : ℕ)
    → Ends tail
    → Small (front ++ tail)
    → scan_from (suc fuel) (front ++ tail) segment (length front) ≡ some ([], length front)
scan_tail front tail fuel segment (too_short h) small = short_tail front tail fuel segment h small
scan_tail front tail fuel segment (no_header h) small = elim (le_or_lt 64 (length tail)) [
  | inl long ↦
      parsed_step fuel (front ++ tail) segment (length front) none
        (header_there front tail small long) (parsed_at front tail none h)
  | inr short ↦ short_tail front tail fuel segment short small
]
scan_tail front tail fuel segment (cut_off found h short low) small =
    elim (le_or_lt 64 (length tail)) [
      | inl long ↦
          parsed_step fuel (front ++ tail) segment (length front) (some found)
            (header_there front tail small long) (parsed_at front tail (some found) h)
          ∙ if_true _ _ _ (cut_step front tail found.payload_len small short low)
      | inr few ↦ short_tail front tail fuel segment few small
    ]

-- A record in the middle of a file: the scan yields it and goes on after it.
pub record_step :
    (front rest : Bytes) (r : Record) (fuel segment : ℕ)
    → RecordFits r
    → Small (front ++ (encode_record r.0 r.1 ++ rest))
    → scan_from (suc fuel) (front ++ (encode_record r.0 r.1 ++ rest)) segment (length front)
      ≡ after_scan segment
          (length front)
          (record { id = r.0; payload_len = length r.1 })
          (scan_from fuel
            (front ++ (encode_record r.0 r.1 ++ rest))
            segment
            (length front + record_len (length r.1)))
record_step front rest (id, payload) fuel segment (h, fits) small =
    let found : RecordHeader = record { id = id; payload_len = length payload } in
    let tail = encode_record id payload ++ rest in
    let covers = record_len-covers (length payload) fits in
    let size = length-encode_record id payload h fits in
    let sizes = length-append (encode_record id payload) rest in
    let there = header_there front tail small (omega (arith, covers, size, sizes)) in
    parsed_step fuel (front ++ tail) segment (length front) (some found) there
      (parsed_at front tail (some found) (parse_header-encode_record id payload rest h fits))
    ∙ if_false (ltb (length (front ++ tail)) (wrap (length front + record_len (length payload)))) _
        _
        (le_ltb (length (front ++ tail)) (wrap (length front + record_len (length payload)))
          (omega (arith, covers, size, sizes, small, length-append front tail)))
    ∙ ap (λ k. after_scan segment (length front) found (scan_from fuel (front ++ tail) segment k))
        (omega (arith, covers, size, sizes, small, length-append front tail))
