-- ===== src/Storage/Segment/Scan.antt =====
-- What the scan of a segment finds (crates/kalpak-storage/src/segment.rs).
use mathlib.Core.List.{append_assoc, append-nil}
use kalpakdb.Prelude.{
  ℕ, zero, suc, ◌+◌, ◌*◌, ◌/◌, ◌<◌, ◌≤◌, ◌≡◌, inl, inr, refl, sym, ap, ◌∙◌, subst, none, some, List,
  [], ◌∷◌, ◌++◌, Bytes, ltb, length, take, All, length-append, arith,
}
use kalpakdb.Storage.Segment.{
  record_len, encode_record, RecordHeader, parse_header, Location, scan_from, scan, wrap,
}
use kalpakdb.Storage.Segment.Record.{length-encode_record}
use kalpakdb.Storage.Segment.Steps.{
  if_false, le_or_lt, le_ltb, Record, segment_bytes, locations, RecordFits, Found, after_scan,
  parsed_step, Ends, Small, parse_header-encode_record, scan_tail, record_step, too_short, cut_off,
}

scan_records :
    (rs : List Record) (front tail : Bytes) (fuel segment : ℕ)
    → All RecordFits rs
    → Ends tail
    → Small (front ++ (segment_bytes rs ++ tail))
    → length rs ≤ fuel
    → scan_from (suc fuel) (front ++ (segment_bytes rs ++ tail)) segment (length front)
      ≡ some (locations segment (length front) rs, length front + length (segment_bytes rs))
unfolding segment_bytes locations
scan_records [] front tail fuel segment fits ends small enough =
    scan_tail front tail fuel segment ends small
    ∙ ap {B = Found} (λ (k : ℕ). some ([], k)) (omega arith)
scan_records (r ∷ rs) front tail zero segment fits ends small enough = absurd (omega arith)
scan_records (r ∷ rs) front tail (suc fuel) segment (fit, fits) ends small enough =
    let here = encode_record r.0 r.1 in
    let later = segment_bytes rs in
    let found : RecordHeader = record { id = r.0; payload_len = length r.1 } in
    let placed : Location = record {
      segment = segment;
      offset = length front;
      payload_len = length r.1;
    } in
    let moved = append_assoc here later tail in
    let small' = subst (λ t. Small (front ++ t)) moved small in
    let joined = sym (append_assoc front here (later ++ tail)) in
    let offset : length front + record_len (length r.1) ≡ length (front ++ here) =
      omega (arith, length-append front here, length-encode_record r.0 r.1 fit.0 fit.1) in
    ap (λ t. scan_from (suc (suc fuel)) (front ++ t) segment (length front)) moved
    ∙ record_step front (later ++ tail) r (suc fuel) segment fit small'
    ∙ ap (after_scan segment (length front) found) (
        ap (λ f. scan_from (suc fuel) f segment (length front + record_len (length r.1))) joined
        ∙ ap (scan_from (suc fuel) ((front ++ here) ++ (later ++ tail)) segment) offset
        ∙ scan_records rs (front ++ here) tail fuel segment fits ends (subst Small joined small')
            (omega arith))
    ∙ ap {B = Found} (λ (k : ℕ). some ((r.0, placed) ∷ locations segment k rs, k + length later))
        (sym offset)
    ∙ ap {B = Found}
        (λ (k : ℕ).
          some ((r.0, placed) ∷ locations segment (length front + record_len (length r.1)) rs, k))
        (omega (arith, length-append here later, length-encode_record r.0 r.1 fit.0 fit.1))

record_len-block : (n : ℕ) → n < 9223372036854775808 → 4096 ≤ record_len n
unfolding record_len
record_len-block n h = omega arith

blocks_le : (rs : List Record) → All RecordFits rs → 4096 * length rs ≤ length (segment_bytes rs)
unfolding segment_bytes
blocks_le [] fits = omega arith
blocks_le (r ∷ rs) (fit, fits) = omega (
  arith,
  blocks_le rs fits,
  record_len-block (length r.1) fit.1,
  length-encode_record r.0 r.1 fit.0 fit.1,
  length-append (encode_record r.0 r.1) (segment_bytes rs),
)

pub scan-segment_bytes :
    (rs : List Record) (tail : Bytes) (segment : ℕ)
    → All RecordFits rs
    → Ends tail
    → Small (segment_bytes rs ++ tail)
    → scan (segment_bytes rs ++ tail) segment
      ≡ some (locations segment 0 rs, length (segment_bytes rs))
unfolding scan
scan-segment_bytes rs tail segment fits ends small =
    let file = segment_bytes rs ++ tail in
    let fuel : length rs ≤ length file / 4096 + 1 =
      omega (arith, blocks_le rs fits, length-append (segment_bytes rs) tail) in
    let counted : length file / 4096 + 2 ≡ suc (length file / 4096 + 1) = omega arith in
    ap (λ k. scan_from k file segment 0) counted
    ∙ scan_records rs [] tail (length file / 4096 + 1) segment fits ends small fuel
    ∙ ap {B = Found} (λ (k : ℕ). some (locations segment 0 rs, k)) (omega arith)

pub length-take_le : (n : ℕ) (b : Bytes) → length (take n b) ≤ n
length-take_le zero b = omega arith
length-take_le (suc n) [] = omega arith
length-take_le (suc n) (x ∷ b) = omega (arith, length-take_le n b)

take-take : (k n : ℕ) (b : Bytes) → k ≤ n → take k (take n b) ≡ take k b
take-take zero n b h = refl
take-take (suc k) zero b h = absurd (omega arith)
take-take (suc k) (suc n) [] h = refl
take-take (suc k) (suc n) (x ∷ b) h = ap (λ l. x ∷ l) (take-take k n b (omega arith))

torn-Ends :
    (r : Record) (n : ℕ)
    → RecordFits r
    → n < length (encode_record r.0 r.1)
    → Ends (take n (encode_record r.0 r.1))
torn-Ends (id, payload) n (h, fits) short = elim (le_or_lt 64 n) [
  | inr few ↦ too_short (omega (arith, few, length-take_le n (encode_record id payload)))
  | inl long ↦
      cut_off (record { id = id; payload_len = length payload })
        (ap parse_header (take-take 64 n (encode_record id payload) long)
          ∙ ap (λ t. parse_header (take 64 t)) (sym (append-nil (encode_record id payload)))
          ∙ parse_header-encode_record id payload [] h fits)
        (omega (
          arith,
          short,
          length-take_le n (encode_record id payload),
          length-encode_record id payload h fits,
        ))
        fits
]

-- When the last record of a segment is cut off at any byte, a scan finds all records before it
-- and ends where they end, under the same bounds on ids, payloads and file.
pub scan-torn :
    (rs : List Record) (r : Record) (n segment : ℕ)
    → All RecordFits rs
    → RecordFits r
    → n < length (encode_record r.0 r.1)
    → Small (segment_bytes rs ++ take n (encode_record r.0 r.1))
    → scan (segment_bytes rs ++ take n (encode_record r.0 r.1)) segment
      ≡ some (locations segment 0 rs, length (segment_bytes rs))
scan-torn rs r n segment fits fit short small =
    scan-segment_bytes rs (take n (encode_record r.0 r.1)) segment fits (torn-Ends r n fit short)
      small

-- A scan of a file (of 64 bytes at least, and below 2^62) whose first header asks for a record
-- whose size wraps to zero never ends: no amount of fuel is enough.
pub scan_from-stuck :
    (file : Bytes) (found : RecordHeader) (segment fuel : ℕ)
    → Small file
    → 64 ≤ length file
    → parse_header (take 64 file) ≡ some found
    → record_len found.payload_len ≡ 0
    → scan_from fuel file segment 0 ≡ none
unfolding scan_from
scan_from-stuck file found segment zero small long parsed stuck = refl
scan_from-stuck file found segment (suc fuel) small long parsed stuck =
    let again : wrap (0 + record_len found.payload_len) ≡ 0 = omega (arith, stuck) in
    parsed_step fuel file segment 0 (some found) (le_ltb _ _ (omega (arith, long, small))) parsed
    ∙ if_false (ltb (length file) (wrap (0 + record_len found.payload_len))) _ _
        (le_ltb (length file) (wrap (0 + record_len found.payload_len)) (omega (arith, again)))
    ∙ ap (λ k. after_scan segment 0 found (scan_from fuel file segment k)) again
    ∙ ap (after_scan segment 0 found)
        (scan_from-stuck file found segment fuel small long parsed stuck)
