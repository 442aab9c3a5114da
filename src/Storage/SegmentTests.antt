-- ===== src/Storage/SegmentTests.antt =====
-- Concrete records for crates/kalpak-storage/src/segment.rs, and the properties of a scan there.
use kalpakdb.Prelude.{
  ◌≡◌, refl, none, some, [], ◌∷◌, ◌++◌, Bytes, length, take, replicate, arith, length-append,
}
use kalpakdb.Storage.Segment.{
  encode_record, parse_header, record_len, RecordHeader, scan, scan_from, segment_magic,
  from_le_bytes,
}
use kalpakdb.Storage.Segment.Record.{length-encode_record}
use kalpakdb.Storage.Segment.Steps.{Record, RecordFits, segment_bytes, locations}
use kalpakdb.Storage.Segment.Scan.{scan-torn, scan_from-stuck, length-take_le}

abbrev record_1 : Record
record_1 = (replicate 32 7, 1 ∷ 2 ∷ 3 ∷ [])

abbrev record_2 : Record
record_2 = (replicate 32 8, 9 ∷ [])

record_1-RecordFits : RecordFits record_1
record_1-RecordFits = (refl, omega arith)

record_2-RecordFits : RecordFits record_2
record_2-RecordFits = (refl, omega arith)

length-one : length (segment_bytes (record_1 ∷ [])) ≡ 4096
unfolding segment_bytes record_len
length-one = omega (
  arith,
  length-encode_record record_1.0 record_1.1 refl (omega arith),
  length-append (encode_record record_1.0 record_1.1) [],
)

length-second : length (encode_record record_2.0 record_2.1) ≡ 4096
unfolding record_len
length-second = omega (arith, length-encode_record record_2.0 record_2.1 refl (omega arith))

scan-torn_example :
    scan (segment_bytes (record_1 ∷ []) ++ take 100 (encode_record record_2.0 record_2.1)) 5
    ≡ some (locations 5 0 (record_1 ∷ []), length (segment_bytes (record_1 ∷ [])))
scan-torn_example =
    scan-torn (record_1 ∷ []) record_2 100 5 (record_1-RecordFits, tt) record_2-RecordFits
      (omega (arith, length-second))
      (omega (
        arith,
        length-one,
        length-take_le 100 (encode_record record_2.0 record_2.1),
        length-append (segment_bytes (record_1 ∷ []))
            (take 100 (encode_record record_2.0 record_2.1)),
      ))

-- A header with the payload length 2^64 - 64.
abbrev huge : Bytes
huge = segment_magic ++ (1 ∷ 0 ∷ 0 ∷ 0 ∷ 192 ∷ replicate 7 255) ++ replicate 48 0

abbrev huge_header : RecordHeader
huge_header = record { id = replicate 32 0; payload_len = 18446744073709551552 }

scan_from-stuck_example : scan_from 1000 huge 0 0 ≡ none
unfolding parse_header from_le_bytes record_len
scan_from-stuck_example =
    scan_from-stuck huge huge_header 0 1000 (omega arith) (omega arith) refl refl
