-- ===== src/Storage/Segment.antt =====
-- crates/kalpak-storage/src/segment.rs: the records of a segment file and the scan over them.
-- Arithmetic on u64 wraps, as in a release build.
pub mod Record
pub mod Steps
pub mod Scan
use kalpakdb.Prelude.{
  ℕ, zero, suc, ◌+◌, ◌-◌, ◌*◌, ◌/◌, ◌%◌, ◌^◌, Bool, true, false, Option, none, some, List, [], ◌∷◌,
  ◌++◌, Bytes, ◌==◌, Eq, nat_eq, list_eq, ltb, eqb, if◌then◌else◌, length, take, drop, replicate,
}
use kalpakdb.Core.Key.{BlockId, to_le_bytes}

abbrev pub wrap : ℕ → ℕ
wrap n = n % 18446744073709551616

abbrev pub block_align : ℕ
block_align = 4096

abbrev pub header_len : ℕ
header_len = 64

abbrev pub segment_magic : Bytes
segment_magic = b'K' ∷ b'L' ∷ b'P' ∷ b'K' ∷ []

abbrev pub format_version : ℕ
format_version = 1

-- `div_ceil` does not wrap; the sum before it and the product after it do.
unfoldable pub record_len : ℕ → ℕ
record_len payload_len = wrap ((wrap (64 + payload_len) + 4095) / 4096 * 4096)

-- The zeroed buffer with the fields of the header and the payload copied into it.
unfoldable pub encode_record : BlockId → Bytes → Bytes
encode_record id payload =
    segment_magic
    ++ (to_le_bytes 4 format_version
        ++ (to_le_bytes 8 (length payload)
            ++ (id
                ++ (replicate 16 0
                    ++ (payload
                        ++ replicate (record_len (length payload) - (64 + length payload)) 0)))))

pub record RecordHeader : Type 0 where
  pub id : BlockId
  pub payload_len : ℕ

-- `u32::from_le_bytes` and `u64::from_le_bytes`
unfoldable pub from_le_bytes : Bytes → ℕ
from_le_bytes [] = 0
from_le_bytes (b ∷ bs) = b + 256 * from_le_bytes bs

unfoldable pub parse_header : Bytes → Option RecordHeader
parse_header buf =
    if take 4 buf == segment_magic
    then (if eqb (from_le_bytes (take 4 (drop 4 buf))) format_version
        then some (record {
          id = take 32 (drop 16 buf);
          payload_len = from_le_bytes (take 8 (drop 8 buf));
        })
        else none)
    else none

pub record Location : Type 0 where
  pub segment : ℕ
  pub offset : ℕ
  pub payload_len : ℕ

-- The loop of `scan`: the records that it yields, and the offset where valid data ends. `none` is
-- the fuel's end.
unfoldable pub scan_from : ℕ → Bytes → ℕ → ℕ → Option (List (BlockId × Location) × ℕ)
scan_from zero file segment offset = none
scan_from (suc fuel) file segment offset =
    if ltb (length file) (wrap (offset + 64))
    then some ([], offset)
    else elim (parse_header (take 64 (drop offset file))) [
      | none ↦ some ([], offset)
      | some found ↦
          if ltb (length file) (wrap (offset + record_len found.payload_len))
          then some ([], offset)
          else elim (scan_from fuel file segment (wrap (offset + record_len found.payload_len))) [
            | none ↦ none
            | some rest ↦ some (
              (
                found.id,
                record { segment = segment; offset = offset; payload_len = found.payload_len },
              )
                  ∷ rest.0,
              rest.1,
            )
          ]
    ]

-- A step goes forward by at least one block, where sizes do not wrap.
unfoldable pub scan : Bytes → ℕ → Option (List (BlockId × Location) × ℕ)
unfolding scan_from
scan file segment = scan_from (length file / 4096 + 2) file segment 0
