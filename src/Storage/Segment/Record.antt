-- ===== src/Storage/Segment/Record.antt =====
-- A record's header reads back (crates/kalpak-storage/src/segment.rs).
use native.Mathlib.Nat.{pow-suc}
use mathlib.Core.List.{append_assoc}
use kalpakdb.Prelude.{
  ℕ, zero, suc, ◌+◌, ◌-◌, ◌/◌, ◌^◌, ◌<◌, ◌≤◌, ◌≡◌, sym, ap, ◌∙◌, Option, some, ◌++◌, Bytes, length,
  take, drop, replicate, length-append, length-replicate, take_append, drop_append, arith,
}
use kalpakdb.Core.Key.{BlockId, to_le_bytes}
use kalpakdb.Core.Signing.Injective.{length-to_le_bytes, IsId}
use kalpakdb.Storage.Segment.{
  record_len, encode_record, RecordHeader, from_le_bytes, parse_header, segment_magic,
  format_version,
}

pub from_le_bytes-to_le_bytes : (w n : ℕ) → n < 256 ^ w → from_le_bytes (to_le_bytes w n) ≡ n
unfolding from_le_bytes to_le_bytes
from_le_bytes-to_le_bytes zero n h = omega arith
from_le_bytes-to_le_bytes (suc w) n h =
    let bound = pow-suc 256 w in
    omega (arith, from_le_bytes-to_le_bytes w (n / 256) (omega (arith, bound)))

-- A payload of less than 2^63 bytes: its record's size does not wrap.
abbrev pub Fits : Bytes → Type 0
Fits payload = length payload < 9223372036854775808

pub record_len-covers :
    (n : ℕ) → n < 9223372036854775808 → (64 + n ≤ record_len n) × (record_len n < 64 + n + 4096)
unfolding record_len
record_len-covers n h = (omega arith, omega arith)

pub length-encode_record :
    (id : BlockId) (payload : Bytes)
    → IsId id
    → Fits payload
    → length (encode_record id payload) ≡ record_len (length payload)
unfolding encode_record
length-encode_record id payload h fits =
    let covers = record_len-covers (length payload) fits in
    simp (length-append, length-to_le_bytes, length-replicate, h) (omega (arith, covers))

-- The first bytes of a record, and the rest.
abbrev pub header_of : BlockId → Bytes → Bytes
header_of id payload =
    segment_magic
    ++ (to_le_bytes 4 format_version ++ (to_le_bytes 8 (length payload) ++ (id ++ replicate 16 0)))

abbrev pub body_of : Bytes → Bytes
body_of payload = payload ++ replicate (record_len (length payload) - (64 + length payload)) 0

pub encode_record-split :
    (id : BlockId) (payload : Bytes)
    → encode_record id payload ≡ header_of id payload ++ body_of payload
unfolding encode_record
encode_record-split id payload = simp append_assoc

pub length-header_of :
    (id : BlockId) (payload : Bytes) → IsId id → length (header_of id payload) ≡ 64
length-header_of id payload h =
    simp (length-append, length-to_le_bytes, length-replicate, h) (omega arith)

pub take_front : (n : ℕ) (a b : Bytes) → length a ≡ n → take n (a ++ b) ≡ a
take_front n a b e = ap (λ k. take k (a ++ b)) (sym e) ∙ take_append a b

pub drop_front : (n : ℕ) (a b : Bytes) → length a ≡ n → drop n (a ++ b) ≡ b
drop_front n a b e = ap (λ k. drop k (a ++ b)) (sym e) ∙ drop_append a b

-- The header of an encoded record with a 32-byte id and a payload below 2^63 bytes parses to
-- that id and the length of the payload.
pub parse_header-header_of :
    (id : BlockId) (payload : Bytes)
    → IsId id
    → Fits payload
    → parse_header (header_of id payload) ≡ some (record { id = id; payload_len = length payload })
unfolding parse_header to_le_bytes from_le_bytes
parse_header-header_of id payload h fits =
    let n = length payload in
    ap {B = Option RecordHeader}
      (λ (i : BlockId). some (record { id = i; payload_len = from_le_bytes (to_le_bytes 8 n) }))
      (take_front 32 id (replicate 16 0) h)
    ∙ ap {B = Option RecordHeader} (λ (len : ℕ). some (record { id = id; payload_len = len }))
        (from_le_bytes-to_le_bytes 8 n (omega arith))
