-- ===== src/Storage/Store.antt =====
-- The state and the reading side of crates/kalpak-storage/src/store.rs: the index, `get`,
-- `contains`, `verify_all` and `stats`. BLAKE3 is the parameter `hash`; whether the device can read
-- at a place is the parameter `device`.
pub mod Verified
pub mod Writing
pub mod Compaction
pub mod Layout
pub mod Batch
pub mod Going
pub mod Staging
pub mod Loop
pub mod Refines
pub mod History
pub mod Working
pub mod Recorded
pub mod Opening
use kalpakdb.Prelude.{
  ℕ, zero, suc, ◌+◌, Bool, true, false, not, ◌&&◌, Option, none, some, List, [], ◌∷◌, ◌++◌, Bytes,
  ltb, if◌then◌else◌, length, is_empty, take, drop, Result, ok, err, list_eq, nat_eq, ◌==◌,
}
use kalpakdb.Prelude.Map.{Map, get, contains_key}
use kalpakdb.Core.Key.{BlockId, verify}
use kalpakdb.Storage.Segment.{Location}

-- The errors of `get`; `panicked` stands for an index out of bounds, which is none.
pub data Error : Type 0 where
  block_not_found : BlockId → Error
  corrupt : BlockId → Error
  io : Error
  panicked : Error

-- The segment files as bytes, the active one last.
pub record BlockStore : Type 0 where
  pub index : Map BlockId Location
  pub files : List Bytes
  pub append : ℕ
  pub roll_bytes : ℕ
  pub write_failed : Bool

pub record VerifyReport : Type 0 where
  pub blocks_checked : ℕ
  pub bytes_checked : ℕ
  pub corrupt : List BlockId
  pub unreadable : List BlockId

abbrev pub is_clean : VerifyReport → Bool
is_clean report = is_empty report.corrupt && is_empty report.unreadable

pub record StoreStats : Type 0 where
  pub blocks : ℕ
  pub segments : ℕ
  pub bytes_on_disk : ℕ

unfoldable pub file_at : ℕ → List Bytes → Option Bytes
file_at n [] = none
file_at zero (f ∷ fs) = some f
file_at (suc n) (f ∷ fs) = file_at n fs

unfoldable pub sealed_bytes : List Bytes → ℕ
sealed_bytes [] = 0
sealed_bytes (f ∷ []) = 0
sealed_bytes (f ∷ g ∷ fs) = length f + sealed_bytes (g ∷ fs)

abbrev pub keys : Map BlockId Location → List BlockId
keys [] = []
keys ((id, loc) ∷ m) = id ∷ keys m

unfoldable pub contains_block : BlockStore → BlockId → Bool
contains_block store id = contains_key id store.index

unfoldable pub stats : BlockStore → StoreStats
unfolding sealed_bytes
stats store = record {
  blocks = length store.index;
  segments = length store.files;
  bytes_on_disk = sealed_bytes store.files + store.append;
}

module _ (hash : Bytes → Bytes) (device : Location → Bool) where
  -- `read_at` reads all of the buffer or fails.
  unfoldable pub read_payload : Location → Bytes → Result Error Bytes
  read_payload loc file =
      if device loc && not (ltb (length file) (loc.offset + 64 + loc.payload_len))
      then ok (take loc.payload_len (drop (loc.offset + 64) file))
      else err io

  unfoldable pub checked : BlockId → Result Error Bytes → Result Error Bytes
  checked id (err e) = err e
  checked id (ok payload) = if verify hash id payload then ok payload else err (corrupt id)

  unfoldable pub get_block : BlockStore → BlockId → Result Error Bytes
  unfolding file_at read_payload checked
  get_block store id = elim (get id store.index) [
    | none ↦ err (block_not_found id)
    | some loc ↦ elim (file_at loc.segment store.files) [
      | none ↦ err panicked
      | some file ↦ checked id (read_payload loc file)
    ]
  ]

  -- One turn of the loop of `verify_all`.
  unfoldable pub note : VerifyReport → BlockId → Result Error Bytes → VerifyReport
  note report id (ok payload) = record report {
    blocks_checked = report.blocks_checked + 1;
    bytes_checked = report.bytes_checked + length payload;
  }
  note report id (err (corrupt bad)) = record report { corrupt = report.corrupt ++ bad ∷ [] }
  note report id (err _) = record report { unreadable = report.unreadable ++ id ∷ [] }

  unfoldable pub verify_ids : VerifyReport → BlockStore → List BlockId → VerifyReport
  unfolding note
  verify_ids report store [] = report
  verify_ids report store (id ∷ ids) = verify_ids (note report id (get_block store id)) store ids

  unfoldable pub verify_all : BlockStore → VerifyReport
  unfolding verify_ids
  verify_all store =
      verify_ids (record { blocks_checked = 0; bytes_checked = 0; corrupt = []; unreadable = [] })
        store (keys store.index)
