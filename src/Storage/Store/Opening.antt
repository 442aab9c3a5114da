-- ===== src/Storage/Store/Opening.antt =====
-- Recovery of a block store from its segment files (`open_with` of
-- crates/kalpak-storage/src/store.rs).
use kalpakdb.Prelude.{
  ℕ, ◌<◌, ◌≡◌, false, Option, none, some, List, [], ◌∷◌, ◌++◌, Bytes, length, list_eq, nat_eq,
}
use kalpakdb.Prelude.Map.{Map}
use kalpakdb.Core.Key.{BlockId}
use kalpakdb.Storage.Segment.{Location}
use kalpakdb.Storage.Store.{BlockStore}
use kalpakdb.Storage.Store.Writing.{insert_all, open_segments}
use kalpakdb.Storage.Store.Going.{Holding}
use kalpakdb.Storage.Store.Recorded.{Segment}

module _ (hash : Bytes → Bytes) where
  abbrev after_found :
      List (ℕ × Bytes)
      → Map BlockId Location
      → Option (List (BlockId × Location) × ℕ)
      → Option (Map BlockId Location × ℕ)
  after_found segments index result = elim result [
    | none ↦ none
    | some found ↦ open_segments segments (insert_all found.0 index) found.1
  ]

  -- The table of files, and the index beside the memory.
  record Opened (files : List Bytes) (memory : Map BlockId Bytes)
      (result : Option (Map BlockId Location × ℕ)) : Type 0 where
    pub index : Map BlockId Location
    pub sealed : List Bytes
    pub front : Bytes
    pub rest : Bytes
    pub result_is : result ≡ some (index, length front)
    pub files_are : files ≡ sealed ++ (front ++ rest) ∷ []
    pub holding : Holding hash (sealed ++ front ∷ []) index memory
    pub small : length front < 4611686018427387904

  abbrev after_open : ℕ → List Bytes → Option (Map BlockId Location × ℕ) → Option BlockStore
  after_open roll_bytes files result = elim result [
    | none ↦ none
    | some found ↦ some (record {
      index = found.0;
      files = files;
      append = found.1;
      roll_bytes = roll_bytes;
      write_failed = false;
    })
  ]
