-- ===== src/Storage/Store/Verified.antt =====
-- What reading and checking a block store guarantee (crates/kalpak-storage/src/store.rs).
use kalpakdb.Prelude.{
  ℕ, suc, ◌+◌, ◌≡◌, inl, inr, refl, ap, ◌∙◌, subst, Bool, true, some, List, [], ◌∷◌, ◌++◌, Bytes,
  is_empty, length, length-append, Result, ok, err, Option-cases, Bool-cases, ◌==◌, ==_iff, list_eq,
  nat_eq, arith, All,
}
use kalpakdb.Prelude.Map.{Map, get}
use kalpakdb.Core.Key.{BlockId, verify, id_of}
use kalpakdb.Storage.Segment.{Location}
use kalpakdb.Storage.Store.{
  Error, block_not_found, corrupt, io, panicked, BlockStore, VerifyReport, is_clean, file_at, keys,
  checked, get_block, note, verify_ids, verify_all, read_payload,
}

not_clean : (l : List BlockId) (x : BlockId) → is_empty (l ++ x ∷ []) ≡ true → ⊥
not_clean [] x h = absurd (ground arith)
not_clean (y ∷ l) x h = absurd (ground arith)

-- What holds of all keys holds of a key that is found.
key_holds :
    (P : BlockId → Type 0) (m : Map BlockId Location) (id : BlockId) (loc : Location)
    → All P (keys m)
    → get id m ≡ some loc
    → P id
unfolding get
key_holds P [] id loc holds known = absurd (ground arith)
key_holds P ((j, w) ∷ m) id loc (here, later) known = elim (Bool-cases (j == id)) [
  | inl e ↦ subst P ((==_iff j id).0 e) here
  | inr e ↦ key_holds P m id loc later (ground arith)
]

module _ (hash : Bytes → Bytes) (device : Location → Bool) where
  checked-verified :
      (id : BlockId) (r : Result Error Bytes) (payload : Bytes)
      → checked hash device id r ≡ ok payload
      → hash payload ≡ id
  unfolding checked verify id_of
  checked-verified id (err e) payload h = absurd (ground arith)
  checked-verified id (ok found) payload h = elim (Bool-cases (verify hash id found)) [
    | inl e ↦ ground (arith, ==_iff (hash found) id)
    | inr e ↦ absurd (ground arith)
  ]

  -- What a get returns hashes to the id that was asked for, whatever the index and the files
  -- hold.
  pub get_block-verified :
      (store : BlockStore) (id : BlockId) (payload : Bytes)
      → get_block hash device store id ≡ ok payload
      → hash payload ≡ id
  unfolding get_block
  get_block-verified store id payload h = elim (Option-cases (get id store.index)) [
    | inl e ↦ absurd (ground arith)
    | inr (loc, e) ↦ elim (Option-cases (file_at loc.segment store.files)) [
      | inl q ↦ absurd (ground arith)
      | inr (file, q) ↦
          checked-verified id (read_payload hash device loc file) payload (ground arith)
    ]
  ]

  noted : VerifyReport → ℕ
  noted report = report.blocks_checked + length report.corrupt + length report.unreadable

  note-counts :
      (report : VerifyReport) (id : BlockId) (r : Result Error Bytes)
      → noted (note hash device report id r) ≡ noted report + 1
  unfolding note noted
  note-counts report id (ok payload) = omega arith
  note-counts report id (err (block_not_found i)) =
      omega (arith, length-append report.unreadable (id ∷ []))
  note-counts report id (err (corrupt i)) = omega (arith, length-append report.corrupt (i ∷ []))
  note-counts report id (err io) = omega (arith, length-append report.unreadable (id ∷ []))
  note-counts report id (err panicked) = omega (arith, length-append report.unreadable (id ∷ []))

  verify_ids-counts :
      (report : VerifyReport) (store : BlockStore) (ids : List BlockId)
      → noted (verify_ids hash device report store ids) ≡ noted report + length ids
  unfolding verify_ids
  verify_ids-counts report store [] = omega arith
  verify_ids-counts report store (id ∷ ids) =
      let r = get_block hash device store id in
      omega
        (arith, verify_ids-counts (note hash device report id r) store ids, note-counts report id r)

  length-keys : (m : Map BlockId Location) → length (keys m) ≡ length m
  length-keys [] = refl
  length-keys ((id, loc) ∷ m) = ap suc (length-keys m)

  -- A check of all blocks accounts for each entry of the index exactly once: as checked,
  -- corrupt or unreadable.
  pub verify_all-counts :
      (store : BlockStore)
      → let report = verify_all hash device store in
        report.blocks_checked + length report.corrupt + length report.unreadable
        ≡ length store.index
  unfolding verify_all noted
  verify_all-counts store =
      verify_ids-counts
        (record { blocks_checked = 0; bytes_checked = 0; corrupt = []; unreadable = [] }) store
        (keys store.index)
      ∙ omega (arith, length-keys store.index)

  -- The block can be read and hashes to its id.
  abbrev pub IsReadable : BlockStore → BlockId → Type 0
  IsReadable store id = (payload : Bytes) × (get_block hash device store id ≡ ok payload)

  clean-note :
      (report : VerifyReport) (id : BlockId) (r : Result Error Bytes)
      → is_clean (note hash device report id r) ≡ true
      → (is_clean report ≡ true) × ((payload : Bytes) × (r ≡ ok payload))
  unfolding note
  clean-note report id (ok payload) h = (h, (payload, refl))
  clean-note report id (err (block_not_found i)) h =
      absurd (not_clean report.unreadable id (ground arith))
  clean-note report id (err (corrupt i)) h = absurd (not_clean report.corrupt i (ground arith))
  clean-note report id (err io) h = absurd (not_clean report.unreadable id (ground arith))
  clean-note report id (err panicked) h = absurd (not_clean report.unreadable id (ground arith))

  clean-verify_ids :
      (report : VerifyReport) (store : BlockStore) (ids : List BlockId)
      → is_clean (verify_ids hash device report store ids) ≡ true
      → (is_clean report ≡ true) × All (IsReadable store) ids
  unfolding verify_ids
  clean-verify_ids report store [] h = (h, tt)
  clean-verify_ids report store (id ∷ ids) h =
      let r = get_block hash device store id in
      let (first, rest) = clean-verify_ids (note hash device report id r) store ids h in
      let (before, reads) = clean-note report id r first in (before, (reads, rest))

  -- After a clean check of all blocks, every block of the index can be read, and what is read
  -- hashes to its id.
  pub verify_all-clean :
      (store : BlockStore) (id : BlockId) (loc : Location)
      → is_clean (verify_all hash device store) ≡ true
      → get id store.index ≡ some loc
      → (payload : Bytes) × ((get_block hash device store id ≡ ok payload) × (hash payload ≡ id))
  unfolding verify_all
  verify_all-clean store id loc clean known =
      let readable =
        (clean-verify_ids
          (record { blocks_checked = 0; bytes_checked = 0; corrupt = []; unreadable = [] }) store
          (keys store.index) clean).1 in
      let (payload, reads) = key_holds (IsReadable store) store.index id loc readable known in
      (payload, (reads, get_block-verified store id payload reads))
