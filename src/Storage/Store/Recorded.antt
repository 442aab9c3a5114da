-- ===== src/Storage/Store/Recorded.antt =====
-- Records in segment files beside a memory of what they say (crates/kalpak-storage/src/segment.rs,
-- crates/kalpak-storage/src/store.rs).
use mathlib.Core.List.{append_assoc, append-nil}
use kalpakdb.Prelude.{
  ℕ, suc, ◌+◌, ◌≡◌, sym, subst, List, [], ◌∷◌, ◌++◌, Bytes, length, length-append, arith, list_eq,
  nat_eq, All,
}
use kalpakdb.Prelude.Map.{Map, insert}
use kalpakdb.Core.Key.{BlockId}
use kalpakdb.Storage.Segment.{Location, encode_record, record_len}
use kalpakdb.Storage.Segment.Record.{length-encode_record}
use kalpakdb.Storage.Segment.Steps.{Record, segment_bytes, locations, RecordFits, Ends, Small}
use kalpakdb.Storage.Store.Writing.{insert_all}
use kalpakdb.Storage.Store.Layout.{Extends-last, Extends-append, Holds-new}
use kalpakdb.Storage.Store.Going.{Holding, Holding-grow}
use kalpakdb.Storage.Store.Staging.{Holding-insert}

-- A segment: whole records, and bytes after them that are no whole record.
abbrev pub Segment : Type 0
Segment = List Record × Bytes

unfoldable pub bytes_of : Segment → Bytes
unfolding segment_bytes
bytes_of s = segment_bytes s.0 ++ s.1

-- The files of the segments, numbered from `n` on.
unfoldable pub numbered : ℕ → List Segment → List (ℕ × Bytes)
unfolding bytes_of
numbered n [] = []
numbered n (s ∷ segments) = (n, bytes_of s) ∷ numbered (suc n) segments

-- What the records say, the last record of an id counts.
unfoldable pub keep_all : List Record → Map BlockId Bytes → Map BlockId Bytes
keep_all [] memory = memory
keep_all (r ∷ rs) memory = keep_all rs (insert r.0 r.1 memory)

unfoldable pub memory_of : List Segment → Map BlockId Bytes → Map BlockId Bytes
unfolding keep_all
memory_of [] memory = memory
memory_of (s ∷ segments) memory = memory_of segments (keep_all s.0 memory)

module _ (hash : Bytes → Bytes) where
  -- A record's id is the hash of its payload.
  abbrev pub IsRecord : Record → Type 0
  IsRecord r = RecordFits r × (hash r.1 ≡ r.0)

  abbrev pub IsSegment : Segment → Type 0
  IsSegment s = All IsRecord s.0 × (Ends s.1 × Small (bytes_of s))

  pub records_fit : (rs : List Record) → All IsRecord rs → All RecordFits rs
  records_fit [] h = tt
  records_fit (r ∷ rs) (h, hs) = (h.0, records_fit rs hs)

  -- The records of the last file, from some place on.
  keep_all-Holding :
      (rs : List Record) (sealed : List Bytes) (front : Bytes) (index : Map BlockId Location)
      (memory : Map BlockId Bytes)
      → All IsRecord rs
      → Holding hash (sealed ++ front ∷ []) index memory
      → Holding hash
          (sealed ++ (front ++ segment_bytes rs) ∷ [])
          (insert_all (locations (length sealed) (length front) rs) index)
          (keep_all rs memory)
  unfolding segment_bytes locations keep_all insert_all
  keep_all-Holding [] sealed front index memory fit h =
      subst (λ f. Holding hash (sealed ++ f ∷ []) index memory) (sym (append-nil front)) h
  keep_all-Holding ((id, payload) ∷ rs) sealed front index memory (((is_id, fits), hashed), fit) h =
      let encoded = encode_record id payload in
      let placed : Location = record {
        segment = length sealed;
        offset = length front;
        payload_len = length payload;
      } in
      let step : length front + record_len (length payload) ≡ length (front ++ encoded) =
        omega (arith, length-append front encoded, length-encode_record id payload is_id fits) in
      let files = sealed ++ (front ++ encoded) ∷ [] in
      let later = insert id payload memory in
      let one =
        Holding-insert hash files index memory id placed payload
          (Holding-grow hash _ files index memory (Extends-last sealed front encoded) h)
          (Holds-new sealed front id payload is_id) hashed in
      let all =
        keep_all-Holding rs sealed (front ++ encoded) (insert id placed index) later fit one in
      let here : ℕ → Map BlockId Location =
        λ o. insert_all (locations (length sealed) o rs) (insert id placed index) in
      subst
        (λ f.
          Holding hash (sealed ++ f ∷ []) (here (length front + record_len (length payload)))
            (keep_all rs later))
        (append_assoc front encoded (segment_bytes rs))
        (subst
          (λ o.
            Holding hash (sealed ++ ((front ++ encoded) ++ segment_bytes rs) ∷ []) (here o)
              (keep_all rs later))
          (sym step) all)

  -- The records of a new file after the others.
  pub segment_bytes-Holding :
      (s : Segment) (n : ℕ) (sealed : List Bytes) (index : Map BlockId Location)
      (memory : Map BlockId Bytes)
      → All IsRecord s.0
      → n ≡ length sealed
      → Holding hash sealed index memory
      → Holding hash
          (sealed ++ segment_bytes s.0 ∷ [])
          (insert_all (locations n 0 s.0) index)
          (keep_all s.0 memory)
  segment_bytes-Holding s n sealed index memory fit count h =
      subst
        (λ k.
          Holding hash (sealed ++ segment_bytes s.0 ∷ []) (insert_all (locations k 0 s.0) index)
            (keep_all s.0 memory))
        (sym count)
        (keep_all-Holding s.0 sealed [] index memory fit (
          Holding-grow hash sealed (sealed ++ [] ∷ []) index memory
            (Extends-append sealed ([] ∷ [])) h))
