-- ===== src/Daemon/Retention.antt =====
-- crates/kalpakdb/src/retention.rs: the journal of upload guards, and the exclusion of writers and
-- release checks. BLAKE3 is the parameter `hash`. The order of a `HashSet` is that of the batch
-- here. A write that fails leaves any number of its bytes. Counts of living guards do not wrap.
pub mod Counts
pub mod Entering
pub mod Exclusion
pub mod Journal
pub mod Reopen
pub mod Batches
pub mod Protecting
use kalpakdb.Prelude.{
  ℕ, zero, suc, ◌+◌, ◌-◌, ◌*◌, Bool, true, false, not, ◌&&◌, ◌||◌, Option, none, some, List, [],
  ◌∷◌, ◌++◌, Bytes, ltb, leb, eqb, if◌then◌else◌, length, is_empty, take, drop, replicate, contains,
  any, checked_add, unwrap_or, Result, ok, err, list_eq, nat_eq, option_eq, ◌==◌,
}
use kalpakdb.Prelude.Map.{Map, get, insert, remove, contains_key}
use kalpakdb.Core.Key.{BlockId, to_le_bytes}
use kalpakdb.Storage.Segment.{from_le_bytes}
use kalpakdb.Storage.Store.Writing.{Event, works, fails}

abbrev pub header_size : ℕ
header_size = 56

abbrev pub max_batch : ℕ
max_batch = 4096

abbrev pub max_ids : ℕ
max_ids = 1048576

abbrev pub max_bytes : ℕ
max_bytes = 134217728

pub data Error : Type 0 where
  invalid : Error
  capacity : Error
  needs_restart : Error
  would_block : Error
  exhausted : Error
  stale : Error
  io : Error

pub record State : Type 0 where
  pub file : Bytes
  pub ids : Map BlockId ℕ
  pub sequence : ℕ
  pub bytes : ℕ
  pub failed : Bool
  pub active : Map BlockId ℕ
  pub release_checks : List BlockId

abbrev pub magic_1 : Bytes
magic_1 = b'K' ∷ b'L' ∷ b'P' ∷ b'K' ∷ b'U' ∷ b'L' ∷ b'0' ∷ b'1' ∷ []

abbrev pub magic_2 : Bytes
magic_2 = b'K' ∷ b'L' ∷ b'P' ∷ b'K' ∷ b'U' ∷ b'L' ∷ b'0' ∷ b'2' ∷ []

-- `as_chunks::<32>` of so many chunks, and the bytes of ids.
abbrev pub chunks : ℕ → Bytes → List BlockId
chunks zero bytes = []
chunks (suc n) bytes = take 32 bytes ∷ chunks n (drop 32 bytes)

abbrev pub joined_ids : List BlockId → Bytes
joined_ids [] = []
joined_ids (id ∷ ids) = id ++ joined_ids ids

abbrev pub guard_all : List BlockId → ℕ → Map BlockId ℕ → Map BlockId ℕ
guard_all [] sequence m = m
guard_all (id ∷ ids) sequence m = guard_all ids sequence (insert id sequence m)

-- The set of the ids of a batch.
abbrev pub distinct_ids : List BlockId → List BlockId
distinct_ids [] = []
distinct_ids (id ∷ ids) =
    let rest = distinct_ids ids in if contains id rest then rest else id ∷ rest

abbrev pub count_fresh : List BlockId → Map BlockId ℕ → ℕ
count_fresh [] m = 0
count_fresh (id ∷ ids) m = (if contains_key id m then 0 else 1) + count_fresh ids m

-- One writer more for each id.
unfoldable pub enter : List BlockId → Map BlockId ℕ → Map BlockId ℕ
enter [] active = active
enter (id ∷ ids) active = enter ids (insert id (unwrap_or (get id active) 0 + 1) active)

pub record Entry : Type 0 where
  pub entry_ids : List BlockId
  pub next : ℕ
  pub size : ℕ

-- What the loop knows: the ids, the sequence and the bytes of whole records.
pub record Replayed : Type 0 where
  pub found : Map BlockId ℕ
  pub last : ℕ
  pub valid : ℕ

module _ (hash : Bytes → Bytes) where
  -- The first 24 bytes of a header.
  abbrev pub header_start : ℕ → ℕ → Bytes
  header_start count next =
      magic_2 ++ (to_le_bytes 4 count ++ (replicate 4 0 ++ to_le_bytes 8 next))

  abbrev pub body_of : List BlockId → Bytes
  body_of ids = joined_ids ids ++ hash (joined_ids ids)

  unfoldable pub encode_entry : List BlockId → ℕ → Bytes
  encode_entry ids next =
      let start = header_start (length ids) next in start ++ (hash start ++ body_of ids)

  abbrev pub header_bad : Bytes → Bool
  header_bad header =
      (not (take 8 header == magic_1) && not (take 8 header == magic_2))
      || not (take 4 (drop 12 header) == replicate 4 0)
      || not (hash (take 24 header) == take 32 (drop 24 header))

  -- `checked_add` on the sequence; a batch has at least one id.
  abbrev pub numbers_bad : ℕ → ℕ → ℕ → Bool
  numbers_bad count sequence next =
      not (ltb 0 count && leb count max_batch) || not (checked_add sequence 1 == some next)

  abbrev pub read_body : ℕ → ℕ → Bytes → Result Error (Option Entry)
  read_body count next rest =
      if ltb (length rest) (count * 32 + 32)
      then ok none
      else if not (hash (take (count * 32) rest) == take 32 (drop (count * 32) rest))
      then err invalid
      else ok (
          some (record {
            entry_ids = chunks count (take (count * 32) rest);
            next = next;
            size = header_size + (count * 32 + 32);
          }))

  -- One turn of the loop of `open`: `none` is a record that is cut off.
  unfoldable pub read_guard : ℕ → Bytes → Result Error (Option Entry)
  unfolding from_le_bytes
  read_guard sequence rest =
      if ltb (length rest) header_size
      then ok none
      else if header_bad (take header_size rest)
      then err invalid
      else let count = from_le_bytes (take 4 (drop 8 rest)) in
        let next = from_le_bytes (take 8 (drop 16 rest)) in
        if numbers_bad count sequence next
        then err invalid
        else read_body count next (drop header_size rest)

  unfoldable pub replay_journal : ℕ → Bytes → Replayed → Result Error Replayed
  unfolding read_guard
  replay_journal zero rest r = err io
  replay_journal (suc fuel) rest r = elim (read_guard r.last rest) [
    | err e ↦ err e
    | ok none ↦ ok r
    | ok (some entry) ↦
        if ltb max_ids (length (guard_all entry.entry_ids entry.next r.found))
        then err capacity
        else replay_journal fuel (drop entry.size rest) (record {
          found = guard_all entry.entry_ids entry.next r.found;
          last = entry.next;
          valid = r.valid + entry.size;
        })
  ]

  abbrev opened_state : Bytes → Result Error Replayed → Result Error State
  opened_state file (err e) = err e
  opened_state file (ok r) = ok (record {
    file = take r.valid file;
    ids = r.found;
    sequence = r.last;
    bytes = r.valid;
    failed = false;
    active = [];
    release_checks = [];
  })

  -- A record takes more than 56 bytes, so there are fewer turns than bytes.
  unfoldable pub open_journal : Bytes → Result Error State
  unfolding replay_journal
  open_journal file =
      if ltb max_bytes (length file)
      then err capacity
      else opened_state file
          (replay_journal (suc (length file)) file (record { found = []; last = 0; valid = 0 }))

  -- The answer to `protect`: the ids of the guard.
  abbrev pub Protected : Type 0
  Protected = State × Result Error (List BlockId)

  abbrev pub commit_entry : State → List BlockId → ℕ → Protected
  commit_entry s requested next = (
    record s {
      file = s.file ++ encode_entry requested next;
      sequence = next;
      bytes = s.bytes + (header_size + length requested * 32 + 32);
      ids = guard_all requested next s.ids;
      active = enter requested s.active;
    },
    ok requested,
  )

  -- The write and the sync.
  abbrev pub write_guard : State → List BlockId → ℕ → List Event → Protected
  write_guard s requested next [] = commit_entry s requested next
  write_guard s requested next (fails n ∷ es) =
      (record s { file = s.file ++ take n (encode_entry requested next); failed = true }, err io)
  write_guard s requested next (works ∷ []) = commit_entry s requested next
  write_guard s requested next (works ∷ works ∷ es) = commit_entry s requested next
  write_guard s requested next (works ∷ fails n ∷ es) =
      (record s { file = s.file ++ encode_entry requested next; failed = true }, err io)

  abbrev pub journal_full : State → List BlockId → Bool
  journal_full s requested =
      ltb max_ids (length s.ids + count_fresh requested s.ids)
      || ltb max_bytes (s.bytes + (header_size + length requested * 32 + 32))

  abbrev pub protect_next : State → List BlockId → Option ℕ → List Event → Protected
  protect_next s requested none es = (s, err exhausted)
  protect_next s requested (some next) es =
      if journal_full s requested then (s, err capacity) else write_guard s requested next es

  unfoldable pub protect : List BlockId → List Event → State → Protected
  unfolding encode_entry enter
  protect ids es s =
      let requested = distinct_ids ids in
      if ltb max_batch (length ids)
      then (s, err capacity)
      else if s.failed
      then (s, err needs_restart)
      else if any (λ id. contains id s.release_checks) requested
      then (s, err would_block)
      else if is_empty requested
      then (s, ok requested)
      else protect_next s requested (checked_add s.sequence 1) es

-- The drop of a write guard; `none` is the panic on an id that is not registered.
unfoldable pub leave : List BlockId → Map BlockId ℕ → Option (Map BlockId ℕ)
leave [] active = some active
leave (id ∷ ids) active = elim (get id active) [
  | none ↦ none
  | some count ↦
      leave ids (if eqb (count - 1) 0 then remove id active else insert id (count - 1) active)
]

abbrev pub without : BlockId → List BlockId → List BlockId
without id [] = []
without id (j ∷ ids) = let rest = without id ids in if j == id then rest else j ∷ rest

-- The drop of a release check.
abbrev pub end_check : BlockId → State → State
end_check id s = record s { release_checks = without id s.release_checks }

unfoldable pub try_release_check : BlockId → ℕ → State → State × Result Error BlockId
try_release_check id generation s =
    if s.failed
    then (s, err needs_restart)
    else if eqb generation 0 || not (get id s.ids == some generation)
    then (s, err stale)
    else if contains_key id s.active || contains id s.release_checks
    then (s, err would_block)
    else (record s { release_checks = id ∷ s.release_checks }, ok id)

pub record Evidence : Type 0 where
  pub guarded : Bool
  pub local_generation : Option ℕ
  pub active_local_writes : ℕ
  pub local_release_check : Bool
  pub journal_sequence : ℕ
  pub write_failed : Bool

unfoldable pub evidence : BlockId → State → Evidence
evidence id s = record {
  guarded = contains_key id s.ids;
  local_generation = get id s.ids;
  active_local_writes = unwrap_or (get id s.active) 0;
  local_release_check = contains id s.release_checks;
  journal_sequence = s.sequence;
  write_failed = s.failed;
}

pub record JournalStatus : Type 0 where
  pub guarded_blocks : ℕ
  pub journal_bytes : ℕ
  pub max_guarded_blocks : ℕ
  pub max_journal_bytes : ℕ
  pub journal_failed : Bool
  pub automatic_expiry : Bool
  pub gc_enabled : Bool

-- The reason why collection is blocked is a constant string, left out.
unfoldable pub journal_status : State → JournalStatus
journal_status s = record {
  guarded_blocks = length s.ids;
  journal_bytes = s.bytes;
  max_guarded_blocks = max_ids;
  max_journal_bytes = max_bytes;
  journal_failed = s.failed;
  automatic_expiry = false;
  gc_enabled = false;
}
