-- ===== src/Storage/StoreTests.antt =====
-- A concrete block store for crates/kalpak-storage/src/store.rs; the hash of bytes is the bytes.
use kalpakdb.Prelude.{
  List, take, ◌≡◌, refl, Bool, true, false, [], ◌∷◌, ◌++◌, Bytes, replicate, ok, arith, ℕ, All, ◌<◌,
}
use kalpakdb.Core.Key.{verify}
use kalpakdb.Storage.Segment.{Location, record_len}
use kalpakdb.Storage.Store.{BlockStore, get_block, verify_all}
use kalpakdb.Storage.Store.Writing.{works, fails, put_many}
use kalpakdb.Storage.Store.Refines.{Tracks}
use kalpakdb.Storage.Store.Loop.{total_size}
use kalpakdb.Storage.Store.History.{Call, puts, gets, Ideal, run, run-Ideal}
use kalpakdb.Storage.Store.Working.{IsStored, put_many-works}
use kalpakdb.Storage.Store.Recorded.{Segment}
use kalpakdb.Core.Key.{BlockId}
use kalpakdb.Prelude.Map.{Map, get}
use kalpakdb.Storage.Store.Verified.{get_block-verified, verify_all-clean}

abbrev same : Bytes → Bytes
same bytes = bytes

abbrev healthy : Location → Bool
healthy loc = true

abbrev place : Location
place = record { segment = 0; offset = 0; payload_len = 2 }

abbrev one_block : BlockStore
one_block = record {
  index = (8 ∷ 9 ∷ [], place) ∷ [];
  files = (replicate 64 0 ++ (8 ∷ 9 ∷ [])) ∷ [];
  append = 66;
  roll_bytes = 268435456;
  write_failed = false;
}

get_block-verified_example : same (8 ∷ 9 ∷ []) ≡ 8 ∷ 9 ∷ []
unfolding get_block get verify
get_block-verified_example =
    get_block-verified same healthy one_block (8 ∷ 9 ∷ []) (8 ∷ 9 ∷ []) refl

verify_all-clean_example :
    (payload : Bytes) × ((get_block same healthy one_block (8 ∷ 9 ∷ []) ≡ ok payload)
      × (same payload ≡ 8 ∷ 9 ∷ []))
unfolding verify_all get_block get verify
verify_all-clean_example = verify_all-clean same healthy one_block (8 ∷ 9 ∷ []) place refl refl

-- An id of 32 bytes: the first bytes of a payload.
abbrev padded : Bytes → Bytes
padded bytes = take 32 (bytes ++ replicate 32 0)

abbrev empty_store : BlockStore
empty_store = record {
  index = [];
  files = [] ∷ [];
  append = 0;
  roll_bytes = 268435456;
  write_failed = false;
}

abbrev first_payload : Bytes
first_payload = 1 ∷ 2 ∷ []

-- A batch that is written, one whose second write fails, and a get of a block of each.
abbrev some_calls : List Call
some_calls =
    puts (first_payload ∷ []) []
    ∷ puts ((3 ∷ []) ∷ (4 ∷ []) ∷ []) (works ∷ fails 70 ∷ [])
    ∷ gets (padded first_payload)
    ∷ gets (padded (3 ∷ []))
    ∷ []

empty_Tracks :
    (size count : ℕ)
    → size < 9223372036854775808
    → count < 4294967295
    → Tracks padded size count empty_store []
unfolding get
empty_Tracks size count size_fits count_fits = (
  λ id. tt,
  λ e. record {
    sealed = [];
    front = [];
    rest = [];
    files_are = refl;
    append_is = refl;
    holding = λ id. tt;
    bytes_fit = omega (arith, size_fits);
    files_fit = omega (arith, count_fits);
  },
)

run-Ideal_example :
    (later : Map BlockId Bytes) × Ideal padded [] some_calls
      (run padded healthy empty_store some_calls)
      later
unfolding total_size record_len
run-Ideal_example =
    run-Ideal padded healthy (λ loc. refl) some_calls empty_store []
      (((refl, omega arith), tt), (((refl, omega arith), ((refl, omega arith), tt)), tt))
      (empty_Tracks 12288 3 (omega arith) (omega arith))

put_many-works_example :
    let p = put_many padded healthy empty_store (first_payload ∷ []) [] in
    (p.reply ≡ ok (padded first_payload ∷ []))
    × All (λ payload. IsStored padded healthy p.store (padded payload)) (first_payload ∷ [])
unfolding total_size record_len
put_many-works_example =
    put_many-works padded healthy empty_store (first_payload ∷ []) [] 0 0 (λ loc. refl) refl
      ((refl, omega arith), tt) (empty_Tracks 4096 1 (omega arith) (omega arith))

-- A segment with two records of one id, and the beginning of a third.
abbrev old_segment : Segment
old_segment =
    ((padded first_payload, first_payload) ∷ (padded first_payload, first_payload) ∷ [], 0 ∷ [])
