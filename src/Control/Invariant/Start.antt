-- ===== src/Control/Invariant/Start.antt =====
-- The state of a fresh node (crates/kalpak-control/src/state_machine.rs, `MetadataState::default`)
-- is valid, and so is all that follows from it.
use kalpakdb.Prelude.{refl, Option, List, Bytes, arith}
use kalpakdb.Prelude.Map.{get, sum_values}
use kalpakdb.Core.Key.{CacheKey}
use kalpakdb.Control.Types.{LogId, default_state}
use kalpakdb.Control.Machine.{Entry, apply}
use kalpakdb.Control.Invariant.{IsValid}
use kalpakdb.Control.Invariant.EntryOps.{InOrder, apply-IsValid}

pub default-IsValid :
    {M : Type 0} (to_string : CacheKey → Bytes) (m : M) → IsValid to_string (default_state m)
unfolding get sum_values
default-IsValid to_string m = record {
  sizes = record { few = omega arith; reserved = omega arith; distinct_records = tt };
  lifecycle = record {
    deadline = λ id d g. absurd (ground arith);
    expiry = λ id at g. absurd (ground arith);
    cancellation = λ id at g. ground arith;
    distinct_deadlines = tt;
    distinct_expired = tt;
    distinct_cancelled = tt;
  };
  positions = record {
    created = λ id lease g. absurd (ground arith);
    cancelled_at = λ id at g. absurd (ground arith);
    expired_at = λ id at g. absurd (ground arith);
  };
  owners = record {
    start = λ e. (refl, refl);
    record_ok = λ id lease g. absurd (ground arith);
    bound = λ key r g. absurd (ground arith);
    distinct_revisions = tt;
  };
  fences = record { few = omega arith; past = λ id at g. absurd (ground arith); distinct = tt };
  requirements = record {
    few = omega arith;
    range = λ id n g. absurd (ground arith);
    distinct = tt;
  };
}

-- Whatever entries a fresh node applies, at positions that do not go back, its state is valid.
pub history-IsValid :
    {M P : Type 0} (to_string : CacheKey → Bytes) (stored : Option LogId → P → M) (m : M)
    (es : List (Entry P))
    → InOrder 0 es
    → IsValid to_string (apply to_string stored (default_state m) es).0
history-IsValid to_string stored m es order =
    apply-IsValid to_string stored (default_state m) es (default-IsValid to_string m) order
