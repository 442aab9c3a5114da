-- ===== src/Control/Status.antt =====
-- The life of an upload lease (crates/kalpak-control/src/leases.rs): what it is at a moment, and
-- which changes a request may make.
pub mod Steps
pub mod Life
use kalpakdb.Prelude.{
  ◌≡◌, refl, Bool, true, false, not, Option, none, some, Bytes, nat_eq, list_eq, if◌then◌else◌,
  arith,
}
use kalpakdb.Prelude.Map.{get, contains_key}
use kalpakdb.Core.Key.{BlockId}
use kalpakdb.Control.Types.{UploadLease, LeaseState}
use kalpakdb.Control.Leases.{is_committed, is_expired}

pub data Status : Type 0 where
  absent pending committed cancelled expired : Status

status_of : LeaseState → BlockId → UploadLease → Status
status_of l id lease =
    if is_committed lease
    then committed
    else if contains_key id l.cancelled
    then cancelled
    else if is_expired l id
    then expired
    else pending

unfoldable pub status : LeaseState → BlockId → Status
unfolding status_of
status l id = elim (get id l.records) [ none ↦ absent | some lease ↦ status_of l id lease ]

-- A lease is reserved once, and then ends at most once, in one of three ways.
pub data Move : Status → Status → Type 0 where
  stay : {a b : Status} → a ≡ b → Move a b
  reserve : Move absent pending
  commit : Move pending committed
  cancel : Move pending cancelled
  expire : Move pending expired

abbrev pub allowed : Status → Status → Bool
allowed absent absent = true
allowed absent pending = true
allowed absent _ = false
allowed pending absent = false
allowed pending _ = true
allowed committed committed = true
allowed committed _ = false
allowed cancelled cancelled = true
allowed cancelled _ = false
allowed expired expired = true
allowed expired _ = false

pub allowed-Move : (a b : Status) → allowed a b ≡ true → Move a b
allowed-Move absent absent h = stay refl
allowed-Move absent pending h = reserve
allowed-Move absent b h = stay (ground arith)
allowed-Move pending pending h = stay refl
allowed-Move pending committed h = commit
allowed-Move pending cancelled h = cancel
allowed-Move pending expired h = expire
allowed-Move pending absent h = stay (ground arith)
allowed-Move a b h = stay (ground arith)

abbrev pub IsTerminal : Status → Type 0
IsTerminal absent = ⊥
IsTerminal pending = ⊥
IsTerminal _ = Unit {0}

pub Move-terminal : {a b : Status} → Move a b → IsTerminal a → b ≡ a
Move-terminal (stay e) t = ground arith
Move-terminal reserve t = absurd t
Move-terminal commit t = absurd t
Move-terminal cancel t = absurd t
Move-terminal expire t = absurd t
