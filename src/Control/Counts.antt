-- ===== src/Control/Counts.antt =====
-- `status_counts` of crates/kalpak-control/src/leases.rs. The subtraction on usize wraps, as in a
-- release build.
use kalpakdb.Prelude.{
  ℕ, ◌+◌, ◌-◌, ◌%◌, Bool, [], ◌∷◌, if◌then◌else◌, length, is_some, list_eq, nat_eq,
}
use kalpakdb.Prelude.Map.{Map}
use kalpakdb.Core.Key.{BlockId}
use kalpakdb.Control.Types.{UploadLease, LeaseState}
use kalpakdb.Control.Leases.{is_expired}

pub record LeaseStatusCounts : Type 0 where
  pub total : ℕ
  pub pending : ℕ
  pub committed_count : ℕ
  pub cancelled_count : ℕ
  pub expired_count : ℕ
  pub current_tick : ℕ
  pub expiry_markers : ℕ

-- How many records pass a test.
abbrev pub count_records : (BlockId → UploadLease → Bool) → Map BlockId UploadLease → ℕ
count_records test [] = 0
count_records test ((id, lease) ∷ records) =
    (if test id lease then 1 else 0) + count_records test records

unfoldable pub status_counts : LeaseState → LeaseStatusCounts
unfolding is_expired
status_counts l =
    let committed_now = count_records (λ id lease. is_some lease.committed) l.records in
    let expired_now = count_records (λ id lease. is_expired l id) l.records in
    record {
      total = length l.records;
      pending =
          (length l.records
            + 55340232221128654848
            - committed_now
            - expired_now
            - length l.cancelled)
          % 18446744073709551616;
      committed_count = committed_now;
      cancelled_count = length l.cancelled;
      expired_count = expired_now;
      current_tick = l.clock;
      expiry_markers = length l.expired;
    }
