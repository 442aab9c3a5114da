-- ===== src/Control/Invariant/PlaceSteps.antt =====
-- Each change of the leases keeps `Positions` and `Sizes` (crates/kalpak-control/src/leases.rs).
use kalpakdb.Prelude.{ℕ, ◌+◌, ◌≤◌, ◌<◌, ◌≡◌, none, some, nat_eq, list_eq, length, arith, ==_iff}
use kalpakdb.Prelude.Map.{
  Map, get, insert, sum_values, get-insert, Distinct-insert, length-insert, sum_values-insert,
}
use kalpakdb.Core.Key.{BlockId}
use kalpakdb.Control.Types.{UploadLease, LeaseState}
use kalpakdb.Control.Leases.{max_leases, max_reserved_blocks, lease_size}
use kalpakdb.Control.Invariant.{Positions, Sizes}

module _ (now : ℕ) (l : LeaseState) (v : Positions now l) (id : BlockId) where
  pub Positions-insert_record :
      (lease : UploadLease)
      → get id l.records ≡ none
      → lease.created_at ≡ now
      → Positions now (record l { records = insert id lease l.records })
  Positions-insert_record lease fresh at_now = record {
    created = λ j r g. ground (arith, v.created j r, get-insert id j lease l.records);
    cancelled_at =
        λ j at g. ground (arith, v.cancelled_at j at, get-insert id j lease l.records, ==_iff id j);
    expired_at =
        λ j at g. ground (arith, v.expired_at j at, get-insert id j lease l.records, ==_iff id j);
  }

  pub Positions-replace_record :
      (old lease : UploadLease)
      → get id l.records ≡ some old
      → lease.created_at ≡ old.created_at
      → Positions now (record l { records = insert id lease l.records })
  Positions-replace_record old lease known same = record {
    created =
        λ j r g. ground (arith, v.created j r, v.created id old, get-insert id j lease l.records);
    cancelled_at =
        λ j at g. ground (arith, v.cancelled_at j at, get-insert id j lease l.records, ==_iff id j);
    expired_at =
        λ j at g. ground (arith, v.expired_at j at, get-insert id j lease l.records, ==_iff id j);
  }

  pub Positions-cancel :
      (old : UploadLease)
      → get id l.records ≡ some old
      → Positions now (record l { cancelled = insert id now l.cancelled })
  Positions-cancel old known = record {
    created = v.created;
    cancelled_at = λ j at g. ground (
      arith,
      v.cancelled_at j at,
      v.created id old,
      get-insert id j now l.cancelled,
      ==_iff id j,
    );
    expired_at = v.expired_at;
  }

  pub Positions-expire :
      (old : UploadLease)
      → get id l.records ≡ some old
      → Positions now (record l { expired = insert id now l.expired })
  Positions-expire old known = record {
    created = v.created;
    cancelled_at = v.cancelled_at;
    expired_at = λ j at g.
        ground
          (arith, v.expired_at j at, v.created id old, get-insert id j now l.expired, ==_iff id j);
  }

pub Positions-later :
    (now later : ℕ) (l : LeaseState) → now ≤ later → Positions now l → Positions later l
Positions-later now later l h v = record {
  created = λ j r g. omega (arith, v.created j r g);
  cancelled_at = λ j at g. ground (arith, v.cancelled_at j at g);
  expired_at = λ j at g. ground (arith, v.expired_at j at g);
}

module _ (records : Map BlockId UploadLease) (v : Sizes records) (id : BlockId)
    (lease : UploadLease) where
  pub Sizes-insert_record :
      get id records ≡ none
      → length records < max_leases
      → sum_values lease_size records + length lease.blocks ≤ max_reserved_blocks
      → Sizes (insert id lease records)
  Sizes-insert_record fresh room space = record {
    few = ground (arith, length-insert id lease records);
    reserved = ground (arith, sum_values-insert lease_size id lease records);
    distinct_records = Distinct-insert id lease records v.distinct_records;
  }

  pub Sizes-replace_record :
      (old : UploadLease)
      → get id records ≡ some old
      → lease.blocks ≡ old.blocks
      → Sizes (insert id lease records)
  Sizes-replace_record old known same = record {
    few = ground (arith, v.few, length-insert id lease records);
    reserved = ground (arith, v.reserved, sum_values-insert lease_size id lease records);
    distinct_records = Distinct-insert id lease records v.distinct_records;
  }
