-- ===== src/Daemon/Admission.antt =====
-- crates/kalpakdb/src/admission.rs: the reservations of uploads in a shared budget of 512 units. The
-- semaphore is a count of free units; a lease ends with its last owner.
use kalpakdb.Prelude.{
  zero, inl, inr, sym, ◌∙◌, subst, Bool-cases, ℕ, suc, ◌+◌, ◌-◌, ◌*◌, ◌/◌, ◌≤◌, ◌≡◌, refl, max,
  Option, none, some, ltb, if◌then◌else◌, checked_add, Result, ok, err, arith,
}
use kalpakdb.Storage.Segment.Steps.{if_false}

pub data Error : Type 0 where
  overflow : Error
  too_large : Error
  exhausted : Error

pub record UploadBudget : Type 0 where
  pub available : ℕ
  pub reservation : ℕ

abbrev pub units : ℕ → ℕ
units bytes = bytes / 1048576

abbrev pub budget_for : ℕ → Result Error UploadBudget
budget_for reservation =
    if ltb 512 reservation
    then err too_large
    else ok (record { available = 512; reservation = max reservation 128 })

abbrev rounded : Option ℕ → Result Error UploadBudget
rounded none = err overflow
rounded (some bytes) = budget_for (units bytes)

abbrev padded : Option ℕ → Option ℕ
padded none = none
padded (some bytes) = checked_add bytes 1048575

-- A full block and one batch of 64 MiB, rounded up.
unfoldable pub new_budget : ℕ → Result Error UploadBudget
new_budget max_block_bytes = rounded (padded (checked_add max_block_bytes 67108864))

unfoldable pub try_acquire : UploadBudget → Result Error UploadBudget
try_acquire b =
    if ltb b.available b.reservation
    then err exhausted
    else ok (record b { available = b.available - b.reservation })

abbrev pub release : UploadBudget → UploadBudget
release b = record b { available = b.available + b.reservation }

ok_injective : {a b : UploadBudget} → ◌≡◌ {A = Result Error UploadBudget} (ok a) (ok b) → a ≡ b
ok_injective e = cc

abbrev held : ℕ → ℕ → ℕ
held zero reservation = 0
held (suc leases) reservation = reservation + held leases reservation

-- The units of the leases that are held and the free ones make up the budget.
abbrev pub Holds : ℕ → UploadBudget → Type 0
Holds leases b = (b.available + held leases b.reservation ≡ 512) × (128 ≤ b.reservation)

budget_for-Holds : (r : ℕ) (b : UploadBudget) → budget_for r ≡ ok b → Holds 0 b
budget_for-Holds r b h = elim (Bool-cases (ltb 512 r)) [
  | inl large ↦ absurd (ground arith)
  | inr fine ↦
      subst (Holds 0) (ok_injective (sym (if_false (ltb 512 r) _ _ fine) ∙ h)) (refl, omega arith)
]

rounded-Holds : (o : Option ℕ) (b : UploadBudget) → rounded o ≡ ok b → Holds 0 b
rounded-Holds none b h = absurd (ground arith)
rounded-Holds (some bytes) b h = budget_for-Holds (units bytes) b h

pub new_budget-Holds : (n : ℕ) (b : UploadBudget) → new_budget n ≡ ok b → Holds 0 b
unfolding new_budget
new_budget-Holds n b h = rounded-Holds (padded (checked_add n 67108864)) b h

pub try_acquire-Holds :
    (leases : ℕ) (b c : UploadBudget) → Holds leases b → try_acquire b ≡ ok c → Holds (suc leases) c
unfolding try_acquire
try_acquire-Holds leases b c (all, least) h = elim (Bool-cases (ltb b.available b.reservation)) [
  | inl short ↦ absurd (ground arith)
  | inr enough ↦
      subst (Holds (suc leases))
        (ok_injective (sym (if_false (ltb b.available b.reservation) _ _ enough) ∙ h))
        (ground arith, least)
]

held-le : (leases r : ℕ) → 128 ≤ r → 128 * leases ≤ held leases r
held-le zero r least = omega arith
held-le (suc leases) r least = omega (arith, least, held-le leases r least)

-- At most four uploads are admitted at a time.
pub Holds-four : (leases : ℕ) (b : UploadBudget) → Holds leases b → leases ≤ 4
Holds-four leases b (all, least) = omega (arith, all, held-le leases b.reservation least)
