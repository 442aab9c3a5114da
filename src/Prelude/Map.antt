-- ===== src/Prelude/Map.antt =====
-- Rust's maps (`HashMap`, `BTreeMap`) as association lists without repeated keys. The order of the
-- entries is not modelled: no operation below depends on it.
use Prim.Native.Nat.{ℕ, suc, ◌+◌, ◌≤◌}
use mathlib.Core.Path.{◌≡◌, refl}
use mathlib.Core.Bool.{Bool, false, ◌||◌}
use mathlib.Core.Option.{Option, none, some}
use mathlib.Core.List.{List, [], ◌∷◌}
use native.Mathlib.Omega.{arith}
use kalpakdb.Prelude.Tests.{Eq, ◌==◌, ==_iff, ==_refl, if◌then◌else◌}
use kalpakdb.Prelude.Lists.{is_some, length}

abbrev pub Map {ℓ κ} : Type ℓ → Type κ → Type (ℓ ⊔ κ)
Map K V = List (K × V)

abbrev pub measure {ℓ} : {V : Type ℓ} → (V → ℕ) → Option V → ℕ
measure f none = 0
measure f (some v) = f v

module _ {ℓ κ} {K : Type ℓ} {V : Type κ} where
  -- A test over the entries, `m.iter().any(p)`, and a sum over the values.
  abbrev pub any_entry : (K → V → Bool) → Map K V → Bool
  any_entry p [] = false
  any_entry p ((k, v) ∷ m) = p k v || any_entry p m

  unfoldable pub sum_values : (V → ℕ) → Map K V → ℕ
  sum_values f [] = 0
  sum_values f ((k, v) ∷ m) = f v + sum_values f m

module _ {ℓ κ} {K : Type ℓ} {V : Type κ} ⦃e : Eq K⦄ where
  unfoldable pub get : K → Map K V → Option V
  get k [] = none
  get k ((j, v) ∷ m) = if j == k then some v else get k m

  abbrev pub contains_key : K → Map K V → Bool
  contains_key k m = is_some (get k m)

  unfoldable pub insert : K → V → Map K V → Map K V
  insert k v [] = (k, v) ∷ []
  insert k v ((j, w) ∷ m) = if j == k then (j, v) ∷ m else (j, w) ∷ insert k v m

  unfoldable pub remove : K → Map K V → Map K V
  remove k [] = []
  remove k ((j, w) ∷ m) = let rest = remove k m in if j == k then rest else (j, w) ∷ rest

  pub get-insert :
      (k j : K) (v : V) (m : Map K V) → get j (insert k v m) ≡ (if k == j then some v else get j m)
  unfolding get insert
  get-insert k j v [] = refl
  get-insert k j v ((i, w) ∷ m) =
      ground (arith, ==_iff i k, ==_iff i j, ==_iff k j, get-insert k j v m)

  pub get-remove : (k j : K) (m : Map K V) → get j (remove k m) ≡ (if k == j then none else get j m)
  unfolding get remove
  get-remove k j [] = ground arith
  get-remove k j ((i, w) ∷ m) = ground (arith, ==_iff i k, ==_iff i j, ==_iff k j, get-remove k j m)

  -- No key stands twice.
  abbrev pub Distinct : Map K V → Type κ
  Distinct [] = Unit
  Distinct ((k, v) ∷ m) = (get k m ≡ none) × Distinct m

  pub Distinct-insert : (k : K) (v : V) (m : Map K V) → Distinct m → Distinct (insert k v m)
  unfolding get insert
  Distinct-insert k v [] d = (refl, tt)
  Distinct-insert k v ((j, w) ∷ m) d =
      ground (arith, ==_iff j k, ==_iff k j, get-insert k j v m, Distinct-insert k v m d.1)

  pub Distinct-remove : (k : K) (m : Map K V) → Distinct m → Distinct (remove k m)
  unfolding remove
  Distinct-remove k [] d = tt
  Distinct-remove k ((j, w) ∷ m) d =
      ground (arith, ==_iff j k, ==_iff k j, get-remove k j m, Distinct-remove k m d.1)

  pub length-insert :
      (k : K) (v : V) (m : Map K V)
      → length (insert k v m) ≡ (if contains_key k m then length m else suc (length m))
  unfolding get insert
  length-insert k v [] = refl
  length-insert k v ((j, w) ∷ m) = ground (arith, length-insert k v m)

  pub sum_values-insert :
      (f : V → ℕ) (k : K) (v : V) (m : Map K V)
      → sum_values f (insert k v m) + measure f (get k m) ≡ sum_values f m + f v
  unfolding get insert sum_values
  sum_values-insert f k v [] = omega arith
  sum_values-insert f k v ((j, w) ∷ m) = ground (arith, sum_values-insert f k v m)

  pub measure-le_sum : (f : V → ℕ) (k : K) (m : Map K V) → measure f (get k m) ≤ sum_values f m
  unfolding get sum_values
  measure-le_sum f k [] = omega arith
  measure-le_sum f k ((j, w) ∷ m) = ground (arith, measure-le_sum f k m)

  -- What holds of every stored value holds of every entry, and the other way round.
  pub any_entry-false :
      (p : K → V → Bool) (m : Map K V)
      → Distinct m
      → ((k : K) (v : V) → get k m ≡ some v → p k v ≡ false)
      → any_entry p m ≡ false
  unfolding get
  any_entry-false p [] d h = refl
  any_entry-false p ((k, v) ∷ m) d h = ground (
    arith,
    h k v,
    ==_refl k,
    any_entry-false p m d.1 (λ j w g. h j w (ground (arith, ==_iff k j, d.0))),
  )

  pub any_entry-get :
      (p : K → V → Bool) (m : Map K V)
      → any_entry p m ≡ false
      → (k : K) (v : V) → get k m ≡ some v
      → p k v ≡ false
  unfolding get
  any_entry-get p [] h k v g = cc
  any_entry-get p ((j, w) ∷ m) h k v g =
      ground (arith, ==_iff j k, any_entry-get p m (ground arith) k v)
