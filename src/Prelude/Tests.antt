-- ===== src/Prelude/Tests.antt =====
-- Boolean tests, the conditional, and equality of keys as an interface.
use Prim.Native.Nat.{ℕ, ◌+◌, ◌-◌, ◌≤◌, ◌<◌, compare, Ordering}
use mathlib.Core.Path.{◌≡◌, refl}
use mathlib.Core.Logic.{◌↔◌, ◌⊎◌, inl, inr}
use mathlib.Core.Bool.{Bool, true, false, ◌&&◌}
use mathlib.Core.Option.{Option, none, some}
use mathlib.Core.List.{List, [], ◌∷◌}
use native.Mathlib.Omega.{arith}

-- These compute to `compare`, which the tactics read with no lemma listed.
abbrev pub ltb : ℕ → ℕ → Bool
ltb a b = elim (compare a b) [ Ordering.lt ↦ true | _ ↦ false ]

abbrev pub leb : ℕ → ℕ → Bool
leb a b = elim (compare a b) [ Ordering.gt ↦ false | _ ↦ true ]

abbrev pub eqb : ℕ → ℕ → Bool
eqb a b = elim (compare a b) [ Ordering.eq ↦ true | _ ↦ false ]

infix 50 ◌==◌
infix 1 if◌then◌else◌
abbrev pub if◌then◌else◌ {ℓ} : {A : Type ℓ} → Bool → A → A → A
if true then x else y = x
if false then x else y = y

pub ltb→lt : (a b : ℕ) → ltb a b ≡ true → a < b
ltb→lt a b h = ground arith

pub ltb→le : (a b : ℕ) → ltb a b ≡ false → b ≤ a
ltb→le a b h = ground arith

pub leb→le : (a b : ℕ) → leb a b ≡ true → a ≤ b
leb→le a b h = ground arith

pub eqb_iff : (a b : ℕ) → (eqb a b ≡ true) ↔ (a ≡ b)
eqb_iff a b = ground arith

-- To split on a computed value and keep the equation.
pub Bool-cases : (b : Bool) → (b ≡ true) ⊎ (b ≡ false)
Bool-cases true = inl refl
Bool-cases false = inr refl

-- To prove something of a conditional: prove it of each branch.
pub if_cases {ℓ κ} :
    {A : Type ℓ} (P : A → Type κ) (b : Bool) {x y : A}
    → (b ≡ true → P x)
    → (b ≡ false → P y)
    → P (if b then x else y)
if_cases P true t f = t refl
if_cases P false t f = f refl

-- The same of a match on an option.
pub option_cases {ℓ κ μ} :
    {A : Type ℓ} {B : Type κ} (P : B → Type μ) (o : Option A) {n : B} {s : A → B}
    → (o ≡ none → P n)
    → ((a : A) → o ≡ some a → P (s a))
    → P (elim o [ none ↦ n | some a ↦ s a ])
option_cases P none hn hs = hn refl
option_cases P (some a) hn hs = hs a refl

pub Option-cases {ℓ} : {A : Type ℓ} (o : Option A) → (o ≡ none) ⊎ ((a : A) × (o ≡ some a))
Option-cases none = inl refl
Option-cases (some a) = inr (a, refl)

-- What Rust's `Eq` gives: a test that decides equality.
pub record Eq {ℓ} (A : Type ℓ) : Type ℓ where
  pub equal : A → A → Bool
  pub equal_iff : (x y : A) → (equal x y ≡ true) ↔ (x ≡ y)

abbrev pub ◌==◌ {ℓ} : {A : Type ℓ} ⦃e : Eq A⦄ → A → A → Bool
◌==◌ ⦃e⦄ = e.equal

pub ==_iff {ℓ} : {A : Type ℓ} ⦃e : Eq A⦄ (a b : A) → ((a == b) ≡ true) ↔ (a ≡ b)
==_iff ⦃e⦄ a b = e.equal_iff a b

pub ==_refl {ℓ} : {A : Type ℓ} ⦃e : Eq A⦄ (a : A) → (a == a) ≡ true
==_refl ⦃e⦄ a = (e.equal_iff a a).1 refl

instance abbrev pub nat_eq : Eq ℕ
nat_eq = record { equal = eqb; equal_iff = eqb_iff }

abbrev pub list_eqb {ℓ} : {A : Type ℓ} ⦃e : Eq A⦄ → List A → List A → Bool
list_eqb [] [] = true
list_eqb [] (y ∷ ys) = false
list_eqb (x ∷ xs) [] = false
list_eqb (x ∷ xs) (y ∷ ys) = x == y && list_eqb xs ys

pub list_eqb_iff {ℓ} : {A : Type ℓ} ⦃e : Eq A⦄ (a b : List A) → (list_eqb a b ≡ true) ↔ (a ≡ b)
list_eqb_iff [] [] = ground arith
list_eqb_iff [] (y ∷ ys) = ground arith
list_eqb_iff (x ∷ xs) [] = ground arith
list_eqb_iff (x ∷ xs) (y ∷ ys) = ground (arith, ==_iff x y, list_eqb_iff xs ys)

instance abbrev pub list_eq {ℓ} : {A : Type ℓ} ⦃e : Eq A⦄ → Eq (List A)
list_eq = record { equal = list_eqb; equal_iff = list_eqb_iff }

abbrev pub option_eqb {ℓ} : {A : Type ℓ} ⦃e : Eq A⦄ → Option A → Option A → Bool
option_eqb none none = true
option_eqb none (some b) = false
option_eqb (some a) none = false
option_eqb (some a) (some b) = a == b

pub option_eqb_iff {ℓ} :
    {A : Type ℓ} ⦃e : Eq A⦄ (a b : Option A) → (option_eqb a b ≡ true) ↔ (a ≡ b)
option_eqb_iff none none = ground arith
option_eqb_iff none (some b) = ground arith
option_eqb_iff (some a) none = ground arith
option_eqb_iff (some a) (some b) = ground (arith, ==_iff a b)

instance abbrev pub option_eq {ℓ} : {A : Type ℓ} ⦃e : Eq A⦄ → Eq (Option A)
option_eq = record { equal = option_eqb; equal_iff = option_eqb_iff }

-- A string of bytes: an identifier, a key, the UTF-8 text of a `String`.
abbrev pub Bytes : Type 0
Bytes = List ℕ

-- Rust's `u64`, `u32`: bounds and the operations that heed them.
abbrev pub u64_max : ℕ
u64_max = 18446744073709551615

abbrev pub u32_mod : ℕ
u32_mod = 4294967296

abbrev pub checked_add : ℕ → ℕ → Option ℕ
checked_add a b = if leb (a + b) u64_max then some (a + b) else none

abbrev pub saturating_add : ℕ → ℕ → ℕ
saturating_add a b = if leb (a + b) u64_max then a + b else u64_max

-- `a.checked_sub(b)`.
abbrev pub checked_sub : ℕ → ℕ → Option ℕ
checked_sub a b = if leb b a then some (a - b) else none
