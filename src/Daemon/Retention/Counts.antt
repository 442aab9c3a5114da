-- ===== src/Daemon/Retention/Counts.antt =====
-- The counts of the living write guards (`protect` and the drop of a guard in
-- crates/kalpakdb/src/retention.rs).
use kalpakdb.Prelude.{
  ℕ, ◌+◌, ◌-◌, ◌≤◌, ◌≡◌, inl, inr, refl, ap, ◌∙◌, Option, none, some, List, [], ◌∷◌, eqb,
  if◌then◌else◌, count, unwrap_or, list_eq, nat_eq, option_eq, ◌==◌, ==_iff, ==_refl, arith,
  Option-cases,
}
use kalpakdb.Prelude.Map.{Map, get, insert, remove, get-insert, get-remove}
use kalpakdb.Core.Key.{BlockId}
use kalpakdb.Daemon.Retention.{enter, leave}

abbrev pub active_count : BlockId → Map BlockId ℕ → ℕ
active_count id m = unwrap_or (get id m) 0

-- No count is zero: an id without a writer is no key.
abbrev pub Positive : Map BlockId ℕ → Type 0
Positive m = (id : BlockId) (c : ℕ) → get id m ≡ some c → 1 ≤ c

pub active_count-enter :
    (ids : List BlockId) (m : Map BlockId ℕ) (j : BlockId)
    → active_count j (enter ids m) ≡ active_count j m + count j ids
unfolding enter
active_count-enter [] m j = omega arith
active_count-enter (id ∷ ids) m j = ground (
  arith,
  active_count-enter ids (insert id (active_count id m + 1) m) j,
  get-insert id j (active_count id m + 1) m,
  ==_iff id j,
)

pub enter-Positive : (ids : List BlockId) (m : Map BlockId ℕ) → Positive m → Positive (enter ids m)
unfolding enter
enter-Positive [] m h = h
enter-Positive (id ∷ ids) m h =
    enter-Positive ids (insert id (active_count id m + 1) m)
      (λ j c e. ground (arith, get-insert id j (active_count id m + 1) m, h j c))

-- One writer less.
abbrev less : BlockId → ℕ → Map BlockId ℕ → Map BlockId ℕ
less id c m = if eqb (c - 1) 0 then remove id m else insert id (c - 1) m

active_count-less :
    (id j : BlockId) (c : ℕ) (m : Map BlockId ℕ)
    → get id m ≡ some c
    → 1 ≤ c
    → active_count j (less id c m) + (if id == j then 1 else 0) ≡ active_count j m
active_count-less id j c m e positive =
    ground (arith, get-remove id j m, get-insert id j (c - 1) m, ==_iff id j)

less-Positive :
    (id : BlockId) (c : ℕ) (m : Map BlockId ℕ) → 1 ≤ c → Positive m → Positive (less id c m)
less-Positive id c m positive h j d e =
    ground (arith, get-remove id j m, get-insert id j (c - 1) m, h j d)

abbrev after_leave : List BlockId → BlockId → Map BlockId ℕ → Option ℕ → Option (Map BlockId ℕ)
after_leave ids id m found = elim found [ none ↦ none | some c ↦ leave ids (less id c m) ]

-- A writer that is counted can leave, and its ids count one less each.
pub leave-active_count :
    (ids : List BlockId) (m : Map BlockId ℕ)
    → Positive m
    → ((j : BlockId) → count j ids ≤ active_count j m)
    → (m' : Map BlockId ℕ) × ((leave ids m ≡ some m')
        × (Positive m' × ((j : BlockId) → active_count j m' + count j ids ≡ active_count j m)))
unfolding leave
leave-active_count [] m h enough = (m, (refl, (h, λ j. omega arith)))
leave-active_count (id ∷ ids) m h enough = elim (Option-cases (get id m)) [
  | inl missing ↦ absurd (ground (arith, enough id, ==_refl id))
  | inr (c, e) ↦
      (let positive = h id c e in
        let (m', (gone, (still, counts))) =
          leave-active_count ids (less id c m) (less-Positive id c m positive h)
            (λ j. omega (arith, enough j, active_count-less id j c m e positive)) in
        (
          m',
          (
            ap (after_leave ids id m) e ∙ gone,
            (still, λ j. omega (arith, counts j, active_count-less id j c m e positive)),
          ),
        ))
]
