-- ===== src/Daemon/Retention/Entering.antt =====
-- What `protect` and `try_release_check` of crates/kalpakdb/src/retention.rs do to the writers and
-- the release checks.
use kalpakdb.Prelude.{
  ltb, length, checked_add, ℕ, ◌+◌, ◌≤◌, ◌≡◌, ◌⊎◌, inl, inr, refl, sym, subst, Bool, true, false,
  not, ◌||◌, Option, none, some, List, [], ◌∷◌, ◌++◌, Bytes, eqb, if◌then◌else◌, is_empty, any,
  contains, count, Result, ok, err, list_eq, nat_eq, option_eq, ◌==◌, ==_iff, arith, Bool-cases,
  Option-cases,
}
use kalpakdb.Prelude.Map.{Map, get, contains_key}
use kalpakdb.Core.Key.{BlockId}
use kalpakdb.Storage.Segment.Steps.{if_true, if_false}
use kalpakdb.Storage.Store.Writing.{Event, works, fails}
use kalpakdb.Daemon.Retention.{
  capacity, needs_restart, would_block, stale, max_batch, Error, State, distinct_ids, enter, leave,
  Protected, write_guard, protect_next, protect, without, end_check, try_release_check,
  journal_full,
}
use kalpakdb.Daemon.Retention.Counts.{active_count, Positive}

-- The state, with the write guards and the release checks that are alive.
pub record World : Type 0 where
  pub state : State
  pub guards : List (List BlockId)
  pub checks : List BlockId

-- How many living write guards have the id, counted with repetition.
abbrev pub guards_with : BlockId → List (List BlockId) → ℕ
guards_with id [] = 0
guards_with id (g ∷ gs) = count id g + guards_with id gs

pub guards_with-append :
    (id : BlockId) (gs hs : List (List BlockId))
    → guards_with id (gs ++ hs) ≡ guards_with id gs + guards_with id hs
guards_with-append id [] hs = omega arith
guards_with-append id (g ∷ gs) hs = omega (arith, guards_with-append id gs hs)

pub contains-count :
    (id : BlockId) (ids : List BlockId) → contains id ids ≡ false → count id ids ≡ 0
contains-count id [] h = refl
contains-count id (j ∷ ids) h = ground (arith, contains-count id ids)

any-count :
    (id : BlockId) (checks ids : List BlockId)
    → any (λ j. contains j checks) ids ≡ false
    → contains id checks ≡ true
    → count id ids ≡ 0
any-count id checks [] h there = refl
any-count id checks (j ∷ ids) h there = ground (arith, any-count id checks ids, ==_iff j id)

free_ids :
    (id : BlockId) (ids checks : List BlockId)
    → any (λ j. contains j checks) ids ≡ false
    → (count id ids ≡ 0) ⊎ (count id checks ≡ 0)
free_ids id ids checks h = elim (Bool-cases (contains id checks)) [
  | inl there ↦ inl (any-count id checks ids h there)
  | inr absent ↦ inr (contains-count id checks absent)
]

pub count-without :
    (id j : BlockId) (ids : List BlockId)
    → count j (without id ids) ≡ (if id == j then 0 else count j ids)
count-without id j [] = ground arith
count-without id j (i ∷ ids) =
    ground (arith, count-without id j ids, ==_iff i id, ==_iff i j, ==_iff id j)

no_key : (id : BlockId) (m : Map BlockId ℕ) → contains_key id m ≡ false → get id m ≡ none
no_key id m h = elim (Option-cases (get id m)) [ inl e ↦ e | inr (c, e) ↦ absurd (ground arith) ]

module _ (hash : Bytes → Bytes) where
  -- What may happen next: a call of `protect` or `try_release_check`, which succeeds or not, or the
  -- drop of a guard or of a check that is alive.
  pub data Step : World → World → Type 0 where
    protects :
        (w : World) (ids guard : List BlockId) (events : List Event) (s : State)
        → protect hash ids events w.state ≡ (s, ok guard)
        → Step w (record w { state = s; guards = guard ∷ w.guards })
    protects_not :
        (w : World) (ids : List BlockId) (events : List Event) (s : State) (e : Error)
        → protect hash ids events w.state ≡ (s, err e)
        → Step w (record w { state = s })
    drops_guard :
        (w : World) (front back : List (List BlockId)) (guard : List BlockId)
        (active : Map BlockId ℕ)
        → w.guards ≡ front ++ guard ∷ back
        → leave guard w.state.active ≡ some active
        → Step w (record w { state = record w.state { active = active }; guards = front ++ back })
    checks_release :
        (w : World) (id found : BlockId) (generation : ℕ) (s : State)
        → try_release_check id generation w.state ≡ (s, ok found)
        → Step w (record w { state = s; checks = found ∷ w.checks })
    checks_not :
        (w : World) (id : BlockId) (generation : ℕ) (s : State) (e : Error)
        → try_release_check id generation w.state ≡ (s, err e)
        → Step w (record w { state = s })
    drops_check :
        (w : World) (front back : List BlockId) (id : BlockId)
        → w.checks ≡ front ++ id ∷ back
        → Step w (record w { state = end_check id w.state; checks = front ++ back })

  -- After an opening there are no guards and no checks.
  pub data Reached : World → Type 0 where
    opened_first :
        (s : State)
        → s.active ≡ []
        → s.release_checks ≡ []
        → Reached (record { state = s; guards = []; checks = [] })
    then_step : (v w : World) → Reached v → Step v w → Reached w

  -- Writers are counted, checks are listed once each, and no id has both.
  pub record Apart (s : State) (guards : List (List BlockId)) (checks : List BlockId) : Type 0 where
    pub counted : (id : BlockId) → active_count id s.active ≡ guards_with id guards
    pub positive : Positive s.active
    pub listed : (id : BlockId) → count id s.release_checks ≡ count id checks
    pub once : (id : BlockId) → count id checks ≤ 1
    pub apart : (id : BlockId) → (count id checks ≡ 0) ⊎ (guards_with id guards ≡ 0)

  -- `protect` either leaves writers and checks alone or enters ids that no check has.
  abbrev pub Entered : State → Protected hash → Type 0
  Entered s (t, ok guard) =
      (t.active ≡ enter guard s.active)
      × ((t.release_checks ≡ s.release_checks)
          × ((id : BlockId) → (count id guard ≡ 0) ⊎ (count id s.release_checks ≡ 0)))
  Entered s (t, err e) = (t.active ≡ s.active) × (t.release_checks ≡ s.release_checks)

  Entered-if :
      (s : State) (b : Bool) (x y : Protected hash)
      → Entered s x
      → (b ≡ false → Entered s y)
      → Entered s (if b then x else y)
  Entered-if s true x y here there = here
  Entered-if s false x y here there = there refl

  empty_Entered : (s : State) (ids : List BlockId) → is_empty ids ≡ true → Entered s (s, ok ids)
  unfolding enter
  empty_Entered s [] e = (refl, (refl, λ id. inl refl))
  empty_Entered s (id ∷ ids) e = absurd (ground arith)

  write_guard-Entered :
      (s : State) (ids : List BlockId) (next : ℕ) (es : List Event)
      → any (λ j. contains j s.release_checks) ids ≡ false
      → Entered s (write_guard hash s ids next es)
  write_guard-Entered s ids next [] free =
      (refl, (refl, λ id. free_ids id ids s.release_checks free))
  write_guard-Entered s ids next (fails n ∷ es) free = (refl, refl)
  write_guard-Entered s ids next (works ∷ []) free =
      (refl, (refl, λ id. free_ids id ids s.release_checks free))
  write_guard-Entered s ids next (works ∷ works ∷ es) free =
      (refl, (refl, λ id. free_ids id ids s.release_checks free))
  write_guard-Entered s ids next (works ∷ fails n ∷ es) free = (refl, refl)

  protect_next-Entered :
      (s : State) (ids : List BlockId) (next : Option ℕ) (es : List Event)
      → any (λ j. contains j s.release_checks) ids ≡ false
      → Entered s (protect_next hash s ids next es)
  protect_next-Entered s ids none es free = (refl, refl)
  protect_next-Entered s ids (some next) es free =
      Entered-if s (journal_full hash s ids) _ _ (refl, refl)
        (λ e. write_guard-Entered s ids next es free)

  pub protect-Entered :
      (ids : List BlockId) (es : List Event) (s : State) → Entered s (protect hash ids es s)
  unfolding protect
  protect-Entered ids es s =
      let requested = distinct_ids ids in
      let busy = any (λ id. contains id s.release_checks) requested in
      let last : Protected hash =
        if is_empty requested
        then (s, ok requested)
        else protect_next hash s requested (checked_add s.sequence 1) es in
      let third : Protected hash = if busy then (s, err would_block) else last in
      let second : Protected hash = if s.failed then (s, err needs_restart) else third in
      Entered-if s (ltb max_batch (length ids)) (s, err capacity) second (refl, refl)
        (λ small.
          Entered-if s s.failed (s, err needs_restart) third (refl, refl)
            (λ fine.
              Entered-if s busy (s, err would_block) last (refl, refl)
                (λ free. elim (Bool-cases (is_empty requested)) [
                  | inl none_left ↦
                      subst (Entered s) (sym (if_true (is_empty requested) _ _ none_left))
                        (empty_Entered s requested none_left)
                  | inr some_left ↦
                      subst (Entered s) (sym (if_false (is_empty requested) _ _ some_left))
                        (protect_next-Entered s requested (checked_add s.sequence 1) es free)
                ])))

  -- A check is listed when its id has no writer and no other check.
  abbrev pub Released : State → State × Result Error BlockId → Type 0
  Released s (t, ok id) =
      (t.active ≡ s.active)
      × ((t.release_checks ≡ id ∷ s.release_checks)
          × ((get id s.active ≡ none) × (contains id s.release_checks ≡ false)))
  Released s (t, err e) = (t.active ≡ s.active) × (t.release_checks ≡ s.release_checks)

  Released-if :
      (s : State) (b : Bool) (x y : State × Result Error BlockId)
      → Released s x
      → (b ≡ false → Released s y)
      → Released s (if b then x else y)
  Released-if s true x y here there = here
  Released-if s false x y here there = there refl

  pub try_release_check-Released :
      (id : BlockId) (generation : ℕ) (s : State) → Released s (try_release_check id generation s)
  unfolding try_release_check
  try_release_check-Released id generation s =
      let bad = eqb generation 0 || not (get id s.ids == some generation) in
      let busy = contains_key id s.active || contains id s.release_checks in
      let Answer' = State × Result Error BlockId in
      let last : Answer' = (record s { release_checks = id ∷ s.release_checks }, ok id) in
      let third : Answer' = if busy then (s, err would_block) else last in
      let second : Answer' = if bad then (s, err stale) else third in
      Released-if s s.failed (s, err needs_restart) second (refl, refl)
        (λ fine.
          Released-if s bad (s, err stale) third (refl, refl)
            (λ good.
              Released-if s busy (s, err would_block) last (refl, refl)
                (λ free. (
                  refl,
                  (refl, (no_key id s.active (ground (arith, free)), ground (arith, free))),
                ))))
