-- ===== src/Daemon/Retention/Exclusion.antt =====
-- Writers and release checks exclude each other (crates/kalpakdb/src/retention.rs).
use kalpakdb.Prelude.{
  ℕ, ◌+◌, ◌≤◌, ◌≡◌, ◌⊎◌, inl, inr, refl, sym, ap, ◌∙◌, subst, Option, some, List, ◌∷◌, ◌++◌, Bytes,
  if◌then◌else◌, count, count-append, unwrap_or, ok, list_eq, nat_eq, option_eq, ◌==◌, ==_iff,
  arith, Bool-cases,
}
use kalpakdb.Prelude.Map.{Map, get}
use kalpakdb.Core.Key.{BlockId}
use kalpakdb.Daemon.Retention.{State, leave, end_check}
use kalpakdb.Daemon.Retention.Counts.{
  active_count, Positive, active_count-enter, enter-Positive, leave-active_count,
}
use kalpakdb.Daemon.Retention.Entering.{
  World, guards_with, guards_with-append, contains-count, count-without, Step, protects,
  protects_not, drops_guard, checks_release, checks_not, drops_check, Reached, opened_first,
  then_step, Apart, Entered, protect-Entered, Released, try_release_check-Released,
}

module _ (hash : Bytes → Bytes) where
  -- A write guard goes: the counts are those of the other guards.
  drop_guard :
      (s : State) (front back : List (List BlockId)) (guard : List BlockId)
      (guards : List (List BlockId)) (checks : List BlockId)
      → guards ≡ front ++ guard ∷ back
      → Apart hash s guards checks
      → (active : Map BlockId ℕ) × ((leave guard s.active ≡ some active)
          × Apart hash (record s { active = active }) (front ++ back) checks)
  drop_guard s front back guard guards checks e h =
      let total : (id : BlockId)
          → guards_with id guards ≡ guards_with id front + (count id guard + guards_with id back) =
        λ id. ap (guards_with id) e ∙ guards_with-append id front (guard ∷ back) in
      let (active, (gone, (positive, counts))) =
        leave-active_count guard s.active h.positive
          (λ id. omega (arith, h.counted id, total id)) in
      (
        active,
        (
          gone,
          record {
            counted = λ id.
                omega (arith, counts id, h.counted id, total id, guards_with-append id front back);
            positive = positive;
            listed = h.listed;
            once = h.once;
            apart = λ id. elim (h.apart id) [
              | inl none_left ↦ inl none_left
              | inr free ↦ inr (omega (arith, free, total id, guards_with-append id front back))
            ];
          },
        ),
      )

  same-Apart :
      (s t : State) (guards : List (List BlockId)) (checks : List BlockId)
      → t.active ≡ s.active
      → t.release_checks ≡ s.release_checks
      → Apart hash s guards checks
      → Apart hash t guards checks
  same-Apart s t guards checks actives lists h = record {
    counted = λ id. ap (active_count id) actives ∙ h.counted id;
    positive = subst Positive (sym actives) h.positive;
    listed = λ id. ap (count id) lists ∙ h.listed id;
    once = h.once;
    apart = h.apart;
  }

  enter-Apart :
      (s t : State) (guard : List BlockId) (guards : List (List BlockId)) (checks : List BlockId)
      → Entered hash s (t, ok guard)
      → Apart hash s guards checks
      → Apart hash t (guard ∷ guards) checks
  enter-Apart s t guard guards checks (actives, (lists, free)) h = record {
    counted = λ id.
        omega
          (arith, ap (active_count id) actives, active_count-enter guard s.active id, h.counted id);
    positive = subst Positive (sym actives) (enter-Positive guard s.active h.positive);
    listed = λ id. ap (count id) lists ∙ h.listed id;
    once = h.once;
    apart = λ id. elim (free id) [
      | inr listed ↦ inl (sym (h.listed id) ∙ listed)
      | inl none_here ↦ elim (h.apart id) [
        | inl unchecked ↦ inl unchecked
        | inr unguarded ↦ inr (omega (arith, none_here, unguarded))
      ]
    ];
  }

  release-Apart :
      (s t : State) (id : BlockId) (guards : List (List BlockId)) (checks : List BlockId)
      → Released hash s (t, ok id)
      → Apart hash s guards checks
      → Apart hash t guards (id ∷ checks)
  release-Apart s t id guards checks (actives, (lists, (no_writer, unlisted))) h =
      let unchecked : count id checks ≡ 0 =
        sym (h.listed id) ∙ contains-count id s.release_checks unlisted in
      let unguarded : guards_with id guards ≡ 0 =
        sym (h.counted id) ∙ ap (λ (o : Option ℕ). unwrap_or o 0) no_writer in
      record {
        counted = λ j. ap (active_count j) actives ∙ h.counted j;
        positive = subst Positive (sym actives) h.positive;
        listed = λ j. ap (count j) lists ∙ ap (λ n. (if id == j then 1 else 0) + n) (h.listed j);
        once = λ j. ground (arith, h.once j, unchecked, ==_iff id j);
        apart = λ j. elim (Bool-cases (id == j)) [
          | inl same ↦ inr (subst (λ i. guards_with i guards ≡ 0) ((==_iff id j).0 same) unguarded)
          | inr other ↦ elim (h.apart j) [
            | inl none_left ↦ inl (ground (arith, other, none_left))
            | inr free ↦ inr free
          ]
        ];
      }

  end_check-Apart :
      (s : State) (front back : List BlockId) (id : BlockId) (guards : List (List BlockId))
      (checks : List BlockId)
      → checks ≡ front ++ id ∷ back
      → Apart hash s guards checks
      → Apart hash (end_check id s) guards (front ++ back)
  end_check-Apart s front back id guards checks e h =
      let total : (j : BlockId)
          → count j checks ≡ count j front + ((if id == j then 1 else 0) + count j back) =
        λ j. ap (count j) e ∙ count-append j front (id ∷ back) in
      record {
        counted = h.counted;
        positive = h.positive;
        listed = λ j. ground (
          arith,
          count-without id j s.release_checks,
          h.listed j,
          h.once j,
          total j,
          count-append j front back,
        );
        once = λ j. ground (arith, h.once j, total j, count-append j front back);
        apart = λ j. elim (h.apart j) [
          | inl unchecked ↦ inl (ground (arith, unchecked, total j, count-append j front back))
          | inr free ↦ inr free
        ];
      }

  step-Apart :
      (v w : World)
      → Step hash v w
      → Apart hash v.state v.guards v.checks
      → Apart hash w.state w.guards w.checks
  step-Apart v _ (protects _ ids guard events s e) h =
      enter-Apart v.state s guard v.guards v.checks
        (subst (Entered hash v.state) e (protect-Entered hash ids events v.state)) h
  step-Apart v _ (protects_not _ ids events s x e) h =
      let same = subst (Entered hash v.state) e (protect-Entered hash ids events v.state) in
      same-Apart v.state s v.guards v.checks same.0 same.1 h
  step-Apart v _ (drops_guard _ front back guard active e q) h =
      let (left, (gone, after)) = drop_guard v.state front back guard v.guards v.checks e h in
      let here : left ≡ active = cc in
      subst (λ m. Apart hash (record v.state { active = m }) (front ++ back) v.checks) here after
  step-Apart v _ (checks_release _ id found generation s e) h =
      release-Apart v.state s found v.guards v.checks
        (subst (Released hash v.state) e (try_release_check-Released hash id generation v.state)) h
  step-Apart v _ (checks_not _ id generation s x e) h =
      let same =
        subst (Released hash v.state) e (try_release_check-Released hash id generation v.state) in
      same-Apart v.state s v.guards v.checks same.0 same.1 h
  step-Apart v _ (drops_check _ front back id e) h =
      end_check-Apart v.state front back id v.guards v.checks e h

  Reached-Apart : (w : World) → Reached hash w → Apart hash w.state w.guards w.checks
  unfolding get
  Reached-Apart _ (opened_first s no_writers no_checks) = record {
    counted = λ id. ap (active_count id) no_writers;
    positive = λ id c e. absurd (ground (arith, ap (get id) no_writers));
    listed = λ id. ap (count id) no_checks;
    once = λ id. omega arith;
    apart = λ id. inl refl;
  }
  Reached-Apart w (then_step v _ before step) = step-Apart v w step (Reached-Apart v before)

  -- In whatever order calls of protect and try_release_check and drops of living guards and
  -- checks follow an opening, no block has both a living write guard and a living release
  -- check, no block has two release checks, and the drop of a living guard does not panic.
  pub Reached-exclusive :
      (w : World)
      → Reached hash w
      → ((id : BlockId) → (count id w.checks ≡ 0) ⊎ (guards_with id w.guards ≡ 0))
        × (((id : BlockId) → count id w.checks ≤ 1)
            × ((front back : List (List BlockId)) (guard : List BlockId)
                → w.guards ≡ front ++ guard ∷ back
                → (active : Map BlockId ℕ) × (leave guard w.state.active ≡ some active)))
  Reached-exclusive w reached =
      let h = Reached-Apart w reached in
      (
        h.apart,
        (
          h.once,
          λ front back guard e.
              let (active, (gone, after)) =
                drop_guard w.state front back guard w.guards w.checks e h in
              (active, gone),
        ),
      )
