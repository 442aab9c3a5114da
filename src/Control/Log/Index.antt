-- ===== src/Control/Log/Index.antt =====
-- `BTreeMap<u64, Entry>` of crates/kalpak-control/src/log_store.rs: association lists that are
-- kept in the order of their keys.
use kalpakdb.Prelude.{
  ℕ, ◌≡◌, ◌<◌, Bool, false, Option, none, some, List, [], ◌∷◌, eqb, ltb, if◌then◌else◌, arith,
  if_cases, subst, sym, ltb→lt, eqb_iff,
}
use kalpakdb.Prelude.Map.{Map}

later_index : (i j : ℕ) → ltb i j ≡ false → eqb i j ≡ false → j < i
later_index i j h k = ground arith

module _ {V : Type 0} where
  unfoldable pub put : ℕ → V → Map ℕ V → Map ℕ V
  put i v [] = (i, v) ∷ []
  put i v ((j, w) ∷ m) =
      let rest = put i v m in
      if ltb i j then (i, v) ∷ (j, w) ∷ m else if eqb i j then (i, v) ∷ m else (j, w) ∷ rest

  -- `map.retain(|k, _| ...)`
  unfoldable pub retain : (ℕ → Bool) → Map ℕ V → Map ℕ V
  retain p [] = []
  retain p ((j, w) ∷ m) = let rest = retain p m in if p j then (j, w) ∷ rest else rest

  unfoldable pub values : Map ℕ V → List V
  values [] = []
  values ((j, w) ∷ m) = w ∷ values m

  -- `map.iter().next_back()`
  unfoldable pub next_back : Map ℕ V → Option (ℕ × V)
  next_back [] = none
  next_back ((j, w) ∷ []) = some (j, w)
  next_back ((j, w) ∷ (k, v) ∷ m) = next_back ((k, v) ∷ m)

  unfoldable pub Above : ℕ → Map ℕ V → Type 0
  Above i [] = Unit
  Above i ((j, w) ∷ m) = i < j

  -- The keys rise.
  unfoldable pub Sorted : Map ℕ V → Type 0
  unfolding Above
  Sorted [] = Unit
  Sorted ((j, w) ∷ m) = Above j m × Sorted m

  Above-put : (k i : ℕ) (v : V) (m : Map ℕ V) → k < i → Above k m → Above k (put i v m)
  unfolding put Above
  Above-put k i v [] lt a = lt
  Above-put k i v ((j, w) ∷ m) lt a = ground arith

  pub Sorted-put : (i : ℕ) (v : V) (m : Map ℕ V) → Sorted m → Sorted (put i v m)
  unfolding put Sorted Above
  Sorted-put i v [] s = (tt, tt)
  Sorted-put i v ((j, w) ∷ m) s =
      if_cases Sorted (ltb i j) (λ lt. (ltb→lt i j lt, s))
        (λ ge.
          if_cases Sorted (eqb i j)
            (λ same. (subst (λ k. Above k m) (sym ((eqb_iff i j).0 same)) s.0, s.1))
            (λ past.
              let apart = later_index i j ge past in
              (Above-put j i v m apart s.0, Sorted-put i v m s.1)))

  Above-trans : (i j : ℕ) (m : Map ℕ V) → i < j → Above j m → Above i m
  unfolding Above
  Above-trans i j [] lt a = tt
  Above-trans i j ((k, v) ∷ m) lt a = omega arith

  Above-retain : (p : ℕ → Bool) (i : ℕ) (m : Map ℕ V) → Above i m → Sorted m → Above i (retain p m)
  unfolding retain Sorted Above
  Above-retain p i [] a s = tt
  Above-retain p i ((j, w) ∷ m) a s =
      ground (arith, Above-retain p i m (Above-trans i j m a s.0) s.1)

  pub Sorted-retain : (p : ℕ → Bool) (m : Map ℕ V) → Sorted m → Sorted (retain p m)
  unfolding retain Sorted
  Sorted-retain p [] s = tt
  Sorted-retain p ((j, w) ∷ m) s = ground (arith, Sorted-retain p m s.1, Above-retain p j m s.0 s.1)
