-- ===== src/Storage/Manifest/Longest.antt =====
-- What `longest_prefix` of crates/kalpak-storage/src/manifest.rs finds.
use kalpakdb.Prelude.{
  ◌≡◌, ◌⊎◌, inl, inr, refl, sym, ap, ◌∙◌, subst, Option, none, some, Option-cases, List, [], ◌∷◌,
  ◌++◌, is_some, true, All, arith,
}
use kalpakdb.Prelude.Map.{get}
use kalpakdb.Core.Key.{BlockId, CacheKey, key_eq}
use kalpakdb.Storage.Manifest.{PrefixManifest, longest_from, longest_prefix}

abbrev IsBound : PrefixManifest → CacheKey → Type 0
IsBound m key = is_some (get key m.map) ≡ true

-- The chain ends here, or its next key is not bound.
abbrev pub Stops : PrefixManifest → List CacheKey → Type 0
Stops m [] = Unit
Stops m (key ∷ chain) = get key m.map ≡ none

-- `key` is the deepest key of the chain up to which all keys are bound, and `blocks` are its blocks.
pub record IsLongest (m : PrefixManifest) (chain : List CacheKey) (key : CacheKey)
    (blocks : List BlockId) : Type 0 where
  pub front : List CacheKey
  pub rest : List CacheKey
  pub split : chain ≡ front ++ key ∷ rest
  pub bound : All (IsBound m) front
  pub found : get key m.map ≡ some blocks
  pub stops : Stops m rest

abbrev after_get :
    Option (CacheKey × List BlockId)
    → PrefixManifest
    → CacheKey
    → List CacheKey
    → Option (List BlockId)
    → Option (CacheKey × List BlockId)
after_get best m key chain found = elim found [
  | some blocks ↦ longest_from (some (key, blocks)) m chain
  | none ↦ best
]

step_some :
    (best : Option (CacheKey × List BlockId)) (m : PrefixManifest) (key : CacheKey)
    (chain : List CacheKey) (blocks : List BlockId)
    → get key m.map ≡ some blocks
    → longest_from best m (key ∷ chain) ≡ longest_from (some (key, blocks)) m chain
unfolding longest_from
step_some best m key chain blocks e = ap (after_get best m key chain) e

step_none :
    (best : Option (CacheKey × List BlockId)) (m : PrefixManifest) (key : CacheKey)
    (chain : List CacheKey)
    → get key m.map ≡ none
    → longest_from best m (key ∷ chain) ≡ best
unfolding longest_from
step_none best m key chain e = ap (after_get best m key chain) e

start_here :
    (m : PrefixManifest) (chain : List CacheKey) (k key : CacheKey) (found blocks : List BlockId)
    → get k m.map ≡ some found
    → ◌≡◌ {A = Option (CacheKey × List BlockId)} (some (k, found)) (some (key, blocks))
    → Stops m chain
    → IsLongest m (k ∷ chain) key blocks
start_here m chain k key found blocks e same stops =
    let keys : k ≡ key = ground arith in
    let values : found ≡ blocks = ground arith in
    record {
      front = [];
      rest = chain;
      split = ap (λ c. c ∷ chain) keys;
      bound = tt;
      found = subst (λ c. get c m.map ≡ some blocks) keys (e ∙ ap some values);
      stops = stops;
    }

longest_from_lem :
    (best : Option (CacheKey × List BlockId)) (m : PrefixManifest) (chain : List CacheKey)
    (key : CacheKey) (blocks : List BlockId)
    → longest_from best m chain ≡ some (key, blocks)
    → ((best ≡ some (key, blocks)) × Stops m chain) ⊎ IsLongest m chain key blocks
unfolding longest_from
longest_from_lem best m [] key blocks h = inl (h, tt)
longest_from_lem best m (k ∷ chain) key blocks h = elim (Option-cases (get k m.map)) [
  | inl e ↦ inl (sym (step_none best m k chain e) ∙ h, e)
  | inr (found, e) ↦
      elim (longest_from_lem (some (k, found)) m chain key blocks
        (sym (step_some best m k chain found e) ∙ h)) [
          | inl (same, stops) ↦ inr (start_here m chain k key found blocks e same stops)
          | inr w ↦ inr (record {
            front = k ∷ w.front;
            rest = w.rest;
            split = ap (λ l. k ∷ l) w.split;
            bound = (ap is_some e, w.bound);
            found = w.found;
            stops = w.stops;
          })
        ]
]

-- What longest_prefix finds is the deepest key of the chain up to which all keys are bound, with
-- its blocks: the keys before it are bound, and the next key of the chain, if any, is not.
pub longest_prefix-IsLongest :
    (m : PrefixManifest) (chain : List CacheKey) (key : CacheKey) (blocks : List BlockId)
    → longest_prefix m chain ≡ some (key, blocks)
    → IsLongest m chain key blocks
unfolding longest_prefix
longest_prefix-IsLongest m chain key blocks h = elim (longest_from_lem none m chain key blocks h) [
  | inl (same, stops) ↦ absurd (ground arith)
  | inr w ↦ w
]

some_stays :
    (m : PrefixManifest) (best : CacheKey × List BlockId) (chain : List CacheKey)
    → is_some (longest_from (some best) m chain) ≡ true
unfolding longest_from
some_stays m best [] = refl
some_stays m best (k ∷ chain) = elim (Option-cases (get k m.map)) [
  | inl e ↦ ap is_some (step_none (some best) m k chain e)
  | inr (found, e) ↦
      ap is_some (step_some (some best) m k chain found e) ∙ some_stays m (k, found) chain
]

-- When longest_prefix finds nothing, the chain is empty or its first key is not bound.
pub longest_prefix-none :
    (m : PrefixManifest) (chain : List CacheKey) → longest_prefix m chain ≡ none → Stops m chain
unfolding longest_prefix
longest_prefix-none m [] h = tt
longest_prefix-none m (k ∷ chain) h = elim (Option-cases (get k m.map)) [
  | inl e ↦ e
  | inr (found, e) ↦ absurd (
      no_some (longest_from none m (k ∷ chain)) h
        (ap is_some (step_some none m k chain found e) ∙ some_stays m (k, found) chain))
]
  where
    no_some : (o : Option (CacheKey × List BlockId)) → o ≡ none → is_some o ≡ true → ⊥
    no_some o e t = absurd (ground arith)
