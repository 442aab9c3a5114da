-- ===== src/Storage/Tests.antt =====
-- A concrete manifest for crates/kalpak-storage/src/manifest.rs, and its properties there. The
-- text of a binding is its prefix hash between braces.
use kalpakdb.Prelude.{
  ℕ, ◌≡◌, ◌≢◌, refl, true, Option, none, some, List, [], ◌∷◌, ◌++◌, Bytes, ◌==◌, list_eq, nat_eq,
  if◌then◌else◌, ok, arith,
}
use kalpakdb.Prelude.Lines.{no_newline}
use kalpakdb.Prelude.Map.{get, insert}
use kalpakdb.Storage.Text.{utf8_from, trim_end}
use kalpakdb.Core.Key.{CacheKey}
use kalpakdb.Storage.Manifest.{
  Binding, PrefixManifest, Json, open_manifest, bind, lookup, longest_prefix,
}
use kalpakdb.Storage.Manifest.Replay.{with_all, Reads, log_of, restored, bind-reopen, open-torn}
use kalpakdb.Storage.Manifest.Loss.{bind-after_failed, bind-after_unterminated, open-torn_character}
use kalpakdb.Storage.Manifest.Longest.{IsLongest, longest_prefix-IsLongest}

abbrev key_at : ℕ → CacheKey
key_at n = record {
  fingerprint = record { model_id = []; tokenizer_hash = []; kv_layout = [] };
  prefix_hash = n ∷ [];
}

abbrev binding_at : ℕ → Binding
binding_at n = record { key = key_at n; blocks = (n ∷ []) ∷ [] }

abbrev write_binding : Binding → Bytes
write_binding b = 123 ∷ (b.key.prefix_hash ++ 125 ∷ [])

abbrev read_binding : Bytes → Option Binding
read_binding text =
    if text == write_binding (binding_at 65)
    then some (binding_at 65)
    else if text == write_binding (binding_at 66)
    then some (binding_at 66)
    else none

abbrev braces : Json
braces = record { to_string = write_binding; from_str = read_binding }

abbrev one : List Binding
one = binding_at 65 ∷ []

binding_65 : Reads braces (binding_at 65)
unfolding no_newline utf8_from
binding_65 = record {
  body = 123 ∷ 65 ∷ [];
  object = refl;
  one_line = refl;
  utf8 = refl;
  law = refl;
}

binding_66 : Reads braces (binding_at 66)
unfolding no_newline utf8_from
binding_66 = record {
  body = 123 ∷ 66 ∷ [];
  object = refl;
  one_line = refl;
  utf8 = refl;
  law = refl;
}

bind-reopen_example :
    let (after, result) =
      bind braces none true (restored braces one) (key_at 66) ((66 ∷ []) ∷ []) in
    (result ≡ ok tt)
    × (open_manifest braces after.log ≡ ok after)
    × (lookup after (key_at 66) ≡ some ((66 ∷ []) ∷ []))
    × ((key : CacheKey) → key ≢ key_at 66 → lookup after key ≡ lookup (restored braces one) key)
bind-reopen_example = bind-reopen braces one (binding_at 66) (binding_65, tt) binding_66

open-torn_example :
    open_manifest braces (log_of braces one ++ (123 ∷ 66 ∷ [])) ≡ ok (restored braces one)
unfolding no_newline utf8_from trim_end
open-torn_example = open-torn braces one (123 ∷ 66 ∷ []) (binding_65, tt) refl refl refl

bind-after_failed_example :
    let failed = (bind braces (some 2) true (restored braces one) (key_at 66) ((66 ∷ []) ∷ [])).0 in
    let (after, result) = bind braces none true failed (key_at 66) ((66 ∷ []) ∷ []) in
    (result ≡ ok tt)
    × (lookup after (key_at 66) ≡ some ((66 ∷ []) ∷ []))
    × (open_manifest braces after.log ≡ ok (restored braces one))
unfolding utf8_from trim_end
bind-after_failed_example =
    bind-after_failed braces one (binding_at 66) (binding_at 66) 2 (binding_65, tt) binding_66
      binding_66 (omega arith) refl refl

bind-after_unterminated_example :
    let m : PrefixManifest = record {
      map = (restored braces (one ++ binding_at 66 ∷ [])).map;
      log = log_of braces one ++ write_binding (binding_at 66);
    } in
    let (after, result) = bind braces none true m (key_at 66) ((66 ∷ []) ∷ []) in
    (open_manifest braces (log_of braces one ++ write_binding (binding_at 66)) ≡ ok m)
    × (result ≡ ok tt)
    × (open_manifest braces after.log ≡ ok (restored braces one))
unfolding trim_end
bind-after_unterminated_example =
    bind-after_unterminated braces one (binding_at 66) (binding_at 66) (binding_65, tt) binding_66
      binding_66 refl

open-torn_character_example :
    open_manifest braces (log_of braces one ++ (123 ∷ 195 ∷ [])) ≢ ok (restored braces one)
unfolding no_newline utf8_from
open-torn_character_example =
    open-torn_character braces one (123 ∷ 195 ∷ []) (restored braces one) (binding_65, tt) refl refl

longest_prefix-IsLongest_example :
    IsLongest (restored braces one) (key_at 65 ∷ key_at 66 ∷ []) (key_at 65) ((65 ∷ []) ∷ [])
unfolding longest_prefix get with_all insert
longest_prefix-IsLongest_example =
    longest_prefix-IsLongest (restored braces one) (key_at 65 ∷ key_at 66 ∷ []) (key_at 65)
      ((65 ∷ []) ∷ []) refl
