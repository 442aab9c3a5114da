-- ===== src/Storage/Manifest/Loss.antt =====
-- Crashes and failed writes after which crates/kalpak-storage/src/manifest.rs loses bindings that
-- it has acknowledged, or does not open.
use Prim.Native.String.{String}
use mathlib.Core.List.{append_assoc, append-nil}
use kalpakdb.Prelude.{
  if◌then◌else◌, not, ℕ, ◌+◌, ◌≡◌, ◌≢◌, ◌≤◌, refl, sym, ap, ◌∙◌, Bool, true, false, none, some,
  List, [], ◌∷◌, ◌++◌, Bytes, length, take, All, Result, ok, err, arith, ==_refl, ◌<◌,
  length-append, take_append,
}
use kalpakdb.Prelude.Map.{Map, insert, get-insert}
use kalpakdb.Prelude.Lines.{
  lines, line_of, no_newline, no_newline-append, no_newline-take, lines-tail, take-line,
}
use kalpakdb.Core.Key.{BlockId, CacheKey, key_eq}
use kalpakdb.Storage.Text.{is_utf8, utf8_from-append, trim_end, trim_end-brace, utf8_from}
use kalpakdb.Storage.Manifest.{
  Binding, PrefixManifest, Json, replay, open_manifest, bind, write_all, lookup,
}
use kalpakdb.Storage.Manifest.Replay.{
  with_all, Reads, binding_line, log_of, restored, replay-log_of, open-bad_line, line_utf8,
  after_replay, with_all-append,
}

module _ (json : Json) where
  -- A log with something after its last line: the next line is appended to that.
  joined_utf8 :
      (front : Bytes) (c : Binding)
      → is_utf8 front ≡ true
      → Reads json c
      → is_utf8 (line_of (front ++ json.to_string c)) ≡ true
  joined_utf8 front c u r =
      ap is_utf8 (append_assoc front (json.to_string c) (10 ∷ []))
      ∙ utf8_from-append 0 0 0 front (binding_line json c) u
      ∙ line_utf8 json c r

  reopened_joined :
      (bs : List Binding) (front : Bytes) (c : Binding) (m : PrefixManifest)
      → All (Reads json) bs
      → Reads json c
      → m.log ≡ log_of json bs ++ front
      → no_newline front ≡ true
      → is_utf8 front ≡ true
      → json.from_str (trim_end (line_of (front ++ json.to_string c))) ≡ none
      → open_manifest json (bind json none true m c.key c.blocks).0.log ≡ ok (restored json bs)
  unfolding bind write_all
  reopened_joined bs front c m reads r e one u bad =
      let line = binding_line json c in
      let joined : m.log ++ line ≡ log_of json bs ++ (line_of (front ++ json.to_string c) ++ []) =
        ap (λ l. l ++ line) e
        ∙ append_assoc (log_of json bs) front line
        ∙ ap (λ l. log_of json bs ++ l)
            (sym (append_assoc front (json.to_string c) (10 ∷ [])) ∙ sym (append-nil _)) in
      ap (open_manifest json) joined
      ∙ open-bad_line json bs (front ++ json.to_string c) [] reads
          (no_newline-append front (json.to_string c) one r.one_line) (joined_utf8 front c u r) bad

  cut_written :
      (n : ℕ) (bytes : Bytes) → n < length bytes → write_all (some n) bytes ≡ (take n bytes, false)
  unfolding write_all
  cut_written n bytes lt = ground arith

  -- A bind after its write.
  abbrev after_write :
      PrefixManifest
      → CacheKey
      → List BlockId
      → Bytes × Bool
      → PrefixManifest × Result String (Unit {0})
  after_write m key blocks out =
      if not out.1
      then (record m { log = m.log ++ out.0 }, err "write failed")
      else if not true
      then (record m { log = m.log ++ out.0 }, err "sync failed")
      else (record { map = insert key blocks m.map; log = m.log ++ out.0 }, ok tt)

  failed_log :
      (bs : List Binding) (b : Binding) (n : ℕ)
      → n ≤ length (json.to_string b)
      → (bind json (some n) true (restored json bs) b.key b.blocks).0.log
        ≡ log_of json bs ++ take n (json.to_string b)
  unfolding bind
  failed_log bs b n fits =
      let short : n < length (binding_line json b) =
        omega (arith, fits, length-append (json.to_string b) (10 ∷ [])) in
      ap (λ (out : Bytes × Bool). (after_write (restored json bs) b.key b.blocks out).0.log)
        (cut_written n (binding_line json b) short)
      ∙ ap (λ l. log_of json bs ++ l) (take-line n (json.to_string b) short)

  -- After a bind whose write stopped inside the JSON of its binding, the next bind succeeds
  -- and its key is found, but reopening the log finds neither: it gives the bindings from
  -- before, if the joined line is no binding.
  pub bind-after_failed :
      (bs : List Binding) (b c : Binding) (n : ℕ)
      → All (Reads json) bs
      → Reads json b
      → Reads json c
      → n ≤ length (json.to_string b)
      → is_utf8 (take n (json.to_string b)) ≡ true
      → json.from_str (trim_end (line_of (take n (json.to_string b) ++ json.to_string c))) ≡ none
      → let failed = (bind json (some n) true (restored json bs) b.key b.blocks).0 in
        let (after, result) = bind json none true failed c.key c.blocks in
        (result ≡ ok tt)
        × (lookup after c.key ≡ some c.blocks)
        × (open_manifest json after.log ≡ ok (restored json bs))
  unfolding bind write_all lookup
  bind-after_failed bs b c n reads rb rc fits u bad =
      let failed = (bind json (some n) true (restored json bs) b.key b.blocks).0 in
      (
        refl,
        ground (arith, get-insert c.key c.key c.blocks failed.map, ==_refl c.key),
        reopened_joined bs (take n (json.to_string b)) c failed reads rc (failed_log bs b n fits)
            (no_newline-take n (json.to_string b) rb.one_line) u bad,
      )

  replay-whole :
      (map : Map CacheKey (List BlockId)) (n : ℕ) (text : Bytes) (b : Binding)
      → 0 < length text
      → no_newline text ≡ true
      → is_utf8 text ≡ true
      → json.from_str (trim_end text) ≡ some b
      → replay json map n (lines text) ≡ ok (insert b.key b.blocks map, n + length text)
  unfolding replay
  replay-whole map n [] b some_text one u law = absurd (omega arith)
  replay-whole map n (x ∷ xs) b some_text one u law = rw (lines-tail x xs one, u, law)

  open-unterminated :
      (bs : List Binding) (b : Binding)
      → All (Reads json) bs
      → Reads json b
      → ◌≡◌ {A = Result String PrefixManifest}
          (open_manifest json (log_of json bs ++ json.to_string b))
          (ok
            (record { map = with_all [] (bs ++ b ∷ []); log = log_of json bs ++ json.to_string b }))
  unfolding open_manifest with_all
  open-unterminated bs b reads r =
      let file = log_of json bs ++ json.to_string b in
      let some_text : 0 < length (json.to_string b) =
        omega (arith, ap length r.object, length-append r.body (125 ∷ [])) in
      let trimmed : trim_end (json.to_string b) ≡ json.to_string b =
        ap trim_end r.object ∙ trim_end-brace r.body ∙ sym r.object in
      ap (after_replay json file) (
        replay-log_of json bs [] 0 (json.to_string b) reads
        ∙ replay-whole (with_all [] bs) (0 + length (log_of json bs)) (json.to_string b) b some_text
            r.one_line r.utf8 (ap json.from_str trimmed ∙ r.law))
      ∙ ap {B = Result String PrefixManifest}
          (λ (map : Map CacheKey (List BlockId)). ok (record {
            map = map;
            log = take (0 + length (log_of json bs) + length (json.to_string b)) file;
          }))
          (sym (with_all-append [] bs (b ∷ [])))
      ∙ ap {B = Result String PrefixManifest}
          (λ (log : Bytes). ok (record { map = with_all [] (bs ++ b ∷ []); log = log }))
          (ap (λ k. take k file) (omega (arith, length-append (log_of json bs) (json.to_string b)))
            ∙ ap (take (length file)) (sym (append-nil file))
            ∙ take_append file [])

  -- A log whose last binding lacks only its newline opens with that binding; a bind then
  -- succeeds, but reopening the log gives the bindings from before both, if the joined line is
  -- no binding.
  pub bind-after_unterminated :
      (bs : List Binding) (b c : Binding)
      → All (Reads json) bs
      → Reads json b
      → Reads json c
      → json.from_str (trim_end (line_of (json.to_string b ++ json.to_string c))) ≡ none
      → let m : PrefixManifest = record {
        map = with_all [] (bs ++ b ∷ []);
        log = log_of json bs ++ json.to_string b;
      } in
        let (after, result) = bind json none true m c.key c.blocks in
        (open_manifest json (log_of json bs ++ json.to_string b) ≡ ok m)
        × (result ≡ ok tt)
        × (open_manifest json after.log ≡ ok (restored json bs))
  unfolding bind write_all
  bind-after_unterminated bs b c reads rb rc bad = (
    open-unterminated bs b reads rb,
    refl,
    reopened_joined bs (json.to_string b) c
        (record { map = with_all [] (bs ++ b ∷ []); log = log_of json bs ++ json.to_string b })
        reads rc refl rb.one_line rb.utf8 bad,
  )

  replay-bytes :
      (map : Map CacheKey (List BlockId)) (n : ℕ) (tail : Bytes)
      → no_newline tail ≡ true
      → is_utf8 tail ≡ false
      → replay json map n (lines tail) ≡ err "stream did not contain valid UTF-8"
  unfolding replay utf8_from
  replay-bytes map n [] one u = absurd (ground arith)
  replay-bytes map n (b ∷ bs) one u = rw (lines-tail b bs one, u)

  failed_open :
      {m : PrefixManifest} {e : String} → ◌≢◌ {A = Result String PrefixManifest} (ok m) (err e)
  failed_open q = absurd (ground arith)

  -- A log that ends in a line without newline that is not UTF-8, as when a write is torn
  -- inside a character, does not open.
  pub open-torn_character :
      (bs : List Binding) (tail : Bytes) (m : PrefixManifest)
      → All (Reads json) bs
      → no_newline tail ≡ true
      → is_utf8 tail ≡ false
      → open_manifest json (log_of json bs ++ tail) ≢ ok m
  unfolding open_manifest
  open-torn_character bs tail m reads one u = λ opened. absurd (
      failed_open (
        sym opened
        ∙ ap (after_replay json (log_of json bs ++ tail)) (
            replay-log_of json bs [] 0 tail reads
            ∙ replay-bytes (with_all [] bs) (0 + length (log_of json bs)) tail one u)))
