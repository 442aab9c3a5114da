-- ===== src/Storage/Manifest/Replay.antt =====
-- What opening the log of crates/kalpak-storage/src/manifest.rs gives.
use Prim.Native.String.{String}
use mathlib.Core.List.{append_assoc, append-nil}
use kalpakdb.Prelude.{
  ℕ, ◌+◌, ◌≡◌, ◌≢◌, refl, sym, ap, ◌∙◌, subst, true, none, some, List, [], ◌∷◌, ◌++◌, Bytes, length,
  take, take_append, length-append, All, Result, ok, err, arith, ==_refl, ==_iff,
}
use kalpakdb.Prelude.Map.{Map, insert, get-insert}
use kalpakdb.Prelude.Lines.{lines, line_of, no_newline, lines-line, lines-tail}
use kalpakdb.Core.Key.{BlockId, CacheKey, key_eq}
use kalpakdb.Storage.Text.{is_utf8, utf8_from-append, utf8_from, trim_end, trim_end-object}
use kalpakdb.Storage.Manifest.{
  Binding, PrefixManifest, Json, replay, open_manifest, bind, lookup, write_all,
}

unfoldable pub with_all : Map CacheKey (List BlockId) → List Binding → Map CacheKey (List BlockId)
with_all map [] = map
with_all map (b ∷ bs) = with_all (insert b.key b.blocks map) bs

pub with_all-append :
    (map : Map CacheKey (List BlockId)) (a b : List Binding)
    → with_all map (a ++ b) ≡ with_all (with_all map a) b
unfolding with_all
with_all-append map [] b = refl
with_all-append map (x ∷ a) b = with_all-append (insert x.key x.blocks map) a b

module _ (json : Json) where
  -- The JSON of a binding is a UTF-8 object on one line, and parses to the binding.
  pub record Reads (b : Binding) : Type 0 where
    pub body : Bytes
    pub object : json.to_string b ≡ body ++ 125 ∷ []
    pub one_line : no_newline (json.to_string b) ≡ true
    pub utf8 : is_utf8 (json.to_string b) ≡ true
    pub law : json.from_str (json.to_string b) ≡ some b

  abbrev pub binding_line : Binding → Bytes
  binding_line b = line_of (json.to_string b)

  unfoldable pub log_of : List Binding → Bytes
  log_of [] = []
  log_of (b ∷ bs) = binding_line b ++ log_of bs

  pub log_of-append : (a b : List Binding) → log_of (a ++ b) ≡ log_of a ++ log_of b
  unfolding log_of
  log_of-append [] b = refl
  log_of-append (x ∷ a) b =
      ap (λ rest. binding_line x ++ rest) (log_of-append a b)
      ∙ sym (append_assoc (binding_line x) (log_of a) (log_of b))

  pub trimmed : (b : Binding) → Reads b → trim_end (binding_line b) ≡ json.to_string b
  trimmed b r = ap (λ t. trim_end (line_of t)) r.object ∙ trim_end-object r.body ∙ sym r.object

  pub line_utf8 : (b : Binding) → Reads b → is_utf8 (binding_line b) ≡ true
  unfolding utf8_from
  line_utf8 b r = utf8_from-append 0 0 0 (json.to_string b) (10 ∷ []) r.utf8 ∙ refl

  abbrev pub restored : List Binding → PrefixManifest
  restored bs = record { map = with_all [] bs; log = log_of bs }

  pub replay-log_of :
      (bs : List Binding) (map : Map CacheKey (List BlockId)) (n : ℕ) (rest : Bytes)
      → All Reads bs
      → replay json map n (lines (log_of bs ++ rest))
        ≡ replay json (with_all map bs) (n + length (log_of bs)) (lines rest)
  unfolding log_of with_all replay
  replay-log_of [] map n rest reads = ap (λ k. replay json map k (lines rest)) (omega arith)
  replay-log_of (b ∷ bs) map n rest (r, reads) =
      rw
        (
          append_assoc (binding_line b) (log_of bs) rest,
          lines-line (json.to_string b) (log_of bs ++ rest) r.one_line,
          line_utf8 b r,
          trimmed b r,
          r.law,
          replay-log_of bs (insert b.key b.blocks map) (n + length (binding_line b)) rest reads,
          length-append (binding_line b) (log_of bs),
        )
        (ap (λ k. replay json (with_all (insert b.key b.blocks map) bs) k (lines rest))
          (omega arith))

  -- A last line that is UTF-8 but no binding is not read.
  replay-tail :
      (map : Map CacheKey (List BlockId)) (n : ℕ) (tail : Bytes)
      → no_newline tail ≡ true
      → is_utf8 tail ≡ true
      → json.from_str (trim_end tail) ≡ none
      → replay json map n (lines tail) ≡ ok (map, n)
  unfolding replay lines
  replay-tail map n [] one u bad = refl
  replay-tail map n (b ∷ bs) one u bad = rw (lines-tail b bs one, u, bad)

  pub replay-line :
      (map : Map CacheKey (List BlockId)) (n : ℕ) (text rest : Bytes)
      → no_newline text ≡ true
      → is_utf8 (line_of text) ≡ true
      → json.from_str (trim_end (line_of text)) ≡ none
      → replay json map n (lines (line_of text ++ rest)) ≡ ok (map, n)
  unfolding replay
  replay-line map n text rest one u bad = rw (lines-line text rest one, u, bad)

  abbrev pub after_replay :
      Bytes → Result String (Map CacheKey (List BlockId) × ℕ) → Result String PrefixManifest
  after_replay file result = elim result [
    | err message ↦ err message
    | ok read ↦ ok (record { map = read.0; log = take read.1 file })
  ]

  pub opened :
      (bs : List Binding) (tail : Bytes)
      → All Reads bs
      → ((n : ℕ) → replay json (with_all [] bs) n (lines tail) ≡ ok (with_all [] bs, n))
      → open_manifest json (log_of bs ++ tail) ≡ ok (restored bs)
  unfolding open_manifest
  opened bs tail reads h =
      ap (after_replay (log_of bs ++ tail))
        (replay-log_of bs [] 0 tail reads ∙ h (0 + length (log_of bs)))
      ∙ ap (λ (l : Bytes). ok (record { map = with_all [] bs; log = l }))
          (ap (λ k. take k (log_of bs ++ tail)) (omega arith) ∙ take_append (log_of bs) tail)

  -- A log that ends in a line without newline that is UTF-8 but no binding opens with the
  -- bindings before it, and that line is cut off the log.
  pub open-torn :
      (bs : List Binding) (tail : Bytes)
      → All Reads bs
      → no_newline tail ≡ true
      → is_utf8 tail ≡ true
      → json.from_str (trim_end tail) ≡ none
      → open_manifest json (log_of bs ++ tail) ≡ ok (restored bs)
  open-torn bs tail reads one u bad =
      opened bs tail reads (λ n. replay-tail (with_all [] bs) n tail one u bad)

  pub open-bad_line :
      (bs : List Binding) (text rest : Bytes)
      → All Reads bs
      → no_newline text ≡ true
      → is_utf8 (line_of text) ≡ true
      → json.from_str (trim_end (line_of text)) ≡ none
      → open_manifest json (log_of bs ++ (line_of text ++ rest)) ≡ ok (restored bs)
  open-bad_line bs text rest reads one u bad =
      opened bs (line_of text ++ rest) reads
        (λ n. replay-line (with_all [] bs) n text rest one u bad)

  pub open-log_of :
      (bs : List Binding) → All Reads bs → open_manifest json (log_of bs) ≡ ok (restored bs)
  unfolding replay lines
  open-log_of bs reads =
      ap (open_manifest json) (sym (append-nil (log_of bs))) ∙ opened bs [] reads (λ n. refl)

  pub All-snoc :
      (bs : List Binding) (b : Binding) → All Reads bs → Reads b → All Reads (bs ++ b ∷ [])
  All-snoc [] b reads r = (r, tt)
  All-snoc (x ∷ bs) b (q, reads) r = (q, All-snoc bs b reads r)

  bound_manifest :
      (bs : List Binding) (b : Binding)
      → (bind json none true (restored bs) b.key b.blocks).0 ≡ restored (bs ++ b ∷ [])
  unfolding bind write_all with_all log_of
  bound_manifest bs b =
      ap {B = PrefixManifest}
        (λ (map : Map CacheKey (List BlockId)). record {
          map = map;
          log = log_of bs ++ binding_line b;
        })
        (sym (with_all-append [] bs (b ∷ [])))
      ∙ ap {B = PrefixManifest}
          (λ (log : Bytes). record { map = with_all [] (bs ++ b ∷ []); log = log })
          (ap (λ l. log_of bs ++ l) (sym (append-nil (binding_line b)))
            ∙ sym (log_of-append bs (b ∷ [])))

  -- A bind on a disk that takes the write succeeds; afterwards the key has its blocks, all
  -- other keys keep theirs, and reopening the log gives the same manifest. The JSON of every
  -- binding is assumed to be a UTF-8 object on one line that is read back.
  pub bind-reopen :
      (bs : List Binding) (b : Binding)
      → All Reads bs
      → Reads b
      → let (after, result) = bind json none true (restored bs) b.key b.blocks in
        (result ≡ ok tt)
        × (open_manifest json after.log ≡ ok after)
        × (lookup after b.key ≡ some b.blocks)
        × ((key : CacheKey) → key ≢ b.key → lookup after key ≡ lookup (restored bs) key)
  unfolding bind write_all lookup
  bind-reopen bs b reads r = (
    refl,
    subst (λ (m : PrefixManifest). open_manifest json m.log ≡ ok m) (sym (bound_manifest bs b))
        (open-log_of (bs ++ b ∷ []) (All-snoc bs b reads r)),
    ground (arith, get-insert b.key b.key b.blocks (with_all [] bs), ==_refl b.key),
    λ key apart. ground (arith, get-insert b.key key b.blocks (with_all [] bs), ==_iff b.key key),
  )
