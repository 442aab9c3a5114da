-- ===== src/Storage/Manifest.antt =====
-- crates/kalpak-storage/src/manifest.rs: the bindings of cache keys to blocks, in a map and in a
-- log of JSON lines. serde_json is a parameter.
pub mod Replay
pub mod Loss
pub mod Longest
use Prim.Native.String.{String}
use kalpakdb.Prelude.{
  ℕ, zero, suc, ◌+◌, Bool, true, false, not, Option, none, some, List, [], ◌∷◌, ◌++◌, Bytes, ltb,
  if◌then◌else◌, length, take, Result, ok, err,
}
use kalpakdb.Prelude.Map.{Map, get, insert}
use kalpakdb.Prelude.Lines.{lines, line_of}
use kalpakdb.Core.Key.{BlockId, CacheKey, key_eq}
use kalpakdb.Storage.Text.{is_utf8, trim_end}

pub record Binding : Type 0 where
  pub key : CacheKey
  pub blocks : List BlockId

-- `log` is the file; its handle stands at the end of it, where the next line goes.
pub record PrefixManifest : Type 0 where
  pub map : Map CacheKey (List BlockId)
  pub log : Bytes

pub record Json : Type 0 where
  pub to_string : Binding → Bytes
  pub from_str : Bytes → Option Binding

-- What `write_all` puts into the file when the disk still takes `room` bytes, or all that come,
-- and whether it succeeds.
unfoldable pub write_all : Option ℕ → Bytes → Bytes × Bool
write_all none bytes = (bytes, true)
write_all (some n) bytes = if ltb n (length bytes) then (take n bytes, false) else (bytes, true)

module _ (json : Json) where
  -- The loop of `open` over the lines, each read by `read_line`, which refuses bytes that are not
  -- UTF-8: the map, and the length of what is intact.
  unfoldable pub replay :
      Map CacheKey (List BlockId) → ℕ → List Bytes → Result String (Map CacheKey (List BlockId) × ℕ)
  replay map valid_end [] = ok (map, valid_end)
  replay map valid_end (line ∷ rest) =
      if not (is_utf8 line)
      then err "stream did not contain valid UTF-8"
      else elim (json.from_str (trim_end line)) [
        | none ↦ ok (map, valid_end)
        | some b ↦ replay (insert b.key b.blocks map) (valid_end + length line) rest
      ]

  unfoldable pub open_manifest : Bytes → Result String PrefixManifest
  open_manifest file = elim (replay [] 0 (lines file)) [
    | err message ↦ err message
    | ok read ↦ ok (record { map = read.0; log = take read.1 file })
  ]

  -- `synced` says whether `sync_data` works.
  unfoldable pub bind :
      Option ℕ
      → Bool
      → PrefixManifest
      → CacheKey
      → List BlockId
      → PrefixManifest × Result String (Unit {0})
  bind room synced m key blocks =
      let line = line_of (json.to_string (record { key = key; blocks = blocks })) in
      let (written, whole) = write_all room line in
      if not whole
      then (record m { log = m.log ++ written }, err "write failed")
      else if not synced
      then (record m { log = m.log ++ written }, err "sync failed")
      else (record { map = insert key blocks m.map; log = m.log ++ written }, ok tt)

unfoldable pub lookup : PrefixManifest → CacheKey → Option (List BlockId)
lookup m key = get key m.map

-- The loop of `longest_prefix`, with the best so far.
unfoldable pub longest_from :
    Option (CacheKey × List BlockId)
    → PrefixManifest
    → List CacheKey
    → Option (CacheKey × List BlockId)
longest_from best m [] = best
longest_from best m (key ∷ chain) = elim (get key m.map) [
  | some blocks ↦ longest_from (some (key, blocks)) m chain
  | none ↦ best
]

unfoldable pub longest_prefix : PrefixManifest → List CacheKey → Option (CacheKey × List BlockId)
unfolding longest_from
longest_prefix m chain = longest_from none m chain

abbrev pub manifest_len : PrefixManifest → ℕ
manifest_len m = length m.map
