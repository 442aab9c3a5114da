-- ===== src/Core/Key.antt =====
-- crates/kalpak-core/src/cache_key.rs, block.rs and identity.rs: identifiers and cache keys.
-- A `BlockId` and an `AgentId` stand for their 32 bytes, a `String` for its UTF-8 bytes.
use kalpakdb.Prelude.{
  nat_eq, list_eq, option_eq, ℕ, ◌/◌, ◌%◌, ◌≡◌, ◌↔◌, Bool, ◌&&◌, true, Option, none, some, List, [],
  ◌∷◌, ◌++◌, Bytes, Eq, ◌==◌, ==_iff, arith,
}

abbrev pub BlockId : Type 0
BlockId = Bytes

abbrev pub AgentId : Type 0
AgentId = Bytes

pub record ModelFingerprint : Type 0 where
  pub model_id : Bytes
  pub tokenizer_hash : Bytes
  pub kv_layout : Bytes

pub record CacheKey : Type 0 where
  pub fingerprint : ModelFingerprint
  pub prefix_hash : BlockId

abbrev pub fingerprint_eqb : ModelFingerprint → ModelFingerprint → Bool
fingerprint_eqb a b =
    a.model_id == b.model_id && (a.tokenizer_hash == b.tokenizer_hash && a.kv_layout == b.kv_layout)

pub fingerprint_eqb_iff : (a b : ModelFingerprint) → (fingerprint_eqb a b ≡ true) ↔ (a ≡ b)
fingerprint_eqb_iff a b = ground (
  arith,
  ==_iff a.model_id b.model_id,
  ==_iff a.tokenizer_hash b.tokenizer_hash,
  ==_iff a.kv_layout b.kv_layout,
)

instance abbrev pub fingerprint_eq : Eq ModelFingerprint
fingerprint_eq = record { equal = fingerprint_eqb; equal_iff = fingerprint_eqb_iff }

abbrev pub key_eqb : CacheKey → CacheKey → Bool
key_eqb a b = a.fingerprint == b.fingerprint && a.prefix_hash == b.prefix_hash

pub key_eqb_iff : (a b : CacheKey) → (key_eqb a b ≡ true) ↔ (a ≡ b)
key_eqb_iff a b =
    ground
      (arith, fingerprint_eqb_iff a.fingerprint b.fingerprint, ==_iff a.prefix_hash b.prefix_hash)

instance abbrev pub key_eq : Eq CacheKey
key_eq = record { equal = key_eqb; equal_iff = key_eqb_iff }

-- `n.to_le_bytes()` of an integer of `w` bytes.
unfoldable pub to_le_bytes : ℕ → ℕ → Bytes
to_le_bytes ℕ.zero n = []
to_le_bytes (ℕ.suc w) n = n % 256 ∷ to_le_bytes w (n / 256)

-- BLAKE3 is not the program's own: the model takes it as the function `hash`.
module _ (hash : Bytes → Bytes) where
  unfoldable pub id_of : Bytes → BlockId
  id_of bytes = hash bytes

  unfoldable pub verify : BlockId → Bytes → Bool
  unfolding id_of
  verify id bytes = id_of bytes == id

  token_bytes : List ℕ → Bytes
  token_bytes [] = []
  token_bytes (t ∷ ts) = to_le_bytes 4 t ++ token_bytes ts

  -- The hasher is fed the parent's hash, if any, and then each token as a little-endian `u32`.
  unfoldable pub hash_tokens : Option BlockId → List ℕ → BlockId
  unfolding token_bytes
  hash_tokens none tokens = hash (token_bytes tokens)
  hash_tokens (some p) tokens = hash (p ++ token_bytes tokens)

  unfoldable pub root : ModelFingerprint → List ℕ → CacheKey
  root fingerprint tokens = record {
    fingerprint = fingerprint;
    prefix_hash = hash_tokens none tokens;
  }

  unfoldable pub extend : CacheKey → List ℕ → CacheKey
  extend key tokens = record {
    fingerprint = key.fingerprint;
    prefix_hash = hash_tokens (some key.prefix_hash) tokens;
  }
