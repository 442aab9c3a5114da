-- ===== src/Core/Signing.antt =====
-- crates/kalpak-core/src/signing.rs: the messages that agents sign. Each is the bytes that the
-- source pushes onto its buffer, in order. Ed25519 and hex are not modelled.
pub mod Injective
pub mod Collisions
use kalpakdb.Prelude.{
  ℕ, ◌%◌, Bool, true, false, Option, none, some, List, [], ◌∷◌, ◌++◌, Bytes, length, is_some,
  u32_mod,
}
use kalpakdb.Core.Key.{BlockId, AgentId, CacheKey, to_le_bytes}

-- b"KLPK/"
abbrev klpk : Bytes
klpk = b'K' ∷ b'L' ∷ b'P' ∷ b'K' ∷ b'/' ∷ []

-- b"/v1\0"
abbrev v1 : Bytes
v1 = b'/' ∷ b'v' ∷ b'1' ∷ 0 ∷ []

abbrev lease_word : Bytes
lease_word = b'l' ∷ b'e' ∷ b'a' ∷ b's' ∷ b'e' ∷ b'/' ∷ []

abbrev pub register_prefix : Bytes
register_prefix = klpk ++ ((b'r' ∷ b'e' ∷ b'g' ∷ []) ++ v1)

abbrev pub bind_prefix : Bytes
bind_prefix = klpk ++ ((b'b' ∷ b'i' ∷ b'n' ∷ b'd' ∷ []) ++ v1)

abbrev pub chain_prefix : Bytes
chain_prefix = klpk ++ ((b'c' ∷ b'h' ∷ b'a' ∷ b'i' ∷ b'n' ∷ []) ++ v1)

abbrev pub begin_prefix : Bytes
begin_prefix = klpk ++ (lease_word ++ ((b'b' ∷ b'e' ∷ b'g' ∷ b'i' ∷ b'n' ∷ []) ++ v1))

abbrev pub cancel_prefix : Bytes
cancel_prefix = klpk ++ (lease_word ++ ((b'c' ∷ b'a' ∷ b'n' ∷ b'c' ∷ b'e' ∷ b'l' ∷ []) ++ v1))

abbrev pub renew_prefix : Bytes
renew_prefix = klpk ++ (lease_word ++ ((b'r' ∷ b'e' ∷ b'n' ∷ b'e' ∷ b'w' ∷ []) ++ v1))

abbrev pub commit_prefix : Bytes
commit_prefix = klpk ++ (lease_word ++ ((b'c' ∷ b'o' ∷ b'm' ∷ b'm' ∷ b'i' ∷ b't' ∷ []) ++ v1))

unfoldable pub push_key : CacheKey → Bytes
push_key key =
    key.fingerprint.model_id
    ++ 0
      ∷ (key.fingerprint.tokenizer_hash ++ 0 ∷ (key.fingerprint.kv_layout ++ 0 ∷ key.prefix_hash))

-- `for b in blocks { buf.extend_from_slice(b.as_bytes()) }`
unfoldable pub push_blocks : List BlockId → Bytes
push_blocks [] = []
push_blocks (b ∷ bs) = b ++ push_blocks bs

unfoldable pub push_parent : Option CacheKey → Bytes
push_parent (some p) = 1 ∷ p.prefix_hash
push_parent none = 0 ∷ []

unfoldable pub push_link : CacheKey → List BlockId → Option CacheKey → Bytes
push_link key blocks parent =
    push_key key
    ++ (to_le_bytes 4 (length blocks % u32_mod) ++ (push_blocks blocks ++ push_parent parent))

unfoldable pub register_message : AgentId → Bytes → Bytes
register_message agent display_name = register_prefix ++ (agent ++ display_name)

unfoldable pub bind_message : AgentId → CacheKey → List BlockId → Option CacheKey → Bytes
bind_message agent key blocks parent = bind_prefix ++ (agent ++ push_link key blocks parent)

abbrev pub Link : Type 0
Link = CacheKey × List BlockId × Option CacheKey

unfoldable pub push_links : List Link → Bytes
push_links [] = []
push_links ((key, blocks, parent) ∷ links) = push_link key blocks parent ++ push_links links

unfoldable pub chain_message : AgentId → List Link → Bytes
chain_message agent links =
    chain_prefix ++ (agent ++ (to_le_bytes 4 (length links % u32_mod) ++ push_links links))

-- A length-prefixed field.
unfoldable pub push_field : Bytes → Bytes
push_field value = to_le_bytes 8 (length value) ++ value

unfoldable pub push_lease_key : CacheKey → Bytes
push_lease_key key =
    push_field key.fingerprint.model_id
    ++ (push_field key.fingerprint.tokenizer_hash
        ++ (push_field key.fingerprint.kv_layout ++ key.prefix_hash))

unfoldable pub lease_begin_message : AgentId → BlockId → List BlockId → Bytes
lease_begin_message agent lease blocks =
    begin_prefix ++ (agent ++ (lease ++ (to_le_bytes 8 (length blocks) ++ push_blocks blocks)))

unfoldable pub lease_cancel_message : AgentId → BlockId → Bytes
lease_cancel_message agent lease = cancel_prefix ++ (agent ++ lease)

unfoldable pub lease_renew_message : AgentId → BlockId → ℕ → ℕ → Bytes
lease_renew_message agent lease expected_generation ttl_ticks =
    renew_prefix
    ++ (agent ++ (lease ++ (to_le_bytes 8 expected_generation ++ to_le_bytes 8 ttl_ticks)))

unfoldable pub push_lease_parent : Option CacheKey → Bytes
push_lease_parent none = 0 ∷ []
push_lease_parent (some p) = 1 ∷ push_lease_key p

unfoldable pub lease_commit_message :
    AgentId → BlockId → CacheKey → List BlockId → Option CacheKey → ℕ → Bytes
lease_commit_message agent lease key blocks parent expected_revision =
    commit_prefix
    ++ (agent
        ++ (lease
            ++ (to_le_bytes 8 expected_revision
                ++ (push_lease_key key
                    ++ (to_le_bytes 8 (length blocks)
                        ++ (push_blocks blocks ++ push_lease_parent parent))))))
