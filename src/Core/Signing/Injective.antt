-- ===== src/Core/Signing/Injective.antt =====
-- A signature on a lease message authorises one request only: the messages of
-- crates/kalpak-core/src/signing.rs that carry length prefixes determine all that they were made of.
use native.Mathlib.Nat.{pow-suc}
use mathlib.Core.Path.{ap₂}
use mathlib.Core.List.{append_assoc}
use kalpakdb.Prelude.{
  sym, ◌∙◌, ℕ, zero, suc, ◌/◌, ◌%◌, ◌^◌, ◌<◌, ◌≡◌, refl, ap, Option, none, some, List, [], ◌∷◌,
  ◌++◌, Bytes, length, All, arith,
}
use kalpakdb.Core.Key.{BlockId, AgentId, CacheKey, to_le_bytes}
use kalpakdb.Core.Signing.{
  push_blocks, push_field, push_lease_key, push_lease_parent, lease_begin_message,
  lease_commit_message, begin_prefix, commit_prefix,
}

-- Fronts of one length are equal, and so are the rests.
pub append-injective : (a b x y : Bytes) → length a ≡ length b → a ++ x ≡ b ++ y → (a ≡ b) × (x ≡ y)
append-injective [] [] x y h e = (refl, e)
append-injective [] (c ∷ b) x y h e = absurd (omega arith)
append-injective (c ∷ a) [] x y h e = absurd (omega arith)
append-injective (c ∷ a) (d ∷ b) x y h e =
    let rest : a ++ x ≡ b ++ y = cc in
    let heads : c ≡ d = cc in
    let (front, back) = append-injective a b x y (omega arith) rest in (cc, back)

pub length-to_le_bytes : (w n : ℕ) → length (to_le_bytes w n) ≡ w
unfolding to_le_bytes
length-to_le_bytes zero n = refl
length-to_le_bytes (suc w) n = ap suc (length-to_le_bytes w (n / 256))

-- Bytes of a number that fits determine it.
pub to_le_bytes-injective :
    (w n m : ℕ) → n < 256 ^ w → m < 256 ^ w → to_le_bytes w n ≡ to_le_bytes w m → n ≡ m
unfolding to_le_bytes
to_le_bytes-injective zero n m hn hm e = omega arith
to_le_bytes-injective (suc w) n m hn hm e =
    let low : n % 256 ≡ m % 256 = cc in
    let tail : to_le_bytes w (n / 256) ≡ to_le_bytes w (m / 256) = cc in
    let bound = pow-suc 256 w in
    let high =
      to_le_bytes-injective w (n / 256) (m / 256) (omega (arith, bound)) (omega (arith, bound))
        tail in
    omega (arith, low, high)

abbrev pub u64_mod : ℕ
u64_mod = 256 ^ 8

-- An identifier has its 32 bytes.
abbrev pub IsId : Bytes → Type 0
IsId b = length b ≡ 32

-- The lengths of a key's strings fit into a `u64`.
pub record KeyFits (key : CacheKey) : Type 0 where
  pub model_id : length key.fingerprint.model_id < u64_mod
  pub tokenizer_hash : length key.fingerprint.tokenizer_hash < u64_mod
  pub kv_layout : length key.fingerprint.kv_layout < u64_mod
  pub prefix_hash : IsId key.prefix_hash

number-injective :
    (w n m : ℕ) (x y : Bytes)
    → n < 256 ^ w
    → m < 256 ^ w
    → to_le_bytes w n ++ x ≡ to_le_bytes w m ++ y
    → (n ≡ m) × (x ≡ y)
number-injective w n m x y hn hm e =
    let (front, back) =
      append-injective (to_le_bytes w n) (to_le_bytes w m) x y
        (omega (arith, length-to_le_bytes w n, length-to_le_bytes w m)) e in
    (to_le_bytes-injective w n m hn hm front, back)

push_field-injective :
    (v u x y : Bytes)
    → length v < u64_mod
    → length u < u64_mod
    → push_field v ++ x ≡ push_field u ++ y
    → (v ≡ u) × (x ≡ y)
unfolding push_field
push_field-injective v u x y hv hu e =
    let e' =
      sym (append_assoc (to_le_bytes 8 (length v)) v x)
      ∙ e
      ∙ append_assoc (to_le_bytes 8 (length u)) u y in
    let (same, rest) = number-injective 8 (length v) (length u) (v ++ x) (u ++ y) hv hu e' in
    append-injective v u x y same rest

push_blocks-injective :
    (bs cs : List BlockId) (x y : Bytes)
    → length bs ≡ length cs
    → All IsId bs
    → All IsId cs
    → push_blocks bs ++ x ≡ push_blocks cs ++ y
    → (bs ≡ cs) × (x ≡ y)
unfolding push_blocks
push_blocks-injective [] [] x y h p q e = (refl, e)
push_blocks-injective [] (c ∷ cs) x y h p q e = absurd (omega arith)
push_blocks-injective (b ∷ bs) [] x y h p q e = absurd (omega arith)
push_blocks-injective (b ∷ bs) (c ∷ cs) x y h p q e =
    let e' = sym (append_assoc b (push_blocks bs) x) ∙ e ∙ append_assoc c (push_blocks cs) y in
    let (head, rest) =
      append-injective b c (push_blocks bs ++ x) (push_blocks cs ++ y) (omega arith) e' in
    let (tail, back) = push_blocks-injective bs cs x y (omega arith) p.1 q.1 rest in
    (ap₂ ◌∷◌ head tail, back)

push_lease_key-injective :
    (k j : CacheKey) (x y : Bytes)
    → KeyFits k
    → KeyFits j
    → push_lease_key k ++ x ≡ push_lease_key j ++ y
    → (k ≡ j) × (x ≡ y)
unfolding push_lease_key
push_lease_key-injective k j x y p q e =
    let a = k.fingerprint in
    let b = j.fingerprint in
    let e' = simp append_assoc at e in
    let (models, e1) =
      push_field-injective a.model_id b.model_id
        (push_field a.tokenizer_hash ++ (push_field a.kv_layout ++ (k.prefix_hash ++ x)))
        (push_field b.tokenizer_hash ++ (push_field b.kv_layout ++ (j.prefix_hash ++ y))) p.model_id
        q.model_id e' in
    let (tokenizers, e2) =
      push_field-injective a.tokenizer_hash b.tokenizer_hash
        (push_field a.kv_layout ++ (k.prefix_hash ++ x))
        (push_field b.kv_layout ++ (j.prefix_hash ++ y)) p.tokenizer_hash q.tokenizer_hash e1 in
    let (layouts, e3) =
      push_field-injective a.kv_layout b.kv_layout (k.prefix_hash ++ x) (j.prefix_hash ++ y)
        p.kv_layout q.kv_layout e2 in
    let (hashes, e4) =
      append-injective k.prefix_hash j.prefix_hash x y (omega (arith, p.prefix_hash, q.prefix_hash))
        e3 in
    (ground (arith, models, tokenizers, layouts, hashes), e4)

-- What a commit message is made of.
pub record CommitParts : Type 0 where
  pub agent : AgentId
  pub lease : BlockId
  pub key : CacheKey
  pub blocks : List BlockId
  pub parent : Option CacheKey
  pub expected_revision : ℕ

abbrev pub ParentFits : Option CacheKey → Type 0
ParentFits none = Unit
ParentFits (some p) = KeyFits p

-- The identifiers have 32 bytes, and the numbers and lengths fit into a `u64`.
pub record PartsFit (c : CommitParts) : Type 0 where
  pub agent : IsId c.agent
  pub lease : IsId c.lease
  pub key : KeyFits c.key
  pub count : length c.blocks < u64_mod
  pub blocks : All IsId c.blocks
  pub parent : ParentFits c.parent
  pub revision : c.expected_revision < u64_mod

unfoldable pub commit_message : CommitParts → Bytes
commit_message c = lease_commit_message c.agent c.lease c.key c.blocks c.parent c.expected_revision

push_lease_parent-injective :
    (p q : Option CacheKey)
    → ParentFits p
    → ParentFits q
    → push_lease_parent p ≡ push_lease_parent q
    → p ≡ q
unfolding push_lease_parent
push_lease_parent-injective none none hp hq e = refl
push_lease_parent-injective none (some k) hp hq e = absurd (ground arith)
push_lease_parent-injective (some k) none hp hq e = absurd (ground arith)
push_lease_parent-injective (some k) (some j) hp hq e =
    let same : push_lease_key k ≡ push_lease_key j = cc in
    ap some (push_lease_key-injective k j [] [] hp hq (ap (λ m. m ++ []) same)).0

-- Lease commit messages with 32-byte identifiers and with numbers and lengths below 2^64 are
-- equal only if agent, lease, key, blocks, parent and expected revision are all equal.
pub commit_message-injective :
    (c d : CommitParts) → PartsFit c → PartsFit d → commit_message c ≡ commit_message d → c ≡ d
unfolding commit_message lease_commit_message
commit_message-injective c d p q e =
    let (agents, e1) =
      append-injective c.agent d.agent _ _ (omega (arith, p.agent, q.agent))
        (append-injective commit_prefix commit_prefix _ _ refl e).1 in
    let (leases, e2) = append-injective c.lease d.lease _ _ (omega (arith, p.lease, q.lease)) e1 in
    let (revisions, e3) =
      number-injective 8 c.expected_revision d.expected_revision _ _ p.revision q.revision e2 in
    let (keys, e4) = push_lease_key-injective c.key d.key _ _ p.key q.key e3 in
    let (counts, e5) =
      number-injective 8 (length c.blocks) (length d.blocks) _ _ p.count q.count e4 in
    let (blocks, e6) = push_blocks-injective c.blocks d.blocks _ _ counts p.blocks q.blocks e5 in
    let parents = push_lease_parent-injective c.parent d.parent p.parent q.parent e6 in
    ground (arith, agents, leases, revisions, keys, blocks, parents)

-- Lease begin messages with 32-byte identifiers and fewer than 2^64 blocks are equal only if
-- agent, lease and blocks are equal.
pub lease_begin_message-injective :
    (a b : AgentId) (l m : BlockId) (bs cs : List BlockId)
    → IsId a
    → IsId b
    → IsId l
    → IsId m
    → length bs < u64_mod
    → length cs < u64_mod
    → All IsId bs
    → All IsId cs
    → lease_begin_message a l bs ≡ lease_begin_message b m cs
    → (a ≡ b) × (l ≡ m) × (bs ≡ cs)
unfolding lease_begin_message
lease_begin_message-injective a b l m bs cs ha hb hl hm hbs hcs ibs ics e =
    let (agents, e1) =
      append-injective a b _ _ (omega arith)
        (append-injective begin_prefix begin_prefix _ _ refl e).1 in
    let (leases, e2) = append-injective l m _ _ (omega arith) e1 in
    let (counts, e3) = number-injective 8 (length bs) (length cs) _ _ hbs hcs e2 in
    let (blocks, _) = push_blocks-injective bs cs [] [] counts ibs ics (ap (λ k. k ++ []) e3) in
    (agents, leases, blocks)
