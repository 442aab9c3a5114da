-- ===== src/Core/Signing/Collisions.antt =====
-- What the signed messages of crates/kalpak-core/src/signing.rs tell apart, and what the older,
-- NUL-terminated ones do not.
use mathlib.Core.List.{append_assoc}
use kalpakdb.Prelude.{
  ℕ, zero, suc, eqb, if◌then◌else◌, sym, ap, ◌∙◌, ◌≡◌, refl, Option, some, List, [], ◌∷◌, ◌++◌,
  Bytes,
}
use kalpakdb.Core.Key.{BlockId, AgentId, CacheKey}
use kalpakdb.Core.Signing.{
  push_key, push_parent, push_link, register_message, bind_message, Link, chain_message,
  lease_begin_message, lease_cancel_message, lease_renew_message, lease_commit_message,
}

-- The operations that are signed.
pub data Operation : Type 0 where
  register : AgentId → Bytes → Operation
  bind : AgentId → CacheKey → List BlockId → Option CacheKey → Operation
  chain : AgentId → List Link → Operation
  lease_begin : AgentId → BlockId → List BlockId → Operation
  lease_cancel : AgentId → BlockId → Operation
  lease_renew : AgentId → BlockId → ℕ → ℕ → Operation
  lease_commit : AgentId → BlockId → CacheKey → List BlockId → Option CacheKey → ℕ → Operation

unfoldable pub message : Operation → Bytes
unfolding register_message bind_message chain_message lease_begin_message lease_cancel_message
    lease_renew_message lease_commit_message
message (register agent name) = register_message agent name
message (bind agent key blocks parent) = bind_message agent key blocks parent
message (chain agent links) = chain_message agent links
message (lease_begin agent lease blocks) = lease_begin_message agent lease blocks
message (lease_cancel agent lease) = lease_cancel_message agent lease
message (lease_renew agent lease generation ttl) = lease_renew_message agent lease generation ttl
message (lease_commit agent lease key blocks parent revision) =
    lease_commit_message agent lease key blocks parent revision

abbrev pub kind : Operation → ℕ
kind (register agent name) = 0
kind (bind agent key blocks parent) = 1
kind (chain agent links) = 2
kind (lease_begin agent lease blocks) = 3
kind (lease_cancel agent lease) = 4
kind (lease_renew agent lease generation ttl) = 5
kind (lease_commit agent lease key blocks parent revision) = 6

byte_at : ℕ → Bytes → ℕ
byte_at _ [] = 0
byte_at zero (b ∷ bs) = b
byte_at (suc n) (b ∷ bs) = byte_at n bs

-- The kind of a message, read off three of its bytes.
kind_of_message : Bytes → ℕ
unfolding byte_at
kind_of_message m =
    if eqb (byte_at 5 m) b'r'
    then 0
    else if eqb (byte_at 5 m) b'b'
    then 1
    else if eqb (byte_at 5 m) b'c'
    then 2
    else if eqb (byte_at 11 m) b'b'
    then 3
    else if eqb (byte_at 11 m) b'r'
    then 5
    else if eqb (byte_at 12 m) b'a'
    then 4
    else 6

kind_of-message : (a : Operation) → kind_of_message (message a) ≡ kind a
unfolding message kind_of_message byte_at
kind_of-message (register g n) = refl
kind_of-message (bind g k bs p) = refl
kind_of-message (chain g l) = refl
kind_of-message (lease_begin g l bs) = refl
kind_of-message (lease_cancel g l) = refl
kind_of-message (lease_renew g l n t) = refl
kind_of-message (lease_commit g l k bs p r) = refl

-- Two operations with one signed message are of one kind: a message that is signed for one kind
-- of operation is never the message of another kind, whatever the two contain.
pub message-kind : (a b : Operation) → message a ≡ message b → kind a ≡ kind b
message-kind a b same = sym (kind_of-message a) ∙ ap kind_of_message same ∙ kind_of-message b

-- The bind message does not depend on the fingerprint of the parent: two parents with one prefix
-- hash give one message.
pub bind_message-parent :
    (agent : AgentId) (key : CacheKey) (blocks : List BlockId) (p q : CacheKey)
    → p.prefix_hash ≡ q.prefix_hash
    → bind_message agent key blocks (some p) ≡ bind_message agent key blocks (some q)
unfolding bind_message push_link push_parent
bind_message-parent agent key blocks p q same = rw same

abbrev pub named : Bytes → Bytes → Bytes → BlockId → CacheKey
named model tokenizer layout hash = record {
  fingerprint = record { model_id = model; tokenizer_hash = tokenizer; kv_layout = layout };
  prefix_hash = hash;
}

-- A NUL byte inside a name moves the boundary between two fields of the bind message: the model
-- `a NUL b` with the tokenizer `c` and the model `a` with the tokenizer `b NUL c` have one
-- message.
pub bind_message-nul :
    (agent : AgentId) (a b c layout : Bytes) (hash : BlockId) (blocks : List BlockId)
    (parent : Option CacheKey)
    → bind_message agent (named (a ++ 0 ∷ b) c layout hash) blocks parent
      ≡ bind_message agent (named a (b ++ 0 ∷ c) layout hash) blocks parent
unfolding bind_message push_link push_key
bind_message-nul agent a b c layout hash blocks parent = simp append_assoc
