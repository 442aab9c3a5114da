-- ===== src/Core/Tests.antt =====
-- Concrete keys and operations for crates/kalpak-core, and the properties of its messages at them.
use kalpakdb.Prelude.{◌≡◌, refl, none, some, [], ◌∷◌, replicate, arith}
use kalpakdb.Core.Key.{BlockId, AgentId, CacheKey}
use kalpakdb.Core.Signing.{bind_message}
use kalpakdb.Core.Signing.Injective.{CommitParts, PartsFit, KeyFits, commit_message-injective}
use kalpakdb.Core.Signing.Collisions.{
  lease_cancel, kind, message-kind, named, bind_message-parent, bind_message-nul,
}

abbrev agent_a : AgentId
agent_a = replicate 32 7

abbrev lease_1 : BlockId
lease_1 = replicate 32 1

abbrev block_1 : BlockId
block_1 = replicate 32 11

abbrev block_2 : BlockId
block_2 = replicate 32 12

abbrev key_1 : CacheKey
key_1 = named (b'm' ∷ []) (b't' ∷ []) (b'k' ∷ []) block_1

abbrev foreign_key : CacheKey
foreign_key = named (b'o' ∷ b'l' ∷ b'd' ∷ []) (b't' ∷ []) (b'k' ∷ []) block_1

abbrev parts : CommitParts
parts = record {
  agent = agent_a;
  lease = lease_1;
  key = key_1;
  blocks = block_1 ∷ block_2 ∷ [];
  parent = some key_1;
  expected_revision = 5;
}

key_1-KeyFits : KeyFits key_1
key_1-KeyFits = record {
  model_id = omega arith;
  tokenizer_hash = omega arith;
  kv_layout = omega arith;
  prefix_hash = refl;
}

parts-PartsFit : PartsFit parts
parts-PartsFit = record {
  agent = refl;
  lease = refl;
  key = key_1-KeyFits;
  count = omega arith;
  blocks = (refl, (refl, tt));
  parent = key_1-KeyFits;
  revision = omega arith;
}

commit_message-injective_example : parts ≡ parts
commit_message-injective_example =
    commit_message-injective parts parts parts-PartsFit parts-PartsFit refl

message-kind_example : kind (lease_cancel agent_a lease_1) ≡ kind (lease_cancel agent_a lease_1)
message-kind_example =
    message-kind (lease_cancel agent_a lease_1) (lease_cancel agent_a lease_1) refl

bind_message-parent_example :
    bind_message agent_a key_1 (block_2 ∷ []) (some key_1)
    ≡ bind_message agent_a key_1 (block_2 ∷ []) (some foreign_key)
bind_message-parent_example =
    bind_message-parent agent_a key_1 (block_2 ∷ []) key_1 foreign_key refl

bind_message-nul_example :
    bind_message agent_a (named (b'm' ∷ 0 ∷ b't' ∷ []) (b'k' ∷ []) [] block_1) (block_2 ∷ []) none
    ≡ bind_message agent_a (named (b'm' ∷ []) (b't' ∷ 0 ∷ b'k' ∷ []) [] block_1) (block_2 ∷ []) none
bind_message-nul_example =
    bind_message-nul agent_a (b'm' ∷ []) (b't' ∷ []) (b'k' ∷ []) [] block_1 (block_2 ∷ []) none
