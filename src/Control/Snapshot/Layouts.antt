-- ===== src/Control/Snapshot/Layouts.antt =====
-- crates/kalpak-control/src/state_machine.rs: the six snapshot layouts, told apart by their magic
-- bytes, and how the older five become a current state.
use Prim.Native.String.{String}
use kalpakdb.Prelude.{
  ℕ, ◌+◌, Bool, Option, none, some, List, [], ◌∷◌, Bytes, eqb, if◌then◌else◌, ◌++◌, ◌≡◌, refl,
  Result, ok, err, arith,
}
use kalpakdb.Prelude.Map.{Map}
use kalpakdb.Core.Key.{BlockId, AgentId}
use kalpakdb.Control.Types.{
  LogId, UploadLease, LeaseState, AgentRecord, BindingRecord, MetadataState, empty_leases,
}

pub record V3LeaseState : Type 0 where
  pub initialized : Bool
  pub records : Map BlockId UploadLease
  pub revisions : Map Bytes ℕ

pub record V4LeaseState : Type 0 where
  pub initialized : Bool
  pub records : Map BlockId UploadLease
  pub revisions : Map Bytes ℕ
  pub cancelled : Map BlockId ℕ

pub record VersionedMetadata (L M : Type 0) : Type 0 where
  pub leases : L
  pub replica_requirements : Map BlockId ℕ
  pub agents : Map AgentId AgentRecord
  pub bindings : Map Bytes BindingRecord
  pub children : Map Bytes (List Bytes)
  pub block_refs : Map BlockId ℕ
  pub last_applied : Option LogId
  pub membership : M

pub record V2MetadataState (M : Type 0) : Type 0 where
  pub replica_requirements : Map BlockId ℕ
  pub agents : Map AgentId AgentRecord
  pub bindings : Map Bytes BindingRecord
  pub children : Map Bytes (List Bytes)
  pub block_refs : Map BlockId ℕ
  pub last_applied : Option LogId
  pub membership : M

pub record LegacyMetadataState (M : Type 0) : Type 0 where
  pub agents : Map AgentId AgentRecord
  pub bindings : Map Bytes BindingRecord
  pub children : Map Bytes (List Bytes)
  pub block_refs : Map BlockId ℕ
  pub last_applied : Option LogId
  pub membership : M

-- bincode: a decoder gives the value and the bytes that it consumed, or fails.
pub record Codec (M : Type 0) : Type 0 where
  pub encode : MetadataState M → Bytes
  pub decode_v6 : Bytes → Option (MetadataState M × ℕ)
  pub decode_v5 : Bytes → Option (VersionedMetadata LeaseState M × ℕ)
  pub decode_v4 : Bytes → Option (VersionedMetadata V4LeaseState M × ℕ)
  pub decode_v3 : Bytes → Option (VersionedMetadata V3LeaseState M × ℕ)
  pub decode_v2 : Bytes → Option (V2MetadataState M × ℕ)
  pub decode_legacy : Bytes → Option (LegacyMetadataState M × ℕ)

abbrev pub magic : ℕ → Bytes
magic version = b'K' ∷ b'L' ∷ b'P' ∷ b'K' ∷ b'S' ∷ b'M' ∷ b'0' ∷ (b'0' + version) ∷ []

unfoldable pub strip_prefix : Bytes → Bytes → Option Bytes
strip_prefix [] bytes = some bytes
strip_prefix (p ∷ ps) [] = none
strip_prefix (p ∷ ps) (b ∷ bs) = let rest = strip_prefix ps bs in if eqb p b then rest else none

pub strip_prefix-append : (p bytes : Bytes) → strip_prefix p (p ++ bytes) ≡ some bytes
unfolding strip_prefix
strip_prefix-append [] bytes = refl
strip_prefix-append (p ∷ ps) bytes = ground (arith, strip_prefix-append ps bytes)

unfoldable pub with_leases :
    {L M : Type 0} → VersionedMetadata L M → (L → LeaseState) → MetadataState M
with_leases old convert = record {
  block_fences = [];
  leases = convert old.leases;
  replica_requirements = old.replica_requirements;
  agents = old.agents;
  bindings = old.bindings;
  children = old.children;
  block_refs = old.block_refs;
  last_applied = old.last_applied;
  membership = old.membership;
}

unfoldable pub convert_v4 : V4LeaseState → LeaseState
convert_v4 l = record empty_leases {
  initialized = l.initialized;
  records = l.records;
  revisions = l.revisions;
  cancelled = l.cancelled;
}

unfoldable pub convert_v3 : V3LeaseState → LeaseState
convert_v3 l = record empty_leases {
  initialized = l.initialized;
  records = l.records;
  revisions = l.revisions;
}

unfoldable pub from_v2 : {M : Type 0} → V2MetadataState M → MetadataState M
from_v2 old = record {
  block_fences = [];
  leases = empty_leases;
  replica_requirements = old.replica_requirements;
  agents = old.agents;
  bindings = old.bindings;
  children = old.children;
  block_refs = old.block_refs;
  last_applied = old.last_applied;
  membership = old.membership;
}

unfoldable pub from_legacy : {M : Type 0} → LegacyMetadataState M → MetadataState M
from_legacy old = record {
  block_fences = [];
  leases = empty_leases;
  replica_requirements = [];
  agents = old.agents;
  bindings = old.bindings;
  children = old.children;
  block_refs = old.block_refs;
  last_applied = old.last_applied;
  membership = old.membership;
}

abbrev pub finish :
    {A M : Type 0}
    → (A → MetadataState M)
    → ℕ
    → Option (A × ℕ)
    → Result String (MetadataState M × ℕ)
finish f prefix none = err "bincode decoding failed"
finish f prefix (some (old, consumed)) = ok (f old, consumed + prefix)

module _ {M : Type 0} (codec : Codec M) where
  decode_legacy_layout : Bytes → Result String (MetadataState M × ℕ)
  unfolding from_legacy
  decode_legacy_layout bytes = finish from_legacy 0 (codec.decode_legacy bytes)

  decode_v2_layout : Bytes → Result String (MetadataState M × ℕ)
  unfolding decode_legacy_layout strip_prefix from_v2
  decode_v2_layout bytes = elim (strip_prefix (magic 2) bytes) [
    | some payload ↦ finish from_v2 8 (codec.decode_v2 payload)
    | none ↦ decode_legacy_layout bytes
  ]

  decode_v3_layout : Bytes → Result String (MetadataState M × ℕ)
  unfolding decode_v2_layout strip_prefix with_leases convert_v3
  decode_v3_layout bytes = elim (strip_prefix (magic 3) bytes) [
    | some payload ↦ finish (λ old. with_leases old convert_v3) 8 (codec.decode_v3 payload)
    | none ↦ decode_v2_layout bytes
  ]

  decode_v4_layout : Bytes → Result String (MetadataState M × ℕ)
  unfolding decode_v3_layout strip_prefix with_leases convert_v4
  decode_v4_layout bytes = elim (strip_prefix (magic 4) bytes) [
    | some payload ↦ finish (λ old. with_leases old convert_v4) 8 (codec.decode_v4 payload)
    | none ↦ decode_v3_layout bytes
  ]

  decode_v5_layout : Bytes → Result String (MetadataState M × ℕ)
  unfolding decode_v4_layout strip_prefix with_leases
  decode_v5_layout bytes = elim (strip_prefix (magic 5) bytes) [
    | some payload ↦ finish (λ old. with_leases old (λ l. l)) 8 (codec.decode_v5 payload)
    | none ↦ decode_v4_layout bytes
  ]

  -- The newest layout whose magic bytes fit.
  unfoldable pub decode_layout : Bytes → Result String (MetadataState M × ℕ)
  unfolding decode_v5_layout
  decode_layout bytes = elim (strip_prefix (magic 6) bytes) [
    | some payload ↦ finish (λ s. s) 8 (codec.decode_v6 payload)
    | none ↦ decode_v5_layout bytes
  ]

  pub decode_layout-v6 :
      (payload : Bytes)
      → decode_layout (magic 6 ++ payload) ≡ finish (λ s. s) 8 (codec.decode_v6 payload)
  unfolding decode_layout strip_prefix
  decode_layout-v6 payload = refl
