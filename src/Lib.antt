-- ===== src/Lib.antt =====
-- kalpakdb: a content-addressed store for the KV caches of language models, with a replicated
-- control plane.
--
-- The repository's core logic is in four crates. crates/kalpak-core has the identifiers, the
-- cache keys and the messages that agents sign. crates/kalpak-control has the replicated
-- state: agents, bindings of cache keys to blocks, upload leases, replica requirements and
-- block fences, changed only by entries of the Raft log, and kept over restarts by snapshots
-- and by the log file. crates/kalpak-storage keeps the blocks on disk. crates/kalpakdb serves
-- all of it over HTTP and gRPC.
--
-- - Prelude: Boolean tests, lists, association lists (for HashMap and BTreeMap), results,
--   machine integers.
-- - Core.Key: cache_key.rs, block.rs, identity.rs. Core.Signing: signing.rs.
-- - Control.Types: types.rs and the state of leases.rs and state_machine.rs (Request,
--   Response, LeaseState, MetadataState).
-- - Control.Leases: reserve, cancel, renew, advance, expire of leases.rs; Control.Commit: its
--   validate_commit.
-- - Control.Binding: bind_one of state_machine.rs; Control.Machine: apply, apply_one and
--   apply_unfenced.
-- - Control.Snapshot: LeaseState::validate and the checks of decode_snapshot;
--   Snapshot.Layouts: the layouts it reads; Snapshot.Store: open, build_snapshot,
--   install_snapshot and persist_snapshot.
-- - Control.Log: log_store.rs; Log.Index: its BTreeMap. A write may stop at any byte.
-- - Storage.Segment: segment.rs, with u64 sums and products that wrap, as in the release
--   profile. The fuel of scan is one step for each 4096 bytes of the file and two more, which
--   is enough where sizes do not wrap, since a record takes at least 4096 bytes.
-- - Storage.Store: the state of store.rs, get, contains, verify_all and stats. Its reads may
--   fail at any place; an index out of bounds is a result of its own. Store.Writing: put,
--   put_many, repair and open_with, with write_batch of io.rs. What the device does with each
--   write, sync and open is a list of events; a write that fails leaves any number of its
--   bytes. The names of segment files are numbers here, so a file that is opened under a new
--   number is empty. Store.Compaction: compact.
-- - Storage.Store.Layout, Batch, Going, Staging, Loop, Refines: where payloads lie in the
--   files, and what holds while put_many runs. Store.History: calls beside an ideal memory.
-- - Storage.Tiered: tiered.rs over the block store, with moka as a record of operations and
--   laws (an entry may vanish, but is never made up). Storage.Tiered.Tier, Effects, Calls,
--   Reads: what the tier keeps and what a read answers.
-- - Storage.Manifest: manifest.rs, with Storage.Text for the UTF-8 check of read_line and for
--   trim_end.
-- - Control.Invariant, Control.Status, Control.Refs, Control.Fencing, Control.Retry: what the
--   state machine keeps, and what its requests change.
-- - Daemon.Retention: retention.rs. The fuel of the loop of open is one step for each byte of
--   the file and one more, which is enough since a record has more than 88 bytes.
--   Retention.Journal, Reopen, Batches, Protecting: what an opening finds; Retention.Counts,
--   Entering, Exclusion: writers and release checks.
-- - Control.Counts: status_counts of leases.rs. Daemon.Admission: admission.rs.
-- - Core.Tests, Daemon.Tests, Control.Tests, Control.FenceTests, Control.SnapshotTests,
--   Control.LogTests, Storage.Tests, Storage.SegmentTests, Storage.StoreTests,
--   Storage.TieredTests: runs on concrete inputs.
--
-- A map is an association list without order: no operation modelled here depends on the order
-- of a map, but for the Raft log, whose list is kept in the order of its keys. Bytes, hashes
-- and strings are lists of native numbers. A u64 is a native number; loops are structural, but
-- for the scan of a segment, which has fuel. Where the source adds with a check (checked_add)
-- or saturates, the model does the same at 2^64. Sums of lengths do not wrap, as they count
-- elements in memory. A count in block_refs is a u32: `+= 1` wraps at 2^32 in the model.
--
-- Parameters of the definitions, since their code is not in the repository: BLAKE3, serde_json
-- for keys, entries and files, bincode for the state, the membership type of openraft. The
-- theorems on snapshots and logs take as a hypothesis that the codecs read back what they
-- wrote, for the values at hand, and that JSON is UTF-8 on one line.
--
-- Not modelled: networking, consensus itself, time, file system calls beyond their outcome,
-- and the other parts that the project's manifest lists.

pub mod Prelude
pub mod Core
pub mod Control
pub mod Storage
pub mod Daemon
