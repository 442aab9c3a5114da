-- ===== src/Control/Retry.antt =====
-- A commit that is sent again (crates/kalpak-control/src/leases.rs, state_machine.rs).
use Prim.Native.String.{String}
use kalpakdb.Prelude.{list_eq, nat_eq, option_eq}
use kalpakdb.Core.Key.{key_eq}
