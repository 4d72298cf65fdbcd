-- ===== src/Tests.antt =====
-- Runs of the theorems at concrete inputs.
pub mod External
pub mod Machine
pub mod CacheRuns
pub mod StoreRuns
pub mod RootRuns
pub mod HealRuns
pub mod ErrorRuns
pub mod ClearRuns
pub mod PruneRuns
pub mod KeyRuns
pub mod DaemonProtocol
pub mod DaemonRuns
pub mod StateRuns
pub mod ProtocolRuns
pub mod InstallRuns
pub mod LaunchdRuns
