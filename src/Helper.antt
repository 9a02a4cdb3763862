-- ===== src/Helper.antt =====
-- internal/vscodehelper: the read-only JSON-RPC helper of the VS Code extension.
pub mod Rpc
pub mod Params
pub mod Int64
pub mod Ranges
pub mod Progress
pub mod Revision
pub mod Paths
pub mod Repository
pub mod Discovery
pub mod Web
pub mod Refs
pub mod History
pub mod Blame
pub mod FileDiff
pub mod Handlers
pub mod SearchRun
pub mod Server
pub mod Dispatch
mod Samples
