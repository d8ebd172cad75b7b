-- ===== src/Pause.antt =====
-- cmd/hpk-pause/main.go: the process that starts the containers of a pod and waits for them.
pub mod Tracker
pub mod Lifecycle
pub mod Shutdown
pub mod Progress
pub mod EnvFile
pub mod Arguments
pub mod Execution
pub mod Handover
pub mod Dns
pub mod Preparation
pub mod Examples
