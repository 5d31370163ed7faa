-- ===== src/Runtime.antt =====
-- src/baresip/runtime.py: commands and their completions, events, and the life of a runtime.
pub mod Sequence
pub mod Commands
pub mod Drain
pub mod Lifecycle
pub mod Boot
pub mod Sink
pub mod Stopping
pub mod Watchdog
pub mod NativeLog
pub mod Teardown
