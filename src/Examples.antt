-- ===== src/Examples.antt =====
-- Concrete inputs for the theorems.
mod Data
mod Commands
mod Lifecycle
mod Calls
mod Agents
mod Media
mod Settings
mod Starting
mod Host
mod Running
mod Building
