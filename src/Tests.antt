-- ===== src/Tests.antt =====
-- Runs of the modelled functions, and the theorems at concrete inputs.
mod Samples
mod Store
mod Supervisor
mod Lock
mod Installs
mod Paths
mod Ownership
mod Owners
mod Names
mod Ports
mod Export
mod Compose
mod Resource
mod Order
mod Validate
mod Render
mod Cleanup
mod Objects
