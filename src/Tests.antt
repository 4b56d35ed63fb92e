-- ===== src/Tests.antt =====
-- The theorems at concrete inputs, and runs of the definitions.
mod Data
mod Timestamp
mod Checks
mod Rules
mod Start
mod Handlers
mod Turn
mod Delivery
mod Lifecycle
mod Market
mod Application
