-- ===== src/Runs.antt =====
-- Tests, and the theorems at concrete inputs.
mod World
mod Codec
mod Store
mod Messages
mod Hooks
mod Records
mod Delivery
mod App
mod Start
mod Client
mod Refinement
mod Registered
mod Commands
mod Encoding
mod Mock
