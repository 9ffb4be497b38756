-- ===== src/App.antt =====
-- simapp: the example application that puts the module to work.
pub mod Sdk
pub mod Ante
pub mod Encoding
pub mod Keepers
pub mod SimApp
pub mod Start
pub mod Mock
pub mod Runtime
pub mod Commands
pub mod Simd
