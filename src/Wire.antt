-- ===== src/Wire.antt =====
-- The protobuf encoding in the generated files x/abstractaccount/types/*.pb.go.
pub mod Varint
pub mod Safe
pub mod Skip
pub mod Message
pub mod Fields
pub mod Params
pub mod Account
pub mod Events
pub mod Genesis
pub mod Update
pub mod Register
pub mod RegisterResponse
pub mod Query
pub mod Messages
