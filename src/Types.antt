-- ===== src/Types.antt =====
-- x/abstractaccount/types: the module's data.
pub mod Params
pub mod Account
pub mod Genesis
pub mod Msgs
pub mod SudoMsg
pub mod Registry
