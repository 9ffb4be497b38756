-- ===== src/Lib.antt =====
-- Abstract accounts for Cosmos SDK chains: the module x/abstractaccount, which lets a contract
-- decide whether a transaction of its own account is authentic.
--
-- The parts and how they interact. The message server registers accounts: it instantiates a contract
-- and replaces the base account at its address by an `AbstractAccount`. The hook before a
-- transaction, in ante.go, finds out whether the one signer is such an account; if so it records the
-- address in the module's store, calls the contract's sudo entry point under a gas limit, and leaves
-- the default signature verification out. The hook after the transaction reads the address, deletes
-- it and calls the contract again. The keeper has the store: parameters, a counter for the labels of
-- new contracts, and the signer address.
--
-- Which file models which part:
--   Types/Params.antt         x/abstractaccount/types/params.go
--   Types/Account.antt        x/abstractaccount/types/account.go
--   Types/Genesis.antt        x/abstractaccount/types/genesis.go, keys.go
--   Types/Msgs.antt           x/abstractaccount/types/tx.go, and the types of tx.pb.go, events.pb.go
--   Types/Registry.antt       x/abstractaccount/types/codec.go
--   Types/SudoMsg.antt        x/abstractaccount/types/wasmbinding.go; SudoMsg/Json.antt is what
--                             encoding/json writes for it
--   Keeper.antt               x/abstractaccount/keeper/keeper.go, genesis.go, query_server.go
--   MsgServer.antt            x/abstractaccount/keeper/msg_server.go
--   Ante.antt                 x/abstractaccount/ante.go
--   Delivery.antt             transactions one after another: the hooks around the messages
--   Module.antt               x/abstractaccount/module.go
--   Client.antt               x/abstractaccount/client/cli/tx.go, query.go: what the commands do;
--                             Client/Commands.antt is the tree that they stand in
--   App/Ante.antt             simapp/ante.go; App/Sdk.antt is what it takes from the SDK
--   Gateway.antt              x/abstractaccount/types/query.pb.gw.go
--   App/SimApp.antt, App/Start.antt   simapp/app.go; App/Keepers.antt is what it takes from the SDK
--   App/Encoding.antt         simapp/encoding.go and `MakeEncodingConfig` of simapp/app.go
--   App/Runtime.antt          the getters, the routes and the services of simapp/app.go
--   App/Mock.antt             simapp/testing/mock.go, simapp/genesis.go
--   App/Simd.antt, App/Commands.antt   simapp/simd/main.go
--   Wire.antt and below       x/abstractaccount/types/*.pb.go: varints, the skipping of unknown
--                             fields, the frame of `Unmarshal`, and each message
--   Sdk.antt, Chain.antt      what the code takes from the SDK and from wasmd, as interfaces with
--                             the laws that their documentation gives
--   Prelude.antt, Result.antt, Exec.antt   shared helpers, Go's results, and stateful handlers
--   Runs.antt and below       a small concrete chain, tests, and the theorems at concrete inputs
--
-- State and errors. `S` is the SDK's context with all the state behind it. A handler is a function
-- from a state to a result and a state (`Exec`): what was written before an error stays in the state
-- that comes back, as it does in Go, until the caller throws it away. A panic is a result of its own.
-- The text that `Wrap` adds to an error is left out, and so is gas other than the limit of a contract
-- call. A nil slice is told from an empty one where the code does so.
--
-- Numbers are natural numbers; a `uint64` that can wrap is written with `% 2 ^ 64`, and an `int` that
-- would be negative is a number from `2 ^ 63` on. The loops of the generated code recurse on fuel:
-- a varint has ten rounds before `shift >= 64`, and the writer's loop ends after ten groups of seven
-- bits; the loops over an input have one round more than bytes, and each round takes a byte.
--
-- Keeper/Refinement.antt has the specification of the keeper: a record of what the store holds, and
-- what each operation answers and changes there. How the base application runs a transaction is not
-- code of this repository; Delivery.antt states it as a relation between states.
--
-- Not modelled: the getters, descriptors, gRPC clients and servers of the generated code, which have
-- no logic of their own; the logger of the keeper; the commands of the SDK, which are parameters of
-- the tree that they stand in; the random keys in simapp/testing; the example contracts in
-- cosmwasm/.
pub mod Prelude
pub mod Result
pub mod Exec
pub mod Sdk
pub mod Types
pub mod Chain
pub mod Wire
pub mod Keeper
pub mod MsgServer
pub mod Ante
pub mod Delivery
pub mod Module
pub mod Client
pub mod Gateway
pub mod App
pub mod Runs
