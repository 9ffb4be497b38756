-- ===== src/Module.antt =====
-- x/abstractaccount/module.go: what the module does for the application's module manager. What it
-- hands over to the registries of the SDK is in Module/Basic.antt.
pub mod Laws
pub mod Basic
use abstract_account.Prelude.{ℕ, ◌≡◌, Bytes, List, []}
use abstract_account.Result.{Result, ok, ◌>>=◌}
use abstract_account.Exec.{Exec, and_then}
use abstract_account.Sdk.{KvStore, BigEndian, ParamsCodec}
use abstract_account.Types.Genesis.{GenesisState, default_genesis_state, validate}
use abstract_account.MsgServer.{module_name}
use abstract_account.Keeper.{must, export_genesis, module_init_genesis}

-- `codec.JSONCodec` on `*GenesisState`. `Fits` says which values the codec carries.
pub record JsonCodec : Type 1 where
  pub marshal : GenesisState → Result Bytes
  pub unmarshal : Bytes → Result GenesisState
  pub Fits : GenesisState → Type 0
  pub round_trip :
      (gs : GenesisState) → Fits gs → (bz : Bytes) × (marshal gs ≡ ok bz) × (unmarshal bz ≡ ok gs)

-- `AppModuleBasic.Name`
abbrev pub name : Bytes
name = module_name

abbrev pub consensus_version : ℕ
consensus_version = 1

module _ (json : JsonCodec) where
  unfoldable pub default_genesis : Result Bytes
  default_genesis = must (json.marshal default_genesis_state)

  unfoldable pub validate_genesis : Bytes → Result (Unit {0})
  validate_genesis bz = do gs ← json.unmarshal bz; validate gs

module _ {S : Type 0} (kv : KvStore S) (be : BigEndian) (cdc : ParamsCodec) (json : JsonCodec) where
  -- The list of validator updates that comes back is empty.
  unfoldable pub init_genesis_json : Bytes → Exec S (Unit {0})
  init_genesis_json bz s = and_then (must (json.unmarshal bz), s) (module_init_genesis kv be cdc)

  unfoldable pub export_genesis_json : Exec S Bytes
  export_genesis_json s =
      and_then (export_genesis kv be cdc s) (λ gs t. (must (json.marshal gs), t))

-- `BeginBlock` does nothing; `EndBlock` returns an empty list of validator updates.
unfoldable pub begin_block : {S : Type 0} → Exec S (Unit {0})
begin_block s = (ok tt, s)

unfoldable pub end_block : {S Update : Type 0} → Exec S (List Update)
end_block s = (ok [], s)
