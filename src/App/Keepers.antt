-- ===== src/App/Keepers.antt =====
-- What the example application takes from the SDK and from wasmd to put its modules together.
use abstract_account.Prelude.{ℕ, Bytes, Bool, Option, List}
use abstract_account.Result.{Result}
use abstract_account.Exec.{Exec}
use abstract_account.Chain.{ContractOps}
use abstract_account.Ante.{Signature}
use abstract_account.App.Sdk.{AnteSdk}

-- The constants of other packages, and `authtypes.NewModuleAddress(name).String()`.
pub record ModuleNames : Type 0 where
  pub auth : Bytes
  pub bank : Bytes
  pub consensus : Bytes
  pub poa : Bytes
  pub wasm : Bytes
  pub fee_collector : Bytes
  pub burner : Bytes
  pub bech32_main_prefix : Bytes
  pub module_address : Bytes → Bytes

-- The constructors of the other modules' keepers. A store key is given by its name.
pub record Keepers (S Coin : Type 0) (sdk : AnteSdk S) : Type 1 where
  pub Codec : Type 0
  pub TxConfig : Type 0
  pub ConsensusKeeper : Type 0
  pub WasmKeeper : Type 0
  pub WasmConfig : Type 0
  pub WasmOption : Type 0
  pub store_key : Bytes → sdk.StoreKey
  pub new_consensus_keeper : Codec → sdk.StoreKey → Bytes → ConsensusKeeper
  pub new_account_keeper :
      Codec → sdk.StoreKey → List (Bytes × List Bytes) → Bytes → Bytes → sdk.Keeper
  pub new_base_keeper : Codec → sdk.StoreKey → sdk.Keeper → (Bytes → Bool) → Bytes → sdk.Bank
  pub new_wasm_keeper :
      Codec
      → sdk.StoreKey
      → sdk.Keeper
      → sdk.Bank
      → Bytes
      → WasmConfig
      → Bytes
      → Bytes
      → List WasmOption
      → WasmKeeper
  pub new_gov_permission_keeper : WasmKeeper → ContractOps S Coin
  pub simulation_gas_limit : WasmConfig → Option ℕ
  pub sign_mode_handler : TxConfig → sdk.SignModeHandler
  -- A function is passed to the chain.
  pub gas_consumer : (Signature → Exec S (Unit {0})) → sdk.GasConsumer

-- The options of the command line: `flags.FlagHome` as a text, `filepath.Join`, and
-- `wasm.ReadWasmConfig`.
pub record AppOptions (WasmConfig : Type 0) : Type 0 where
  pub home : Bytes
  pub join : Bytes → Bytes → Bytes
  pub read_wasm_config : Result WasmConfig

-- `json.Unmarshal` into the genesis state of the application, a map from module names to raw JSON,
-- and the module manager.
pub record ModuleManager (S Request Response : Type 0) : Type 0 where
  pub unmarshal_genesis : Bytes → Result (List (Bytes × Bytes))
  pub init_genesis : List (Bytes × Bytes) → Exec S Response
  pub begin_block : Request → Exec S Response
  pub end_block : Request → Exec S Response
