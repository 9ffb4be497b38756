-- ===== src/App/Simd.antt =====
-- simapp/simd/main.go: how the node starts. The commands themselves are the SDK's.
use abstract_account.Prelude.{ℕ, Bytes, true, List, [], ◌++◌, codes}
use abstract_account.Result.{Result, panicked, unimplemented, ◌>>=◌}
use abstract_account.Exec.{Exec}
use abstract_account.Sdk.{KvStore, Bech32, ParamsCodec}
use abstract_account.Ante.{AnteOps}
use abstract_account.App.Sdk.{AnteSdk}
use abstract_account.App.Keepers.{ModuleNames, Keepers, AppOptions}
use abstract_account.App.Encoding.{EncodingParts}
use abstract_account.App.SimApp.{SimApp}
use abstract_account.App.Start.{Call, Node, new_sim_app}

-- What `svrcmd.Execute` returns: nil, a `server.ErrorCode`, or another error.
pub data Executed : Type 0 where
  no_error : Executed
  error_code : ℕ → Executed
  other_error : Executed

-- `main`: the status of the process.
abbrev pub exit_status : Executed → ℕ
exit_status no_error = 0
exit_status (error_code code) = code
exit_status other_error = 1

-- The section for x/wasm in the configuration of the application.
pub record WasmConfig : Type 0 where
  pub query_gas_limit : ℕ
  pub lru_size : ℕ

pub record CustomAppConfig (Config : Type 0) : Type 0 where
  pub config : Config
  pub wasm : WasmConfig

-- What the node takes from the SDK's client and server. `C` is the client's context, and `H` the
-- command and the files of the home directory.
pub record ServerOps (C Config TmConfig H : Type 0) : Type 0 where
  pub default_config : Config
  pub set_min_gas_prices : Bytes → Config → Config
  pub default_config_template : Bytes
  pub default_tm_config : TmConfig
  pub read_persistent_command_flags : C → Result C
  pub read_from_client_config : C → Result C
  pub set_cmd_client_context_handler : C → H → Result H
  pub intercept_configs_pre_run_handler : H → Bytes → CustomAppConfig Config → TmConfig → Result H

-- What is added to the template of app.toml.
abbrev wasm_template : Bytes
wasm_template =
    codes
      "\n[wasm]\n# This is the maximum sdk gas (wasm and storage) that we allow for any x/wasm \"smart\" queries\nquery_gas_limit = 300000\n# This is the number of wasm vm instances we keep cached in memory for speed-up\n# Warning: this is currently unstable and may lead to crashes, best to keep for 0 unless testing locally\nlru_size = 0"

module _ {C Config TmConfig H : Type 0} (ops : ServerOps C Config TmConfig H) where
  unfoldable pub init_tendermint_config : TmConfig
  init_tendermint_config = ops.default_tm_config

  unfoldable pub init_app_config : Bytes × CustomAppConfig Config
  init_app_config = (
    ops.default_config_template ++ wasm_template,
    record {
      config = ops.set_min_gas_prices (codes "0utoken") ops.default_config;
      wasm = record { query_gas_limit = 300000; lru_size = 1 };
    },
  )

  -- `PersistentPreRunE`
  unfoldable pub persistent_pre_run : C → H → Result H
  unfolding init_app_config init_tendermint_config
  persistent_pre_run init_client_ctx cmd = do
    flagged ← ops.read_persistent_command_flags init_client_ctx
    configured ← ops.read_from_client_config flagged
    handled ← ops.set_cmd_client_context_handler configured cmd
    let (custom_app_template, custom_app_config) = init_app_config
    ops.intercept_configs_pre_run_handler handled custom_app_template custom_app_config
        init_tendermint_config

module _ {S Coin : Type 0} (names : ModuleNames) (sdk : AnteSdk S) (ks : Keepers S Coin sdk)
    (kv : KvStore S) (pc : ParamsCodec) (bech32 : Bech32) (ops : AnteOps S) (node : Node) where
  unfoldable pub create_app :
      {W : Type 0}
      → EncodingParts W ks.Codec ks.TxConfig
      → AppOptions ks.WasmConfig
      → Exec (W × List (Call S)) (SimApp names sdk ks)
  create_app parts app_opts = new_sim_app names sdk ks kv pc bech32 ops node parts true app_opts []

-- `panic("UNIMPLEMENTED")`
unfoldable pub export_app : {A : Type 0} → Result A
export_app = panicked unimplemented
