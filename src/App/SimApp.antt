-- ===== src/App/SimApp.antt =====
-- simapp/app.go: the modules of the example application, their keepers and their order, and the
-- handlers that it sets. What the base application is told of all this is in App/Start.antt.
pub mod Laws
use abstract_account.Prelude.{
  ℕ, Bytes, Bool, true, false, ◌||◌, Option, none, some, List, [], ◌∷◌, codes, bytes_equal,
}
use abstract_account.Result.{Result, ok, err, panicked, raised, unimplemented, ◌>>=◌}
use abstract_account.Exec.{Exec, and_then}
use abstract_account.Sdk.{KvStore, Bech32, ParamsCodec}
use abstract_account.Chain.{ContractOps}
use abstract_account.MsgServer.{module_name}
use abstract_account.Keeper.{must}
use abstract_account.Keeper.New.{Keeper, new_keeper, contract_keeper}
use abstract_account.Ante.{Handler, PostHandler, AnteOps, sig_verification_gas_consumer}
use abstract_account.App.Sdk.{AnteSdk}
use abstract_account.App.Keepers.{ModuleNames, Keepers, AppOptions, ModuleManager}
use abstract_account.App.Ante.{
  AnteHandlerOptions, PostHandlerOptions, new_ante_handler, new_post_handler,
}

abbrev pub authority : Bytes
authority = codes "cosmos1tqr9a9m9nk0c22uq2c2slundmqhtnrnhwks7x0"

abbrev pub app_name : Bytes
app_name = codes "SimApp"

module _ (names : ModuleNames) where
  -- `maccPerms`, in some order: Go's maps have none.
  abbrev pub macc_perms : List (Bytes × List Bytes)
  macc_perms = (names.fee_collector, []) ∷ (names.wasm, names.burner ∷ []) ∷ []

  -- The modules in the order of `module.NewManager`.
  abbrev pub modules : List Bytes
  modules = module_name ∷ names.auth ∷ names.bank ∷ names.consensus ∷ names.poa ∷ names.wasm ∷ []

  abbrev pub store_keys : List Bytes
  store_keys = module_name ∷ names.auth ∷ names.bank ∷ names.consensus ∷ names.wasm ∷ []

  abbrev pub begin_blockers : List Bytes
  begin_blockers =
      names.poa ∷ names.auth ∷ names.bank ∷ names.consensus ∷ names.wasm ∷ module_name ∷ []

  abbrev pub end_blockers : List Bytes
  end_blockers =
      names.poa ∷ names.auth ∷ names.bank ∷ names.consensus ∷ names.wasm ∷ module_name ∷ []

  abbrev pub genesis_module_order : List Bytes
  genesis_module_order =
      names.auth ∷ names.bank ∷ names.poa ∷ names.consensus ∷ names.wasm ∷ module_name ∷ []

  -- The map that `blockedAddresses` fills; a missing key is false.
  blocked_by : List (Bytes × List Bytes) → Bytes → Bool
  blocked_by [] addr = false
  blocked_by ((acc, perms) ∷ rest) addr =
      bytes_equal (names.module_address acc) addr || blocked_by rest addr

  unfoldable pub blocked_addresses : Bytes → Bool
  unfolding blocked_by
  blocked_addresses = blocked_by macc_perms

-- The directory, the configuration and the capabilities.
unfoldable pub wasm_params : {C : Type 0} → AppOptions C → Result (Bytes × C × Bytes)
wasm_params app_opts = do
  let wasm_dir = app_opts.join app_opts.home (codes "wasm")
  wasm_cfg ← must app_opts.read_wasm_config
  ok (wasm_dir, wasm_cfg, codes "iterator,staking,stargate,cosmwasm_1_1,cosmwasm_1_2")

module _ {S Coin : Type 0} (names : ModuleNames) (sdk : AnteSdk S) (ks : Keepers S Coin sdk) where
  -- The keepers among the fields of `SimApp`, and the configuration of wasm.
  pub record SimApp : Type 0 where
    pub consensus_params_keeper : ks.ConsensusKeeper
    pub account_keeper : sdk.Keeper
    pub bank_keeper : sdk.Bank
    pub wasm_keeper : ks.WasmKeeper
    pub abstract_account_keeper : Keeper ks.Codec sdk.StoreKey sdk.Keeper (ContractOps S Coin)
    pub wasm_cfg : ks.WasmConfig

  unfoldable pub new_keepers :
      ks.Codec → AppOptions ks.WasmConfig → List ks.WasmOption → Result SimApp
  new_keepers cdc app_opts wasm_opts = do
    let ak =
        ks.new_account_keeper cdc (ks.store_key names.auth) (macc_perms names)
          names.bech32_main_prefix authority
    let bk = ks.new_base_keeper cdc (ks.store_key names.bank) ak (blocked_addresses names) authority
    (wasm_dir, wasm_cfg, wasm_capabilities) ← wasm_params app_opts
    let wk =
        ks.new_wasm_keeper cdc (ks.store_key names.wasm) ak bk wasm_dir wasm_cfg wasm_capabilities
          authority wasm_opts
    own ←
        new_keeper cdc (ks.store_key module_name) (some ak) (some (ks.new_gov_permission_keeper wk))
          authority
    ok (record {
      consensus_params_keeper =
          ks.new_consensus_keeper cdc (ks.store_key names.consensus) authority;
      account_keeper = ak;
      bank_keeper = bk;
      wasm_keeper = wk;
      abstract_account_keeper = own;
      wasm_cfg = wasm_cfg;
    })

  module _ (kv : KvStore S) (cdc : ParamsCodec) (bech32 : Bech32) where
    -- The handler that `app.SetAnteHandler` is given.
    unfoldable pub set_ante_handler : SimApp → ks.TxConfig → sdk.StoreKey → Result (Handler S)
    set_ante_handler app tx_cfg tx_counter_store_key =
        let ops = sdk.ante_ops app.account_keeper (ks.sign_mode_handler tx_cfg) in
        must (
          new_ante_handler sdk kv cdc bech32 (contract_keeper app.abstract_account_keeper) (record {
            account_keeper = some app.account_keeper;
            bank_keeper = some app.bank_keeper;
            sign_mode_handler = some (ks.sign_mode_handler tx_cfg);
            extension_option_checker = none;
            tx_fee_checker = none;
            sig_gas_consumer = some (ks.gas_consumer (sig_verification_gas_consumer ops));
            wasm_cfg = some (ks.simulation_gas_limit app.wasm_cfg);
            tx_counter_store_key = some tx_counter_store_key;
          }))

    unfoldable pub set_post_handler : AnteOps S → SimApp → Result (PostHandler S)
    set_post_handler ops app = must (
        new_post_handler sdk kv cdc bech32 ops (contract_keeper app.abstract_account_keeper)
          (record { account_keeper = some app.account_keeper }))

module _ {S Request Response : Type 0} (manager : ModuleManager S Request Response) where
  unfoldable pub init_chainer : Bytes → Exec S Response
  init_chainer app_state_bytes s =
      and_then (must (manager.unmarshal_genesis app_state_bytes), s) manager.init_genesis

  unfoldable pub begin_blocker : Request → Exec S Response
  begin_blocker req = manager.begin_block req

  unfoldable pub end_blocker : Request → Exec S Response
  end_blocker req = manager.end_block req

-- `panic("UNIMPLEMENTED")`
unfoldable pub export_app_state_and_validators : {A : Type 0} → Result A
export_app_state_and_validators = panicked unimplemented

unfoldable pub simulation_manager : {A : Type 0} → Result A
simulation_manager = panicked unimplemented
