-- ===== src/Runs/App.antt =====
-- An example application in the small chain: its decorators let every transaction pass.
use abstract_account.Prelude.{
  ◌≡◌, ◌⊎◌, refl, ap, Bytes, false, none, some, ◌++◌, codes, bytes_equal,
}
use abstract_account.Result.{ok, err, logic}
use abstract_account.Types.Account.{account_address, get_address}
use abstract_account.Types.SudoMsg.{sdk_msgs_to_anys}
use abstract_account.Types.SudoMsg.Json.{json_marshal}
use abstract_account.Wire.Params.Codec.{params_codec}
use abstract_account.MsgServer.{module_name}
use abstract_account.Keeper.{get_params, set_signer_address}
use abstract_account.Ante.{
  Handler, is_abstract_account_tx, sudo_with_gas_limit, prepare_credentials, authenticate,
  before_tx,
}
use abstract_account.App.Sdk.{Decorator, AnteSdk, wrap, wrap_post}
use abstract_account.App.Ante.{AnteHandlerOptions, new_ante_handler}
use abstract_account.App.Ante.Laws.{
  IsComplete, Admitted, new_ante_handler_iff, new_ante_handler-Admitted,
}
use abstract_account.App.Keepers.{ModuleNames, Keepers, AppOptions}
use abstract_account.App.SimApp.{
  SimApp, modules, begin_blockers, end_blockers, genesis_module_order, authority,
}
use abstract_account.App.SimApp.Laws.{orders_complete}
use abstract_account.Runs.World.{World, world_store, plain, world_contracts, world_ante}
use abstract_account.Runs.Codec.{read_back}
use abstract_account.Runs.Hooks.{signature, tx_by, chain}
use mathlib.Core.List.{Perm}

abbrev pass : Decorator World
pass next tx simulate s = next tx simulate s

abbrev pub world_sdk : AnteSdk World
world_sdk = record {
  Keeper = Unit;
  Bank = Unit;
  Feegrant = Unit;
  SignModeHandler = Unit;
  StoreKey = Bytes;
  ExtensionChecker = Unit;
  FeeChecker = Unit;
  GasConsumer = Unit;
  set_up_context = pass;
  limit_simulation_gas = λ limit. pass;
  count_tx = λ key. pass;
  extension_options = λ c. pass;
  validate_basic = pass;
  tx_timeout_height = pass;
  validate_memo = λ ak. pass;
  consume_gas_for_tx_size = λ ak. pass;
  deduct_fee = λ ak bk fk fc. pass;
  set_pub_key = λ ak. pass;
  validate_sig_count = λ ak. pass;
  sig_gas_consume = λ ak c. pass;
  increment_sequence = λ ak. pass;
  ante_ops = λ ak handler. world_ante;
  chain_ante_decorators = wrap;
  chain_post_decorators = wrap_post;
  chain_ante_lem = λ d rest. refl;
  chain_post_lem = λ d rest. refl;
  set_up_context-Passes = λ next tx simulate s s' h. (s, h);
  limit_simulation_gas-Passes = λ limit next tx simulate s s' h. (s, h);
  count_tx-Passes = λ key next tx simulate s s' h. (s, h);
  extension_options-Passes = λ c next tx simulate s s' h. (s, h);
  validate_basic-Passes = λ next tx simulate s s' h. (s, h);
  tx_timeout_height-Passes = λ next tx simulate s s' h. (s, h);
  validate_memo-Passes = λ ak next tx simulate s s' h. (s, h);
  consume_gas_for_tx_size-Passes = λ ak next tx simulate s s' h. (s, h);
  deduct_fee-Passes = λ ak bk fk fc next tx simulate s s' h. (s, h);
  set_pub_key-Passes = λ ak next tx simulate s s' h. (s, h);
  validate_sig_count-Passes = λ ak next tx simulate s s' h. (s, h);
  sig_gas_consume-Passes = λ ak c next tx simulate s s' h. (s, h);
}

abbrev options : AnteHandlerOptions world_sdk
options = record {
  account_keeper = some tt;
  bank_keeper = some tt;
  sign_mode_handler = some tt;
  extension_option_checker = none;
  tx_fee_checker = none;
  sig_gas_consumer = none;
  wasm_cfg = some none;
  tx_counter_store_key = some (codes "wasm");
}

abbrev no_config : AnteHandlerOptions world_sdk
no_config = record options { wasm_cfg = none }

new_ante_handler_iff_example :
    (IsComplete world_sdk no_config
      × ((h : Handler World) × (new_ante_handler world_sdk world_store params_codec plain
              world_contracts no_config
            ≡ ok h)))
    ⊎ ((¬ IsComplete world_sdk no_config)
        × (new_ante_handler world_sdk world_store params_codec plain world_contracts no_config
            ≡ err logic))
new_ante_handler_iff_example =
    new_ante_handler_iff world_sdk world_store params_codec plain world_contracts no_config

-- The chain of decorators that pass and the module's own.
abbrev handler : Handler World
handler =
    before_tx world_store params_codec plain world_ante world_contracts
      (λ tx simulate s. (ok tt, s))

built :
    new_ante_handler world_sdk world_store params_codec plain world_contracts options ≡ ok handler
unfolding new_ante_handler
built = refl

abbrev admitted : World
admitted = (handler (tx_by signature) false chain).1

passed : (handler (tx_by signature) false chain).0 ≡ ok tt
unfolding before_tx is_abstract_account_tx authenticate set_signer_address sdk_msgs_to_anys
    prepare_credentials json_marshal get_params sudo_with_gas_limit account_address get_address
    bytes_equal
passed = rw read_back refl

new_ante_handler-Admitted_example :
    Admitted world_sdk world_store params_codec plain world_contracts options
      (tx_by signature)
      false
      admitted
new_ante_handler-Admitted_example =
    new_ante_handler-Admitted world_sdk world_store params_codec plain world_contracts options
      handler (tx_by signature) false chain admitted built (ap (λ r. (r, admitted)) passed)

abbrev pub names : ModuleNames
names = record {
  auth = codes "auth";
  bank = codes "bank";
  consensus = codes "consensus";
  poa = codes "poa";
  wasm = codes "wasm";
  fee_collector = codes "fee_collector";
  burner = codes "burner";
  bech32_main_prefix = codes "cosmos";
  module_address = λ name. codes "cosmos1" ++ name;
}

orders_complete_example :
    Perm (begin_blockers names) (modules names)
    × Perm (end_blockers names) (modules names)
    × Perm (genesis_module_order names) (modules names)
orders_complete_example = orders_complete names

abbrev pub keepers : Keepers World Bytes world_sdk
keepers = record {
  Codec = Unit;
  TxConfig = Unit;
  ConsensusKeeper = Unit;
  WasmKeeper = Unit;
  WasmConfig = Unit;
  WasmOption = Unit;
  store_key = λ name. name;
  new_consensus_keeper = λ cdc key auth. tt;
  new_account_keeper = λ cdc key perms prefix auth. tt;
  new_base_keeper = λ cdc key ak blocked auth. tt;
  new_wasm_keeper = λ cdc key ak bk dir cfg caps auth opts. tt;
  new_gov_permission_keeper = λ wk. world_contracts;
  simulation_gas_limit = λ cfg. none;
  sign_mode_handler = λ cfg. tt;
  gas_consumer = λ consume. tt;
}

abbrev pub app : SimApp names world_sdk keepers
app = record {
  consensus_params_keeper = tt;
  account_keeper = tt;
  bank_keeper = tt;
  wasm_keeper = tt;
  abstract_account_keeper = record {
    cdc = tt;
    store_key = module_name;
    ak = tt;
    ck = world_contracts;
    authority = authority;
  };
  wasm_cfg = tt;
}

abbrev pub app_options : AppOptions (Unit {0})
app_options = record { home = codes "/home/"; join = λ a b. a ++ b; read_wasm_config = ok tt }
