-- ===== src/Runs/Commands.antt =====
-- The root command of the node, with the application of Runs/App.antt.
use abstract_account.Prelude.{Bytes, none, [], ◌∷◌, codes}
use abstract_account.Result.{Result, ok}
use abstract_account.Exec.{pure}
use abstract_account.Wire.Params.Codec.{params_codec}
use abstract_account.Client.Tree.{Command, new_command, add_command}
use abstract_account.Client.Commands.{Run}
use abstract_account.App.Encoding.{basics_of}
use abstract_account.App.Simd.{ServerOps, persistent_pre_run, create_app, export_app}
use abstract_account.App.Commands.{
  SdkCommands, CommandManager, Creator, Context, client_context, group, as_run, root_commands,
}
use abstract_account.Runs.World.{plain, world_store, world_ante}
use abstract_account.Runs.Encoding.{Entries, Sent}
use abstract_account.Runs.App.{names, world_sdk, keepers}
use abstract_account.Runs.Start.{node, parts, enc}

-- A command of the SDK.
abbrev other : Command (Run Sent)
other = new_command (group (codes "other") [] []) none

abbrev Ctx : Type 0
Ctx = Context names world_sdk keepers world_store params_codec plain world_ante node parts

abbrev Create : Type 0
Create = Creator names world_sdk keepers world_store params_codec plain world_ante node parts

abbrev server : ServerOps Ctx Bytes (Unit {0}) Sent
server = record {
  default_config = [];
  set_min_gas_prices = λ prices config. prices;
  default_config_template = codes "[api]";
  default_tm_config = tt;
  read_persistent_command_flags = λ ctx. ok ctx;
  read_from_client_config = λ ctx. ok ctx;
  set_cmd_client_context_handler = λ ctx sent. ok sent;
  intercept_configs_pre_run_handler = λ sent template config tm. ok sent;
}

abbrev cmds : SdkCommands (Run Sent) Create (Result (Unit {0}))
cmds = record {
  validate_cmd = λ args. pure tt;
  add_server_commands = λ home creator exporter root. root;
  config_cmd = other;
  debug_cmd = other;
  init_cmd = λ home. other;
  keys_commands = λ home. other;
  pruning_cmd = λ creator. other;
  status_command = other;
  validate_genesis_cmd = other;
  add_genesis_account_cmd = λ home. other;
  get_account_cmd = other;
  validator_command = other;
  block_command = other;
  query_txs_by_events_cmd = other;
  query_tx_cmd = other;
  get_sign_command = other;
  get_sign_batch_command = other;
  get_multi_sign_command = other;
  get_multi_sign_batch_cmd = other;
  get_validate_signatures_command = other;
  get_broadcast_command = other;
  get_encode_command = other;
  get_decode_command = other;
  get_aux_to_fee_command = other;
}

-- It adds one command for each module.
abbrev manager : CommandManager Entries Sent (Unit {0}) (Unit {0}) (Unit {0})
manager = record {
  add_tx_commands = λ bm parent. add_command parent (other ∷ []);
  add_query_commands = λ bm parent. add_command parent (other ∷ []);
}

abbrev home : Bytes
home = codes "/home"

abbrev made : Ctx × Command (Run Sent)
made = (
  client_context enc home,
  root_commands cmds manager (basics_of plain parts) home
      (as_run (persistent_pre_run server (client_context enc home)))
      (create_app names world_sdk keepers world_store params_codec plain world_ante node parts)
      export_app,
)
