-- ===== src/App/Commands.antt =====
-- simapp/simd/main.go: the tree of commands of the node, and the client's context that they start
-- from.
pub mod Laws
use abstract_account.Prelude.{Bytes, true, false, none, some, List, [], ◌∷◌, codes}
use abstract_account.Exec.{Exec, ◌>>=◌, and_then, pure}
use abstract_account.Types.Registry.{RegistryOps}
use abstract_account.Client.Tree.{Usage, any_args, Command, new_command, with_pre_run, add_command}
use abstract_account.Client.Commands.{Run}
use abstract_account.Module.Basic.{Basic}
use abstract_account.Result.{Result, ok, err, panicked}
use abstract_account.Sdk.{KvStore, Bech32, ParamsCodec}
use abstract_account.Ante.{AnteOps}
use abstract_account.App.Sdk.{AnteSdk}
use abstract_account.App.Keepers.{ModuleNames, Keepers, AppOptions}
use abstract_account.App.SimApp.{SimApp}
use abstract_account.App.Start.{Call, Node}
use abstract_account.App.Simd.{ServerOps, persistent_pre_run, create_app, export_app}
use abstract_account.App.Encoding.{EncodingConfig, EncodingParts, basics_of, encoding_config}

-- The commands of the SDK, and those that `server.AddCommands` adds to the root. `Creator` and
-- `Exporter` are the types of `createApp` and `exportApp`.
pub record SdkCommands (R Creator Exporter : Type 0) : Type 0 where
  pub validate_cmd : R
  pub add_server_commands : Bytes → Creator → Exporter → Command R → Command R
  pub config_cmd : Command R
  pub debug_cmd : Command R
  pub init_cmd : Bytes → Command R
  pub keys_commands : Bytes → Command R
  pub pruning_cmd : Creator → Command R
  pub status_command : Command R
  pub validate_genesis_cmd : Command R
  pub add_genesis_account_cmd : Bytes → Command R
  pub get_account_cmd : Command R
  pub validator_command : Command R
  pub block_command : Command R
  pub query_txs_by_events_cmd : Command R
  pub query_tx_cmd : Command R
  pub get_sign_command : Command R
  pub get_sign_batch_command : Command R
  pub get_multi_sign_command : Command R
  pub get_multi_sign_batch_cmd : Command R
  pub get_validate_signatures_command : Command R
  pub get_broadcast_command : Command R
  pub get_encode_command : Command R
  pub get_decode_command : Command R
  pub get_aux_to_fee_command : Command R

-- `AddTxCommands` and `AddQueryCommands` of the `module.BasicManager`: they add each module's
-- command to a command.
pub record CommandManager (W C Registry Amino Router : Type 0) : Type 0 where
  pub add_tx_commands : List (Basic W C Registry Amino Router) → Command (Run C) → Command (Run C)
  pub add_query_commands :
      List (Basic W C Registry Amino Router) → Command (Run C) → Command (Run C)

-- The texts of a command that holds subcommands.
abbrev pub group : Bytes → List Bytes → Bytes → Usage
group use_line aliases short = record {
  use_line = use_line;
  short = short;
  aliases = aliases;
  args = any_args;
  disable_flag_parsing = false;
  suggestions_minimum_distance = 2;
  silence_usage = false;
}

module _ {W C Registry Amino Router Creator Exporter : Type 0}
    (cmds : SdkCommands (Run C) Creator Exporter)
    (manager : CommandManager W C Registry Amino Router)
    (basics : List (Basic W C Registry Amino Router)) (home : Bytes) where
  unfoldable pub genesis_command : Command (Run C)
  genesis_command =
      add_command
        (new_command
          (group (codes "genesis") [] (codes "Application's genesis-related subcommands"))
          (some cmds.validate_cmd))
        (cmds.validate_genesis_cmd ∷ cmds.add_genesis_account_cmd home ∷ [])

  unfoldable pub query_command : Command (Run C)
  query_command = manager.add_query_commands basics (
      add_command
        (new_command (group (codes "query") (codes "q" ∷ []) (codes "Querying subcommands"))
          (some cmds.validate_cmd))
        (cmds.get_account_cmd ∷ cmds.validator_command ∷ cmds.block_command
          ∷ cmds.query_txs_by_events_cmd ∷ cmds.query_tx_cmd ∷ []))

  unfoldable pub tx_command : Command (Run C)
  tx_command = manager.add_tx_commands basics (
      add_command
        (new_command (group (codes "tx") [] (codes "Transactions subcommands"))
          (some cmds.validate_cmd))
        (cmds.get_sign_command ∷ cmds.get_sign_batch_command ∷ cmds.get_multi_sign_command
          ∷ cmds.get_multi_sign_batch_cmd ∷ cmds.get_validate_signatures_command
          ∷ cmds.get_broadcast_command ∷ cmds.get_encode_command ∷ cmds.get_decode_command
          ∷ cmds.get_aux_to_fee_command ∷ []))

  -- The root, before the server's commands are added to it.
  abbrev root : Run C → Command (Run C)
  root pre_run = with_pre_run pre_run (
      new_command
        (record {
          use_line = codes "simd";
          short = codes "Simulation app";
          aliases = [];
          args = any_args;
          disable_flag_parsing = false;
          suggestions_minimum_distance = 0;
          silence_usage = false;
        })
        none)

  unfoldable pub root_commands : Run C → Creator → Exporter → Command (Run C)
  root_commands pre_run creator exporter =
      add_command (cmds.add_server_commands home creator exporter (root pre_run)) (
        genesis_command
        ∷ query_command
        ∷ tx_command
        ∷ cmds.config_cmd
        ∷ cmds.debug_cmd
        ∷ cmds.init_cmd home
        ∷ cmds.keys_commands home
        ∷ cmds.pruning_cmd creator
        ∷ cmds.status_command
        ∷ [])

-- The fields of `client.Context` that are set from the application; its input is standard input.
pub record ClientContext (Registry Amino Codec TxConfig : Type 0) : Type 0 where
  pub codec : Codec
  pub interface_registry : Registry
  pub tx_config : TxConfig
  pub legacy_amino : Amino
  pub home_dir : Bytes
  pub viper_prefix : Bytes

abbrev pub client_context :
    {Registry Amino Codec TxConfig : Type 0}
    → EncodingConfig Registry Amino Codec TxConfig
    → Bytes
    → ClientContext Registry Amino Codec TxConfig
client_context enc_cfg default_node_home = record {
  codec = enc_cfg.codec;
  interface_registry = enc_cfg.interface_registry;
  tx_config = enc_cfg.tx_config;
  legacy_amino = enc_cfg.amino;
  home_dir = default_node_home;
  viper_prefix = [];
}

abbrev pub settle : {C : Type 0} → C → Result C → Result (Unit {0}) × C
settle c (ok handled) = (ok tt, handled)
settle c (err e) = (err e, c)
settle c (panicked p) = (panicked p, c)

-- What a command function does that works on the command and has a result: it leaves the command as
-- it is where it fails.
abbrev pub as_run : {C : Type 0} → (C → Result C) → Run C
as_run f args c = settle c (f c)

module _ {S Coin : Type 0} (names : ModuleNames) (sdk : AnteSdk S) (ks : Keepers S Coin sdk)
    (kv : KvStore S) (pc : ParamsCodec) (bech32 : Bech32) (ops : AnteOps S) (node : Node)
    {W : Type 0} (parts : EncodingParts W ks.Codec ks.TxConfig) where
  -- The types of `createApp`, of `exportApp` and of the context.
  abbrev pub Creator : Type 0
  Creator = AppOptions ks.WasmConfig → Exec (W × List (Call S)) (SimApp names sdk ks)

  abbrev pub Context : Type 0
  Context = ClientContext parts.Registry parts.Amino ks.Codec ks.TxConfig

  module _ {Config TmConfig Exported : Type 0}
      (server : ServerOps Context Config TmConfig parts.Client)
      (cmds : SdkCommands (Run parts.Client) Creator (Result Exported))
      (manager : CommandManager W parts.Client parts.Registry parts.Amino parts.Router)
      (default_node_home : Bytes) where
    -- The context is what `PersistentPreRunE` starts from.
    unfoldable pub new_root_cmd : Exec W (Context × Command (Run parts.Client))
    new_root_cmd = do
      enc_cfg ← encoding_config bech32 parts
      let init_client_ctx = client_context enc_cfg default_node_home
      pure (
        init_client_ctx,
        root_commands cmds manager (basics_of bech32 parts) default_node_home
            (as_run (persistent_pre_run server init_client_ctx))
            (create_app names sdk ks kv pc bech32 ops node parts) export_app,
      )
