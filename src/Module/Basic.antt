-- ===== src/Module/Basic.antt =====
-- x/abstractaccount/module.go: `AppModuleBasic`, what a module gives to an application before the
-- application has any state, and the module's two services.
use abstract_account.Prelude.{Bytes, Option, some}
use abstract_account.Exec.{Exec, pure, ◌>>◌}
use abstract_account.Sdk.{Bech32}
use abstract_account.Types.Msgs.{Checks}
use abstract_account.Types.Registry.{RegistryOps, register_interfaces}
use abstract_account.Client.{ClientOps}
use abstract_account.Client.Tree.{Command}
use abstract_account.Client.Commands.{Run, get_tx_cmd, get_query_cmd}
use abstract_account.Module.{name}

-- The methods of `module.AppModuleBasic` that the application's `ModuleBasics` calls. `W` is the
-- memory that registries, codecs and routers live in, and `C` the state of a client.
pub record Basic (W C Registry Amino Router : Type 0) : Type 0 where
  pub module_name : Bytes
  pub register_interfaces_of : Registry → Exec W (Unit {0})
  pub register_legacy_amino_codec_of : Amino → Exec W (Unit {0})
  pub register_grpc_gateway_routes_of : Router → Exec W (Unit {0})
  pub tx_cmd : Option (Command (Run C))
  pub query_cmd : Option (Command (Run C))

-- The methods of this module that do nothing.
unfoldable pub register_legacy_amino_codec : {W Amino : Type 0} → Amino → Exec W (Unit {0})
register_legacy_amino_codec amino = pure tt

unfoldable pub register_grpc_gateway_routes : {W Router : Type 0} → Router → Exec W (Unit {0})
register_grpc_gateway_routes router = pure tt

unfoldable pub register_rest_routes : {W Router : Type 0} → Router → Exec W (Unit {0})
register_rest_routes router = pure tt

unfoldable pub register_invariants : {W Invariants : Type 0} → Invariants → Exec W (Unit {0})
register_invariants registry = pure tt

module _ {W C Coin Registry Amino Router : Type 0} (registry : RegistryOps W Registry)
    (bech32 : Bech32) (checks : Checks Coin) (client : ClientOps C Coin)
    (validate_cmd : Run C) where
  unfoldable pub app_module_basic : Basic W C Registry Amino Router
  app_module_basic = record {
    module_name = name;
    register_interfaces_of = register_interfaces registry;
    register_legacy_amino_codec_of = register_legacy_amino_codec;
    register_grpc_gateway_routes_of = register_grpc_gateway_routes;
    tx_cmd = some (get_tx_cmd bech32 checks client validate_cmd);
    query_cmd = some (get_query_cmd client);
  }

-- `types.RegisterMsgServer` and `types.RegisterQueryServer` on the servers of a configurator. A
-- server is the keeper that it wraps.
pub record ServiceOps (W Keeper Configurator : Type 0) : Type 0 where
  pub register_msg_server : Configurator → Keeper → Exec W (Unit {0})
  pub register_query_server : Configurator → Keeper → Exec W (Unit {0})

unfoldable pub register_services :
    {W Keeper Configurator : Type 0}
    → ServiceOps W Keeper Configurator
    → Keeper
    → Configurator
    → Exec W (Unit {0})
register_services ops keeper cfg = do
  ops.register_msg_server cfg keeper
  ops.register_query_server cfg keeper
