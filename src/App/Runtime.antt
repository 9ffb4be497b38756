-- ===== src/App/Runtime.antt =====
-- simapp/app.go: what the application answers to the runtime, and the services that it registers
-- with the servers of the node.
use abstract_account.Prelude.{Bytes, Bool, List, codes}
use abstract_account.Result.{Result, ok, ◌>>=◌}
use abstract_account.Exec.{Exec, ◌>>◌}
use abstract_account.Keeper.{must}
use abstract_account.Module.Basic.{Basic}
use abstract_account.App.Encoding.{EncodingConfig}

-- `init`: the default home directory, from `os.UserHomeDir()` and `filepath.Join`.
unfoldable pub default_node_home : Result Bytes → (Bytes → Bytes → Bytes) → Result Bytes
default_node_home user_home_dir join = do
  home ← must user_home_dir
  ok (join home (codes ".simapp"))

-- The getters. The first fields of `SimApp` are those of the encoding configuration.
module _ {Registry Amino Codec TxConfig : Type 0} where
  abbrev pub legacy_amino : EncodingConfig Registry Amino Codec TxConfig → Amino
  legacy_amino app = app.amino

  abbrev pub codec_of_app : EncodingConfig Registry Amino Codec TxConfig → Codec
  codec_of_app app = app.codec

  abbrev pub interface_registry_of_app : EncodingConfig Registry Amino Codec TxConfig → Registry
  interface_registry_of_app app = app.interface_registry

  abbrev pub tx_config_of_app : EncodingConfig Registry Amino Codec TxConfig → TxConfig
  tx_config_of_app app = app.tx_config

-- What the base application does when it is asked for its name, or to load a version.
pub record BaseOps (W Height : Type 0) : Type 0 where
  pub base_name : W → Bytes
  pub load_version : Height → Exec W (Unit {0})

module _ {W Height : Type 0} (base : BaseOps W Height) where
  unfoldable pub app_name_of : W → Bytes
  app_name_of w = base.base_name w

  unfoldable pub load_height : Height → Exec W (Unit {0})
  load_height height = base.load_version height

-- The registrations of the SDK. A gateway serves the routes of the API server, a router the
-- queries of the application. `Simulate` and `Query` are the types of its two methods.
pub record RouteOps (W C Registry Amino Context Gateway Router Simulate Query : Type 0)
    : Type 0 where
  pub register_tx_gateway_routes : Context → Gateway → Exec W (Unit {0})
  pub register_tm_gateway_routes : Context → Gateway → Exec W (Unit {0})
  pub register_node_gateway_routes : Context → Gateway → Exec W (Unit {0})
  pub register_all_routes :
      List (Basic W C Registry Amino Gateway) → Context → Gateway → Exec W (Unit {0})
  pub register_swagger_api : Context → Bool → Exec W (Unit {0})
  pub register_tx_router : Router → Context → Simulate → Registry → Exec W (Unit {0})
  pub register_tm_router : Context → Router → Registry → Query → Exec W (Unit {0})
  pub register_node_router : Context → Router → Exec W (Unit {0})

module _ {W C Registry Amino Context Gateway Router Simulate Query : Type 0}
    (ops : RouteOps W C Registry Amino Context Gateway Router Simulate Query)
    (basics : List (Basic W C Registry Amino Gateway)) where
  -- `panic(err)` on the error of the last call.
  abbrev swagger : Context → Bool → Exec W (Unit {0})
  swagger ctx enabled w =
      let answer = ops.register_swagger_api ctx enabled w in (must answer.0, answer.1)

  unfoldable pub register_api_routes : Context → Gateway → Bool → Exec W (Unit {0})
  register_api_routes ctx gateway enabled = do
    ops.register_tx_gateway_routes ctx gateway
    ops.register_tm_gateway_routes ctx gateway
    ops.register_node_gateway_routes ctx gateway
    ops.register_all_routes basics ctx gateway
    swagger ctx enabled

module _ {W C Registry Amino Context Gateway Router Simulate Query : Type 0}
    (ops : RouteOps W C Registry Amino Context Gateway Router Simulate Query) where
  unfoldable pub register_tx_service : Router → Simulate → Registry → Context → Exec W (Unit {0})
  register_tx_service grpc_query_router simulate registry ctx =
      ops.register_tx_router grpc_query_router ctx simulate registry

  unfoldable pub register_tendermint_service :
      Router → Query → Registry → Context → Exec W (Unit {0})
  register_tendermint_service grpc_query_router query registry ctx =
      ops.register_tm_router ctx grpc_query_router registry query

  unfoldable pub register_node_service : Router → Context → Exec W (Unit {0})
  register_node_service grpc_query_router ctx = ops.register_node_router ctx grpc_query_router
