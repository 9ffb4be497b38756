-- ===== src/App/Encoding.antt =====
-- simapp/encoding.go, and `ModuleBasics` and `MakeEncodingConfig` of simapp/app.go: the codecs of
-- the application and the registry that they share.
pub mod Laws
use abstract_account.Prelude.{◌≡◌, Bytes, List, [], ◌∷◌}
use abstract_account.Result.{ok}
use abstract_account.Exec.{Exec, ◌>>=◌, ◌>>◌, and_then, pure}
use abstract_account.Types.Registry.{GoInterface, RegistryOps}
use abstract_account.Sdk.{Bech32}
use abstract_account.Types.Msgs.{Checks}
use abstract_account.Client.{ClientOps}
use abstract_account.Client.Commands.{Run}
use abstract_account.Module.Basic.{Basic, app_module_basic}

-- What the SDK makes and registers. A codec keeps the registry that it is made with, and so does
-- a transaction configuration by its codec. `W` is the memory of the process.
pub record EncodingOps (W Registry Amino Codec TxConfig : Type 0) : Type 0 where
  pub new_legacy_amino : Exec W Amino
  pub new_interface_registry : Exec W Registry
  pub new_proto_codec : Registry → Codec
  pub new_tx_config : Codec → TxConfig
  pub std_register_legacy_amino_codec : Amino → Exec W (Unit {0})
  pub std_register_interfaces : Registry → Exec W (Unit {0})
  pub registry_of : Codec → Registry
  pub codec_of : TxConfig → Codec
  pub registry_of-new : (r : Registry) → registry_of (new_proto_codec r) ≡ r
  pub codec_of-new : (c : Codec) → codec_of (new_tx_config c) ≡ c

-- What was registered before a call that returns is still registered after it.
abbrev pub Keeps :
    {W Registry : Type 0} → RegistryOps W Registry → (Registry → Exec W (Unit {0})) → Type 0
Keeps {W} {Registry} registry register =
    (r : Registry) (w w' : W)
    → register r w ≡ (ok tt, w')
    → (i : GoInterface) (url : Bytes) → registry.Resolves r w i url
    → registry.Resolves r w' i url

-- The module is one of the list.
pub data In {B : Type 0} (b : B) : List B → Type 0 where
  head : {bs : List B} → In b (b ∷ bs)
  tail : {c : B} {bs : List B} → In b bs → In b (c ∷ bs)

abbrev pub AllKeep :
    {W C Registry Amino Router : Type 0}
    → RegistryOps W Registry
    → List (Basic W C Registry Amino Router)
    → Type 0
AllKeep registry [] = Unit {0}
AllKeep registry (b ∷ bs) = Keeps registry b.register_interfaces_of × AllKeep registry bs

-- `module.BasicManager`: its methods call the method of each module, in no particular order. When
-- a call returns and all modules keep what is registered, this one's method has returned, and what
-- it registered is still registered.
pub record BasicManager {W Registry : Type 0} (registry : RegistryOps W Registry)
    (C Amino Router : Type 0) : Type 0 where
  pub register_all_amino : List (Basic W C Registry Amino Router) → Amino → Exec W (Unit {0})
  pub register_all_interfaces :
      List (Basic W C Registry Amino Router) → Registry → Exec W (Unit {0})
  pub runs_each :
      (bm : List (Basic W C Registry Amino Router)) (b : Basic W C Registry Amino Router)
      (r : Registry) (w w' : W)
      → AllKeep registry bm
      → In b bm
      → register_all_interfaces bm r w ≡ (ok tt, w')
      → (u : W) × (u' : W) × (b.register_interfaces_of r u ≡ (ok tt, u'))
        × ((i : GoInterface) (url : Bytes)
            → registry.Resolves r u' i url
            → registry.Resolves r w' i url)

-- The `AppModuleBasic{}` of the other packages.
pub record OtherBasics (B : Type 0) : Type 0 where
  pub auth : B
  pub bank : B
  pub consensus : B
  pub poa : B
  pub wasm : B

abbrev pub list_others : {B : Type 0} → OtherBasics B → List B
list_others others = others.auth ∷ others.bank ∷ others.consensus ∷ others.poa ∷ others.wasm ∷ []

abbrev pub module_basics : {B : Type 0} → B → OtherBasics B → List B
module_basics own others = own ∷ list_others others

pub record EncodingConfig (Registry Amino Codec TxConfig : Type 0) : Type 0 where
  pub interface_registry : Registry
  pub codec : Codec
  pub tx_config : TxConfig
  pub amino : Amino

module _ {W Registry Amino Codec TxConfig : Type 0}
    (ops : EncodingOps W Registry Amino Codec TxConfig) where
  unfoldable pub make_test_encoding_config : Exec W (EncodingConfig Registry Amino Codec TxConfig)
  make_test_encoding_config = do
    cdc ← ops.new_legacy_amino
    interface_registry ← ops.new_interface_registry
    pure (record {
      interface_registry = interface_registry;
      codec = ops.new_proto_codec interface_registry;
      tx_config = ops.new_tx_config (ops.new_proto_codec interface_registry);
      amino = cdc;
    })

  module _ {C Router : Type 0} (registry : RegistryOps W Registry)
      (manager : BasicManager registry C Amino Router)
      (basics : List (Basic W C Registry Amino Router)) where
    unfoldable pub make_encoding_config : Exec W (EncodingConfig Registry Amino Codec TxConfig)
    unfolding make_test_encoding_config
    make_encoding_config = do
      enc_cfg ← make_test_encoding_config
      ops.std_register_legacy_amino_codec enc_cfg.amino
      ops.std_register_interfaces enc_cfg.interface_registry
      manager.register_all_amino basics enc_cfg.amino
      manager.register_all_interfaces basics enc_cfg.interface_registry
      pure enc_cfg

-- What `MakeEncodingConfig` works with in an application: the SDK's codecs and registry, and the
-- `AppModuleBasic{}` of every package in `ModuleBasics`, this module's among them.
pub record EncodingParts (W Codec TxConfig : Type 0) : Type 1 where
  pub Registry : Type 0
  pub Amino : Type 0
  pub Router : Type 0
  pub Client : Type 0
  pub Coin : Type 0
  pub ops : EncodingOps W Registry Amino Codec TxConfig
  pub registry : RegistryOps W Registry
  pub manager : BasicManager registry Client Amino Router
  pub checks : Checks Coin
  pub client : ClientOps Client Coin
  pub validate_cmd : Run Client
  pub others : OtherBasics (Basic W Client Registry Amino Router)

-- `ModuleBasics`
abbrev pub basics_of :
    {W Codec TxConfig : Type 0} (bech32 : Bech32) (parts : EncodingParts W Codec TxConfig)
    → List (Basic W parts.Client parts.Registry parts.Amino parts.Router)
basics_of bech32 parts =
    module_basics
      (app_module_basic parts.registry bech32 parts.checks parts.client parts.validate_cmd)
      parts.others

-- `MakeEncodingConfig` on `ModuleBasics`.
abbrev pub encoding_config :
    {W Codec TxConfig : Type 0} (bech32 : Bech32) (parts : EncodingParts W Codec TxConfig)
    → Exec W (EncodingConfig parts.Registry parts.Amino Codec TxConfig)
encoding_config bech32 parts =
    make_encoding_config parts.ops parts.registry parts.manager (basics_of bech32 parts)
