-- ===== src/App/Mock/Application.antt =====
-- simapp/testing/mock.go: an application for tests, started on a genesis state of its own.
pub mod Laws
use abstract_account.Prelude.{ℕ, Bytes, true, List, [], ◌∷◌}
use abstract_account.Result.{Result}
use abstract_account.Exec.{Exec, ◌>>=◌, ◌>>◌, pure, lift}
use abstract_account.Sdk.{KvStore, Bech32, ParamsCodec}
use abstract_account.Keeper.{must}
use abstract_account.Ante.{AnteOps}
use abstract_account.App.Sdk.{AnteSdk}
use abstract_account.App.Keepers.{ModuleNames, Keepers, AppOptions}
use abstract_account.App.Encoding.{EncodingParts, encoding_config}
use abstract_account.App.SimApp.{SimApp}
use abstract_account.App.Start.{Call, Node, on_memory, new_sim_app}
use abstract_account.App.Mock.{GenesisState, Balance, MockOps, make_mock_genesis_state}

-- `tmproto.ConsensusParams`, as far as it is set; a duration is in hours.
pub record ConsensusParams : Type 0 where
  pub block_max_bytes : ℕ
  pub block_max_gas : ℕ
  pub max_age_num_blocks : ℕ
  pub max_age_duration : ℕ
  pub evidence_max_bytes : ℕ
  pub pub_key_types : List Bytes

-- `tmtypes.ABCIPubKeyTypeEd25519` is a parameter.
abbrev pub default_consensus_params : Bytes → ConsensusParams
default_consensus_params ed25519 = record {
  block_max_bytes = 200_000;
  block_max_gas = 10_000_000;
  max_age_num_blocks = 302_400;
  max_age_duration = 504;
  evidence_max_bytes = 10_000;
  pub_key_types = ed25519 ∷ [];
}

-- `abci.RequestInitChain`; its list of validators is empty.
pub record RequestInitChain : Type 0 where
  pub consensus_params : ConsensusParams
  pub app_state_bytes : Bytes

-- `EmptyAppOptions`: every option is nil, and the home directory is the empty text.
abbrev pub empty_app_options :
    {WasmConfig : Type 0} → (Bytes → Bytes → Bytes) → Result WasmConfig → AppOptions WasmConfig
empty_app_options join read_wasm_config = record {
  home = [];
  join = join;
  read_wasm_config = read_wasm_config;
}

module _ {S Coin Coins GenesisAccount : Type 0} (names : ModuleNames) (sdk : AnteSdk S)
    (ks : Keepers S Coin sdk) (kv : KvStore S) (pc : ParamsCodec) (bech32 : Bech32)
    (ops : AnteOps S) (node : Node) (mock : ks.Codec → MockOps Coins GenesisAccount)
    (ed25519 : Bytes) (json_marshal : GenesisState → Result Bytes) {W : Type 0}
    (init_chain : RequestInitChain → Exec (W × List (Call S)) (Unit {0})) where
  -- The options are `EmptyAppOptions`. `NewSimApp` makes an encoding configuration of its own.
  unfoldable pub make_mock_app :
      EncodingParts W ks.Codec ks.TxConfig
      → AppOptions ks.WasmConfig
      → List (Balance Coins)
      → Exec (W × List (Call S)) (SimApp names sdk ks)
  make_mock_app parts app_opts balances = do
    enc_cfg ← on_memory (encoding_config bech32 parts)
    app ← new_sim_app names sdk ks kv pc bech32 ops node parts true app_opts []
    gs ← lift (make_mock_genesis_state names bech32 (mock enc_cfg.codec) balances)
    gs_bytes ← lift (must (json_marshal gs))
    init_chain
        (record { consensus_params = default_consensus_params ed25519; app_state_bytes = gs_bytes })
    pure app

  unfoldable pub make_simple_mock_app :
      EncodingParts W ks.Codec ks.TxConfig
      → AppOptions ks.WasmConfig
      → Exec (W × List (Call S)) (SimApp names sdk ks)
  unfolding make_mock_app
  make_simple_mock_app parts app_opts = make_mock_app parts app_opts []
