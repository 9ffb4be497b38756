-- ===== src/App/Mock/Application/Laws.antt =====
-- On which genesis state an application for tests starts.
use abstract_account.Prelude.{◌≡◌, ap, ◌∙◌, Bytes, true, List, []}
use abstract_account.Result.{Result, ok}
use abstract_account.Exec.{Exec, and_then-elim, lift-elim}
use abstract_account.Sdk.{KvStore, Bech32, ParamsCodec}
use abstract_account.Keeper.{must}
use abstract_account.Ante.{AnteOps}
use abstract_account.App.Sdk.{AnteSdk}
use abstract_account.App.Keepers.{ModuleNames, Keepers, AppOptions}
use abstract_account.App.Encoding.{EncodingConfig, EncodingParts, encoding_config}
use abstract_account.App.SimApp.{SimApp}
use abstract_account.App.Start.{Call, Node, on_memory, new_sim_app}
use abstract_account.App.Mock.{GenesisState, Balance, MockOps, make_mock_genesis_state}
use abstract_account.App.Mock.Laws.{
  IsAdditive, AllValid, IsMock, must-ok, make_mock_genesis_state-IsMock,
}
use abstract_account.App.Mock.Application.{
  RequestInitChain, default_consensus_params, make_mock_app,
}

module _ {S Coin Coins GenesisAccount : Type 0} (names : ModuleNames) (sdk : AnteSdk S)
    (ks : Keepers S Coin sdk) (kv : KvStore S) (pc : ParamsCodec) (bech32 : Bech32)
    (ops : AnteOps S) (node : Node) (mock : ks.Codec → MockOps Coins GenesisAccount)
    (ed25519 : Bytes) (json_marshal : GenesisState → Result Bytes) {W : Type 0}
    (init_chain : RequestInitChain → Exec (W × List (Call S)) (Unit {0})) where
  -- What has happened when an application for tests is returned, from `s` to `s'`.
  pub record IsStarted (parts : EncodingParts W ks.Codec ks.TxConfig)
      (app_opts : AppOptions ks.WasmConfig) (balances : List (Balance Coins))
      (app : SimApp names sdk ks) (s s' : W × List (Call S)) : Type 0 where
    pub enc : EncodingConfig parts.Registry parts.Amino ks.Codec ks.TxConfig
    pub memory : W
    pub configured : encoding_config bech32 parts s.0 ≡ (ok enc, memory)
    pub gs : GenesisState
    pub state_bytes : Bytes
    pub started : W × List (Call S)
    pub starts :
        new_sim_app names sdk ks kv pc bech32 ops node parts true app_opts [] (memory, s.1)
        ≡ (ok app, started)
    pub genesis : IsMock names bech32 (mock enc.codec) balances gs
    pub encoded : json_marshal gs ≡ ok state_bytes
    pub chain :
        init_chain
          (record {
            consensus_params = default_consensus_params ed25519;
            app_state_bytes = state_bytes;
          })
          started
        ≡ (ok tt, s')

  -- An application for tests that is returned was started with its latest version loaded, and then
  -- its chain was initialised with the default consensus parameters and with the JSON of a genesis
  -- state. There, auth has one account for each balance, at its address and in the same order, if
  -- bank and poa have other names than auth; the bank's supply is the sum of the balances, if poa
  -- has another name than the bank; and all modules but auth, bank and poa have their default
  -- genesis. The coins of every balance are valid, and of valid coins, `Add` returns valid coins,
  -- is associative, and has no coins as its unit.
  pub make_mock_app-IsStarted :
      (parts : EncodingParts W ks.Codec ks.TxConfig) (app_opts : AppOptions ks.WasmConfig)
      (balances : List (Balance Coins)) (app : SimApp names sdk ks) (s s' : W × List (Call S))
      (IsValid : Coins → Type 0)
      (laws : (cdc : ks.Codec) → IsAdditive names bech32 (mock cdc) IsValid)
      → ((cdc : ks.Codec) → AllValid names bech32 (mock cdc) IsValid (laws cdc) balances)
      → make_mock_app names sdk ks kv pc bech32 ops node mock ed25519 json_marshal init_chain parts
          app_opts balances s
        ≡ (ok app, s')
      → IsStarted parts app_opts balances app s s'
  unfolding make_mock_app
  make_mock_app-IsStarted parts app_opts balances app s s' IsValid laws valid h =
      and_then-elim (on_memory (encoding_config bech32 parts) s) _ h λ enc s1 configured h1.
        and_then-elim (new_sim_app names sdk ks kv pc bech32 ops node parts true app_opts [] s1) _
          h1
          λ app' started e h2.
            lift-elim (make_mock_genesis_state names bech32 (mock enc.codec) balances) started _ h2
              λ gs e1 h3. lift-elim (must (json_marshal gs)) started _ h3 λ state_bytes e2 h4.
                and_then-elim
                  (init_chain
                    (record {
                      consensus_params = default_consensus_params ed25519;
                      app_state_bytes = state_bytes;
                    })
                    started)
                  _ h4
                  λ x last e3 h5.
                    let same : app' ≡ app = cc h5 in
                    let calls : s.1 ≡ s1.1 = ap (λ r. r.1.1) configured in
                    record {
                      enc = enc;
                      memory = s1.0;
                      configured =
                          ap
                            (λ (r : Result
                                  (EncodingConfig parts.Registry parts.Amino ks.Codec ks.TxConfig)
                                × (W × List (Call S))).
                              (r.0, r.1.0))
                            configured;
                      gs = gs;
                      state_bytes = state_bytes;
                      started = started;
                      starts =
                          ap
                            (λ l.
                              new_sim_app names sdk ks kv pc bech32 ops node parts true app_opts []
                                (s1.0, l))
                            calls
                          ∙ e
                          ∙ ap (λ a. (ok a, started)) same;
                      genesis =
                          make_mock_genesis_state-IsMock names bech32 (mock enc.codec) IsValid
                            (laws enc.codec) balances gs (valid enc.codec) e1;
                      encoded =
                          must-ok names bech32 (mock enc.codec) (json_marshal gs) state_bytes e2;
                      chain = e3 ∙ ap (λ t. (ok tt, t)) (ap (λ r. r.1) h5);
                    }
