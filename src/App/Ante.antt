-- ===== src/App/Ante.antt =====
-- simapp/ante.go: the handlers before and after the messages of a transaction.
pub mod Laws
use abstract_account.Prelude.{ℕ, Bool, true, false, Option, none, some, List, [], ◌∷◌}
use abstract_account.Result.{Result, ok, err, panicked, nil_dereference, logic, ◌>>=◌}
use abstract_account.Sdk.{KvStore, Bech32, ParamsCodec}
use abstract_account.Chain.{ContractOps}
use abstract_account.Ante.{Handler, PostHandler, AnteOps, before_tx, after_tx}
use abstract_account.Ante.Decorators.{new_before_tx_decorator, new_after_tx_decorator}
use abstract_account.App.Sdk.{Decorator, AnteSdk}

-- `if x == nil { return nil, ErrLogic.Wrap(…) }`
abbrev pub required {ℓ} : {A : Type ℓ} → Option A → Result A
required none = err logic
required (some a) = ok a

module _ {S : Type 0} (sdk : AnteSdk S) where
  -- `wasm_cfg` is a pointer to the configuration, of which the chain reads the simulation gas limit,
  -- itself a pointer.
  pub record AnteHandlerOptions : Type 0 where
    pub account_keeper : Option sdk.Keeper
    pub bank_keeper : Option sdk.Bank
    pub sign_mode_handler : Option sdk.SignModeHandler
    pub extension_option_checker : Option sdk.ExtensionChecker
    pub tx_fee_checker : Option sdk.FeeChecker
    pub sig_gas_consumer : Option sdk.GasConsumer
    pub wasm_cfg : Option (Option ℕ)
    pub tx_counter_store_key : Option sdk.StoreKey

  pub record PostHandlerOptions : Type 0 where
    pub account_keeper : Option sdk.Keeper

module _ {S Coin : Type 0} (sdk : AnteSdk S) (kv : KvStore S) (cdc : ParamsCodec) (bech32 : Bech32)
    (ck : ContractOps S Coin) where
  -- The abstract account keeper of the options is the module's store, codec and contract keeper.
  unfoldable pub new_ante_handler : AnteHandlerOptions sdk → Result (Handler S)
  new_ante_handler options = do
    ak ← required options.account_keeper
    bk ← required options.bank_keeper
    simulation_gas_limit ← required options.wasm_cfg
    sign_mode_handler ← required options.sign_mode_handler
    key ← required options.tx_counter_store_key
    let before = new_before_tx_decorator ck ak sign_mode_handler
    ok (
        sdk.chain_ante_decorators (
          sdk.set_up_context
          ∷ sdk.limit_simulation_gas simulation_gas_limit
          ∷ sdk.count_tx key
          ∷ sdk.extension_options options.extension_option_checker
          ∷ sdk.validate_basic
          ∷ sdk.tx_timeout_height
          ∷ sdk.validate_memo ak
          ∷ sdk.consume_gas_for_tx_size ak
          ∷ sdk.deduct_fee ak bk none options.tx_fee_checker
          ∷ sdk.set_pub_key ak
          ∷ sdk.validate_sig_count ak
          ∷ sdk.sig_gas_consume ak options.sig_gas_consumer
          ∷ before_tx kv cdc bech32 (sdk.ante_ops before.ak before.sign_mode_handler) before.aak
          ∷ sdk.increment_sequence ak
          ∷ []))

module _ {S Coin : Type 0} (sdk : AnteSdk S) (kv : KvStore S) (cdc : ParamsCodec) (bech32 : Bech32)
    (ops : AnteOps S) (ck : ContractOps S Coin) where
  unfoldable pub new_post_handler : PostHandlerOptions sdk → Result (PostHandler S)
  new_post_handler options = do
    ak ← required options.account_keeper
    let after = new_after_tx_decorator ck
    ok (sdk.chain_post_decorators (after_tx kv cdc bech32 ops after.aak ∷ []))
