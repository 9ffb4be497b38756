-- ===== src/App/Sdk.antt =====
-- What the example application takes from the SDK and from wasmd for its handlers, as an interface:
-- the decorators, and the two functions that chain them. The laws are those of the documentation:
-- each decorator of a chain wraps those further along, and a decorator that lets a transaction pass
-- has called the next one.
use abstract_account.Prelude.{ℕ, ◌≡◌, Bool, Option, List, [], ◌∷◌}
use abstract_account.Result.{ok}
use abstract_account.Exec.{pure}
use abstract_account.Ante.{Tx, Handler, PostHandler, AnteOps}

-- `sdk.AnteDecorator` and `sdk.PostDecorator`.
abbrev pub Decorator : Type 0 → Type 0
Decorator S = Handler S → Handler S

abbrev pub PostDecorator : Type 0 → Type 0
PostDecorator S = PostHandler S → PostHandler S

-- The handlers at the end of a chain, and a chain by recursion.
abbrev pub terminator : {S : Type 0} → Handler S
terminator tx simulate = pure tt

abbrev pub post_terminator : {S : Type 0} → PostHandler S
post_terminator tx simulate success = pure tt

abbrev pub wrap : {S : Type 0} → List (Decorator S) → Handler S
wrap [] = terminator
wrap (d ∷ rest) = d (wrap rest)

abbrev pub wrap_post : {S : Type 0} → List (PostDecorator S) → PostHandler S
wrap_post [] = post_terminator
wrap_post (d ∷ rest) = d (wrap_post rest)

-- A decorator whose success is that of the handler that it wraps, in some state.
abbrev pub Passes : {S : Type 0} → Decorator S → Type 0
Passes {S} d =
    (next : Handler S) (tx : Tx) (simulate : Bool) (s s' : S)
    → d next tx simulate s ≡ (ok tt, s')
    → (t : S) × (next tx simulate t ≡ (ok tt, s'))

-- `Keeper`, `Bank` and the others are the types of the options. Interfaces, pointers and functions
-- of the options can be nil, which is `none`.
pub record AnteSdk (S : Type 0) : Type 1 where
  pub Keeper : Type 0
  pub Bank : Type 0
  pub Feegrant : Type 0
  pub SignModeHandler : Type 0
  pub StoreKey : Type 0
  pub ExtensionChecker : Type 0
  pub FeeChecker : Type 0
  pub GasConsumer : Type 0
  pub set_up_context : Decorator S
  pub limit_simulation_gas : Option ℕ → Decorator S
  pub count_tx : StoreKey → Decorator S
  pub extension_options : Option ExtensionChecker → Decorator S
  pub validate_basic : Decorator S
  pub tx_timeout_height : Decorator S
  pub validate_memo : Keeper → Decorator S
  pub consume_gas_for_tx_size : Keeper → Decorator S
  pub deduct_fee : Keeper → Bank → Option Feegrant → Option FeeChecker → Decorator S
  pub set_pub_key : Keeper → Decorator S
  pub validate_sig_count : Keeper → Decorator S
  pub sig_gas_consume : Keeper → Option GasConsumer → Decorator S
  pub increment_sequence : Keeper → Decorator S
  -- What the module's decorator takes from an account keeper and a sign mode handler.
  pub ante_ops : Keeper → SignModeHandler → AnteOps S
  pub chain_ante_decorators : List (Decorator S) → Handler S
  pub chain_post_decorators : List (PostDecorator S) → PostHandler S
  pub chain_ante_lem :
      (d : Decorator S) (rest : List (Decorator S))
      → chain_ante_decorators (d ∷ rest) ≡ wrap (d ∷ rest)
  pub chain_post_lem :
      (d : PostDecorator S) (rest : List (PostDecorator S))
      → chain_post_decorators (d ∷ rest) ≡ wrap_post (d ∷ rest)
  pub set_up_context-Passes : Passes set_up_context
  pub limit_simulation_gas-Passes : (limit : Option ℕ) → Passes (limit_simulation_gas limit)
  pub count_tx-Passes : (key : StoreKey) → Passes (count_tx key)
  pub extension_options-Passes : (c : Option ExtensionChecker) → Passes (extension_options c)
  pub validate_basic-Passes : Passes validate_basic
  pub tx_timeout_height-Passes : Passes tx_timeout_height
  pub validate_memo-Passes : (ak : Keeper) → Passes (validate_memo ak)
  pub consume_gas_for_tx_size-Passes : (ak : Keeper) → Passes (consume_gas_for_tx_size ak)
  pub deduct_fee-Passes :
      (ak : Keeper) (bk : Bank) (fk : Option Feegrant) (fc : Option FeeChecker)
      → Passes (deduct_fee ak bk fk fc)
  pub set_pub_key-Passes : (ak : Keeper) → Passes (set_pub_key ak)
  pub validate_sig_count-Passes : (ak : Keeper) → Passes (validate_sig_count ak)
  pub sig_gas_consume-Passes :
      (ak : Keeper) (c : Option GasConsumer) → Passes (sig_gas_consume ak c)
