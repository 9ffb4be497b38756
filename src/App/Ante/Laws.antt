-- ===== src/App/Ante/Laws.antt =====
-- When the chains are built, and what a transaction that passes one has gone through.
use abstract_account.Prelude.{
  ℕ, ◌≡◌, ◌≢◌, ◌⊎◌, inl, inr, refl, sym, subst, ◌∙◌, Bool, Option, none, some, Option-cases, List,
  [], ◌∷◌, ◌++◌, All,
}
use abstract_account.Result.{ok, err, logic, bind-elim}
use abstract_account.Sdk.{KvStore, Bech32, ParamsCodec}
use abstract_account.Chain.{ContractOps}
use abstract_account.Ante.{Tx, Handler, before_tx}
use abstract_account.Ante.Accepts.{Accepted, before_tx-Accepted}
use abstract_account.App.Sdk.{Decorator, AnteSdk, Passes, terminator, wrap}
use abstract_account.App.Ante.{AnteHandlerOptions, required, new_ante_handler}

-- A success goes through every decorator that passes it on.
wrap-Passes :
    {S : Type 0} (ds rest : List (Decorator S)) (tx : Tx) (simulate : Bool) (s s' : S)
    → All Passes ds
    → wrap (ds ++ rest) tx simulate s ≡ (ok tt, s')
    → (t : S) × (wrap rest tx simulate t ≡ (ok tt, s'))
wrap-Passes [] rest tx simulate s s' p h = (s, h)
wrap-Passes (d ∷ ds) rest tx simulate s s' p h =
    let (t, e) = p.0 (wrap (ds ++ rest)) tx simulate s s' h in
    wrap-Passes ds rest tx simulate t s' p.1 e

there {ℓ} : {A : Type ℓ} (o : Option A) (a : A) → required o ≡ ok a → o ≡ some a
there none a e = cc
there (some b) a e = cc

module _ {S : Type 0} (sdk : AnteSdk S) where
  -- All that the chain needs is there.
  pub record IsComplete (o : AnteHandlerOptions sdk) : Type 0 where
    pub account_keeper : o.account_keeper ≢ none
    pub bank_keeper : o.bank_keeper ≢ none
    pub wasm_cfg : o.wasm_cfg ≢ none
    pub sign_mode_handler : o.sign_mode_handler ≢ none
    pub tx_counter_store_key : o.tx_counter_store_key ≢ none

  -- The decorators before the module's own.
  abbrev early :
      AnteHandlerOptions sdk → sdk.Keeper → sdk.Bank → Option ℕ → sdk.StoreKey → List (Decorator S)
  early o ak bk limit key =
      sdk.set_up_context
      ∷ sdk.limit_simulation_gas limit
      ∷ sdk.count_tx key
      ∷ sdk.extension_options o.extension_option_checker
      ∷ sdk.validate_basic
      ∷ sdk.tx_timeout_height
      ∷ sdk.validate_memo ak
      ∷ sdk.consume_gas_for_tx_size ak
      ∷ sdk.deduct_fee ak bk none o.tx_fee_checker
      ∷ sdk.set_pub_key ak
      ∷ sdk.validate_sig_count ak
      ∷ sdk.sig_gas_consume ak o.sig_gas_consumer
      ∷ []

  early-Passes :
      (o : AnteHandlerOptions sdk) (ak : sdk.Keeper) (bk : sdk.Bank) (limit : Option ℕ)
      (key : sdk.StoreKey)
      → All Passes (early o ak bk limit key)
  early-Passes o ak bk limit key = (
    sdk.set_up_context-Passes,
    (
      sdk.limit_simulation_gas-Passes limit,
      (
        sdk.count_tx-Passes key,
        (
          sdk.extension_options-Passes o.extension_option_checker,
          (
            sdk.validate_basic-Passes,
            (
              sdk.tx_timeout_height-Passes,
              (
                sdk.validate_memo-Passes ak,
                (
                  sdk.consume_gas_for_tx_size-Passes ak,
                  (
                    sdk.deduct_fee-Passes ak bk none o.tx_fee_checker,
                    (
                      sdk.set_pub_key-Passes ak,
                      (
                        sdk.validate_sig_count-Passes ak,
                        (sdk.sig_gas_consume-Passes ak o.sig_gas_consumer, tt),
                      ),
                    ),
                  ),
                ),
              ),
            ),
          ),
        ),
      ),
    ),
  )

module _ {S Coin : Type 0} (sdk : AnteSdk S) (kv : KvStore S) (cdc : ParamsCodec) (bech32 : Bech32)
    (ck : ContractOps S Coin) where
  abbrev chain :
      AnteHandlerOptions sdk
      → sdk.Keeper
      → sdk.Bank
      → Option ℕ
      → sdk.StoreKey
      → sdk.SignModeHandler
      → Handler S
  chain o ak bk limit key handler = sdk.chain_ante_decorators (
      early sdk o ak bk limit key
      ++ (before_tx kv cdc bech32 (sdk.ante_ops ak handler) ck ∷ sdk.increment_sequence ak ∷ []))

  -- The chain is built exactly if all of its five parts are there; otherwise the error is
  -- `ErrLogic`.
  pub new_ante_handler_iff :
      (o : AnteHandlerOptions sdk)
      → (IsComplete sdk o × ((h : Handler S) × (new_ante_handler sdk kv cdc bech32 ck o ≡ ok h)))
        ⊎ ((¬ IsComplete sdk o) × (new_ante_handler sdk kv cdc bech32 ck o ≡ err logic))
  unfolding new_ante_handler
  new_ante_handler_iff o = elim (Option-cases o.account_keeper) [
    | inl e ↦ inr (λ c. c.account_keeper e, rw e refl)
    | inr (ak, e1) ↦ elim (Option-cases o.bank_keeper) [
      | inl e ↦ inr (λ c. c.bank_keeper e, rw (e1, e) refl)
      | inr (bk, e2) ↦ elim (Option-cases o.wasm_cfg) [
        | inl e ↦ inr (λ c. c.wasm_cfg e, rw (e1, e2, e) refl)
        | inr (cfg, e3) ↦ elim (Option-cases o.sign_mode_handler) [
          | inl e ↦ inr (λ c. c.sign_mode_handler e, rw (e1, e2, e3, e) refl)
          | inr (handler, e4) ↦ elim (Option-cases o.tx_counter_store_key) [
            | inl e ↦ inr (λ c. c.tx_counter_store_key e, rw (e1, e2, e3, e4, e) refl)
            | inr (key, e5) ↦ inl (
              record {
                account_keeper = λ e. cc;
                bank_keeper = λ e. cc;
                wasm_cfg = λ e. cc;
                sign_mode_handler = λ e. cc;
                tx_counter_store_key = λ e. cc;
              },
              (chain o ak bk cfg key handler, rw (e1, e2, e3, e4, e5) refl),
            )
          ]
        ]
      ]
    ]
  ]

  -- What a transaction has gone through that passes the chain and leaves the state `s'`.
  pub record Admitted (o : AnteHandlerOptions sdk) (tx : Tx) (simulate : Bool) (s' : S)
      : Type 0 where
    pub keeper : sdk.Keeper
    pub sign_mode_handler : sdk.SignModeHandler
    pub reached : S
    pub own_keeper : o.account_keeper ≡ some keeper
    pub own_handler : o.sign_mode_handler ≡ some sign_mode_handler
    pub accepted :
        Accepted kv cdc bech32
          (sdk.ante_ops keeper sign_mode_handler)
          ck
          (sdk.increment_sequence keeper terminator)
          tx
          simulate
          reached
          s'

  -- A transaction that passes the chain has come to the module's decorator in some state, with the
  -- account keeper and the sign mode handler of the options. Either it was no abstract account's there,
  -- and the default verification let it through, or it was one's, and its contract accepted it; only
  -- then was the sequence number incremented.
  pub new_ante_handler-Admitted :
      (o : AnteHandlerOptions sdk) (h : Handler S) (tx : Tx) (simulate : Bool) (s s' : S)
      → new_ante_handler sdk kv cdc bech32 ck o ≡ ok h
      → h tx simulate s ≡ (ok tt, s')
      → Admitted o tx simulate s'
  unfolding new_ante_handler
  new_ante_handler-Admitted o h tx simulate s s' built passed =
      bind-elim (required o.account_keeper) _ built λ ak e1 b1.
        bind-elim (required o.bank_keeper) _ b1 λ bk e2 b2.
          bind-elim (required o.wasm_cfg) _ b2 λ limit e3 b3.
            bind-elim (required o.sign_mode_handler) _ b3 λ handler e4 b4.
              bind-elim (required o.tx_counter_store_key) _ b4 λ key e5 b5.
                let chained : chain o ak bk limit key handler ≡ h = cc b5 in
                let whole = sym (sdk.chain_ante_lem sdk.set_up_context _) ∙ chained in
                let (reached, verified) =
                  wrap-Passes (early sdk o ak bk limit key)
                    (before_tx kv cdc bech32 (sdk.ante_ops ak handler) ck
                      ∷ sdk.increment_sequence ak
                      ∷ [])
                    tx simulate s s' (early-Passes sdk o ak bk limit key)
                    (subst (λ k. k tx simulate s ≡ (ok tt, s')) (sym whole) passed) in
                record {
                  keeper = ak;
                  sign_mode_handler = handler;
                  reached = reached;
                  own_keeper = there o.account_keeper ak e1;
                  own_handler = there o.sign_mode_handler handler e4;
                  accepted =
                      before_tx-Accepted kv cdc bech32 (sdk.ante_ops ak handler) ck
                        (sdk.increment_sequence ak terminator) tx simulate reached s' verified;
                }
