-- ===== src/Ante/Decorators.antt =====
-- x/abstractaccount/ante.go: the two decorators and how they are made. What they do is `before_tx` and
-- `after_tx`.

-- The types are those of the module's keeper, of the account keeper and of the sign mode handler.
pub record BeforeTxDecorator (Keeper AccountKeeper SignModeHandler : Type 0) : Type 0 where
  pub aak : Keeper
  pub ak : AccountKeeper
  pub sign_mode_handler : SignModeHandler

abbrev pub new_before_tx_decorator :
    {Keeper AccountKeeper SignModeHandler : Type 0}
    → Keeper
    → AccountKeeper
    → SignModeHandler
    → BeforeTxDecorator Keeper AccountKeeper SignModeHandler
new_before_tx_decorator aak ak sign_mode_handler = record {
  aak = aak;
  ak = ak;
  sign_mode_handler = sign_mode_handler;
}

pub record AfterTxDecorator (Keeper : Type 0) : Type 0 where
  pub aak : Keeper

abbrev pub new_after_tx_decorator : {Keeper : Type 0} → Keeper → AfterTxDecorator Keeper
new_after_tx_decorator aak = record { aak = aak }
