-- ===== src/Keeper/New.antt =====
-- x/abstractaccount/keeper/keeper.go: the keeper and how it is made.
use abstract_account.Prelude.{Bytes, Option, none, some}
use abstract_account.Result.{Result, ok, panicked, nil_keeper}

-- `Keeper`; the types are those of the codec, the store key and the two other keepers.
pub record Keeper (Codec StoreKey AccountKeeper ContractKeeper : Type 0) : Type 0 where
  pub cdc : Codec
  pub store_key : StoreKey
  pub ak : AccountKeeper
  pub ck : ContractKeeper
  pub authority : Bytes

module _ {Codec StoreKey AccountKeeper ContractKeeper : Type 0} where
  -- The two interfaces can be nil, which is `none`.
  unfoldable pub new_keeper :
      Codec
      → StoreKey
      → Option AccountKeeper
      → Option ContractKeeper
      → Bytes
      → Result (Keeper Codec StoreKey AccountKeeper ContractKeeper)
  new_keeper cdc store_key none ck authority = panicked nil_keeper
  new_keeper cdc store_key (some ak) none authority = panicked nil_keeper
  new_keeper cdc store_key (some ak) (some ck) authority =
      ok (record { cdc = cdc; store_key = store_key; ak = ak; ck = ck; authority = authority })

  abbrev pub contract_keeper : Keeper Codec StoreKey AccountKeeper ContractKeeper → ContractKeeper
  contract_keeper k = k.ck
