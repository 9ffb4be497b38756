-- ===== src/App/Mock.antt =====
-- simapp/testing/mock.go, and `DefaultGenesisState` of simapp/genesis.go: the genesis state of an
-- application for tests.
pub mod Laws
pub mod Application
use abstract_account.Prelude.{
  Bytes, Bool, Option, none, some, List, [], ◌∷◌, codes, bytes_equal, if◌then◌else◌,
}
use abstract_account.Result.{Result, ok, err, panicked, ◌>>=◌}
use abstract_account.Sdk.{AccAddress, Bech32}
use abstract_account.Types.Msgs.{parse_address}
use abstract_account.Keeper.{must}
use abstract_account.App.Keepers.{ModuleNames}

-- `map[string]json.RawMessage`
abbrev pub GenesisState : Type 0
GenesisState = Bytes → Option Bytes

-- `gs[name] = bz`
abbrev pub assign : Bytes → Bytes → GenesisState → GenesisState
assign name bz gs = λ other. if bytes_equal name other then some bz else gs other

-- `banktypes.Balance`
pub record Balance (Coins : Type 0) : Type 0 where
  pub address : Bytes
  pub coins : Coins

-- What the function takes from the SDK: coins, of which `Add` panics where they are not in order, the default genesis of every module, the JSON of a
-- module's genesis in what this function puts there, and a random key.
pub record MockOps (Coins GenesisAccount : Type 0) : Type 0 where
  pub new_coins : Coins
  pub add : Coins → Coins → Result Coins
  pub new_base_account_with_address : AccAddress → GenesisAccount
  pub default_genesis : GenesisState
  pub marshal_auth : List GenesisAccount → Result Bytes
  pub marshal_bank : List (Balance Coins) → Coins → Result Bytes
  pub marshal_poa : Bytes → Result Bytes
  pub random_consensus_pub_key : Bytes

abbrev pub default_bond_denom : Bytes
default_bond_denom = codes "utoken"

module _ {Coins GenesisAccount : Type 0} (names : ModuleNames) (bech32 : Bech32)
    (ops : MockOps Coins GenesisAccount) where
  abbrev pub default_genesis_state_of_app : GenesisState
  default_genesis_state_of_app = ops.default_genesis

  -- The first loop.
  pub gen_accts : List (Balance Coins) → Result (List GenesisAccount)
  gen_accts [] = ok []
  gen_accts (balance ∷ rest) = do
    addr ← must (parse_address bech32 balance.address)
    accts ← gen_accts rest
    ok (ops.new_base_account_with_address addr ∷ accts)

  -- The second loop, from the supply so far.
  pub add_all : Coins → List (Balance Coins) → Result Coins
  add_all supply [] = ok supply
  add_all supply (balance ∷ rest) = do added ← ops.add supply balance.coins; add_all added rest

  unfoldable pub make_mock_genesis_state : List (Balance Coins) → Result GenesisState
  unfolding gen_accts add_all
  make_mock_genesis_state balances = do
    accts ← gen_accts balances
    supply ← add_all ops.new_coins balances
    auth ← must (ops.marshal_auth accts)
    bank ← must (ops.marshal_bank balances supply)
    poa ← must (ops.marshal_poa ops.random_consensus_pub_key)
    ok (
        assign names.poa poa
          (assign names.bank bank (assign names.auth auth default_genesis_state_of_app)))
