-- ===== src/Runs/Mock.antt =====
-- An application for tests with two balances, of coins of one kind.
use abstract_account.Prelude.{
  ℕ, ◌+◌, ◌≡◌, refl, ap, Bytes, Option, none, some, List, [], ◌∷◌, ◌++◌, arith,
}
use abstract_account.Result.{Result, ok, panicked, raised, logic}
use abstract_account.Exec.{Exec}
use abstract_account.Types.Msgs.{parse_address}
use abstract_account.Wire.Params.Codec.{params_codec}
use abstract_account.Keeper.New.{new_keeper}
use abstract_account.App.Ante.{new_ante_handler, new_post_handler}
use abstract_account.App.SimApp.{new_keepers, wasm_params, set_ante_handler, set_post_handler}
use abstract_account.App.Start.{Call, start_app, new_sim_app}
use abstract_account.App.Encoding.{make_encoding_config, make_test_encoding_config}
use abstract_account.Types.Registry.{register_interfaces}
use abstract_account.Module.Basic.{app_module_basic}
use abstract_account.Runs.Encoding.{Entries, run_all}
use abstract_account.App.Mock.{GenesisState, Balance, MockOps, make_mock_genesis_state}
use abstract_account.App.Mock.Laws.{IsAdditive}
use abstract_account.App.Mock.Application.{RequestInitChain, make_mock_app}
use abstract_account.App.Mock.Application.Laws.{IsStarted, make_mock_app-IsStarted}
use abstract_account.Runs.World.{World, world_store, plain, world_ante}
use abstract_account.Runs.App.{names, world_sdk, keepers, app, app_options}
use abstract_account.Runs.Start.{node, parts}

-- Coins of one kind; `none` is a list of coins that is not in order, which cannot be added.
abbrev Coins : Type 0
Coins = Option ℕ

abbrev add : Coins → Coins → Result Coins
add none b = panicked (raised logic)
add (some a) none = panicked (raised logic)
add (some a) (some b) = ok (some (a + b))

abbrev IsSorted : Coins → Type 0
IsSorted none = ⊥
IsSorted (some a) = Unit

abbrev flat : List Bytes → Bytes
flat [] = []
flat (acct ∷ accts) = acct ++ flat accts

abbrev amount : Coins → ℕ
amount none = 0
amount (some a) = a

abbrev mock : Unit {0} → MockOps Coins Bytes
mock cdc = record {
  new_coins = some 0;
  add = add;
  new_base_account_with_address = λ addr. plain.to_string addr;
  default_genesis = λ name. none;
  marshal_auth = λ accts. ok (flat accts);
  marshal_bank = λ balances supply. ok (amount supply ∷ []);
  marshal_poa = λ key. ok key;
  random_consensus_pub_key = [];
}

sum-IsSorted : (a b : Coins) → IsSorted a → IsSorted b → (c : Coins) × (add a b ≡ ok c) × IsSorted c
sum-IsSorted none b v w = absurd v
sum-IsSorted (some a) none v w = absurd w
sum-IsSorted (some a) (some b) v w = (some (a + b), refl, tt)

add_assoc :
    (a b c ab bc : Coins)
    → IsSorted a
    → IsSorted b
    → IsSorted c
    → add a b ≡ ok ab
    → add b c ≡ ok bc
    → add ab c ≡ add a bc
add_assoc none b c ab bc u v w e f = absurd u
add_assoc (some a) none c ab bc u v w e f = absurd v
add_assoc (some a) (some b) none ab bc u v w e f = absurd w
add_assoc (some a) (some b) (some c) ab bc u v w e f =
    let left : some (a + b) ≡ ab = cc e in
    let right : some (b + c) ≡ bc = cc f in
    let same : a + b + c ≡ a + (b + c) = omega arith in
    rw (← left, ← right) (ap (λ n. ok (some n)) same)

left_unit : (a : Coins) → IsSorted a → add (some 0) a ≡ ok a
left_unit none v = absurd v
left_unit (some a) v = let same : 0 + a ≡ a = omega arith in ap (λ n. ok (some n)) same

right_unit : (a : Coins) → IsSorted a → add a (some 0) ≡ ok a
right_unit none v = absurd v
right_unit (some a) v = let same : a + 0 ≡ a = omega arith in ap (λ n. ok (some n)) same

mock-IsAdditive : (cdc : Unit {0}) → IsAdditive names plain (mock cdc) IsSorted
mock-IsAdditive cdc = record {
  none-IsValid = tt;
  add-IsValid = sum-IsSorted;
  assoc = add_assoc;
  left = left_unit;
  right = right_unit;
}

abbrev balances : List (Balance Coins)
balances =
    record { address = 4 ∷ []; coins = some 30 } ∷ record { address = 6 ∷ []; coins = some 12 } ∷ []

-- Every genesis state has the empty JSON, and the chain starts on anything.
abbrev json : GenesisState → Result Bytes
json gs = ok []

abbrev State : Type 0
State = Entries × List (Call World)

abbrev begin_chain : RequestInitChain → Exec State (Unit {0})
begin_chain req s = (ok tt, s)

abbrev after_start : State
after_start =
    (make_mock_app names world_sdk keepers world_store params_codec plain world_ante node mock []
      json begin_chain parts app_options balances ([], [])).1

starts :
    make_mock_app names world_sdk keepers world_store params_codec plain world_ante node mock []
      json begin_chain parts app_options balances
      ([], [])
    ≡ (ok app, after_start)
unfolding make_mock_app new_sim_app start_app new_keepers new_keeper wasm_params set_ante_handler
    set_post_handler new_ante_handler new_post_handler make_mock_genesis_state parse_address
    make_encoding_config make_test_encoding_config run_all app_module_basic register_interfaces
starts = refl

make_mock_app-IsStarted_example :
    IsStarted names world_sdk keepers world_store params_codec plain world_ante node mock [] json
      begin_chain parts app_options balances app
      ([], [])
      after_start
make_mock_app-IsStarted_example =
    make_mock_app-IsStarted names world_sdk keepers world_store params_codec plain world_ante node
      mock [] json begin_chain parts app_options balances app ([], []) after_start IsSorted
      mock-IsAdditive (λ cdc. (tt, (tt, tt))) starts
