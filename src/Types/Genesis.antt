-- ===== src/Types/Genesis.antt =====
-- x/abstractaccount/types/genesis.go and keys.go.
use abstract_account.Prelude.{ℕ, Bytes, Option, some, [], ◌∷◌}
use abstract_account.Result.{Result}
use abstract_account.Types.Params.{Params, default_params, validate_ptr}

-- `GenesisState` of genesis.pb.go; `params` is a pointer.
pub record GenesisState : Type 0 where
  pub params : Option Params
  pub next_account_id : ℕ

unfoldable pub new_genesis_state : ℕ → Option Params → GenesisState
new_genesis_state next_account_id params = record {
  params = params;
  next_account_id = next_account_id;
}

unfoldable pub default_genesis_state : GenesisState
unfolding new_genesis_state default_params
default_genesis_state = new_genesis_state 1 (some default_params)

unfoldable pub validate : GenesisState → Result (Unit {0})
unfolding validate_ptr
validate gs = validate_ptr gs.params

abbrev pub key_params : Bytes
key_params = 0x00 ∷ []

abbrev pub key_next_account_id : Bytes
key_next_account_id = 0x01 ∷ []

abbrev pub key_signer_address : Bytes
key_signer_address = 0x02 ∷ []
