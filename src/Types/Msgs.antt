-- ===== src/Types/Msgs.antt =====
-- The messages of tx.pb.go and the event of events.pb.go; `ValidateBasic` and `GetSigners` of tx.go.
pub mod Laws
use abstract_account.Prelude.{ℕ, Bytes, Bool, Option, none, some, List, [], ◌∷◌, ◌==◌, not}
use abstract_account.Result.{
  Result, ok, err, panicked, Error, invalid_request, invalid_coins, guard, ◌>>=◌,
}
use abstract_account.Sdk.{AccAddress, Bech32}
use abstract_account.Types.Params.{Params, validate_ptr}

pub record MsgUpdateParams : Type 0 where
  pub sender : Bytes
  pub params : Option Params

-- `Coin` is the SDK's type.
pub record MsgRegisterAccount (Coin : Type 0) : Type 0 where
  pub sender : Bytes
  pub code_id : ℕ
  pub msg : Bytes
  pub funds : List Coin
  pub salt : Bytes

pub record MsgRegisterAccountResponse : Type 0 where
  pub address : Bytes
  pub bytes : Bytes

pub record EventAccountRegistered : Type 0 where
  pub creator : Bytes
  pub code_id : ℕ
  pub contract_addr : Bytes

-- The checks that the SDK and wasmd make on a message's parts.
pub record Checks (Coin : Type 0) : Type 0 where
  pub msg_validate_basic : Bytes → Result (Unit {0})
  pub coins_is_valid : List Coin → Bool
  pub validate_salt : Bytes → Result (Unit {0})

-- A parsed address, or its error.
abbrev pub address_or_error : AccAddress × Option Error → Result AccAddress
address_or_error (addr, none) = ok addr
address_or_error (addr, some e) = err e

unfoldable pub parse_address : Bech32 → Bytes → Result AccAddress
parse_address bech32 text = address_or_error (bech32.from_bech32 text)

-- `Wrap` of another error around a failure.
abbrev pub replace_error {ℓ} : {A : Type ℓ} → Error → Result A → Result A
replace_error e (ok a) = ok a
replace_error e (err x) = err e
replace_error e (panicked p) = panicked p

module _ (bech32 : Bech32) where
  unfoldable pub update_params_validate_basic : MsgUpdateParams → Result (Unit {0})
  update_params_validate_basic m = do
    addr ← replace_error invalid_request (parse_address bech32 m.sender)
    validate_ptr m.params

  -- The error of the parse is dropped.
  unfoldable pub get_signers : Bytes → List AccAddress
  get_signers sender = (bech32.from_bech32 sender).0 ∷ []

module _ (bech32 : Bech32) {Coin : Type 0} (checks : Checks Coin) where
  unfoldable pub register_account_validate_basic : MsgRegisterAccount Coin → Result (Unit {0})
  register_account_validate_basic m = do
    addr ← replace_error invalid_request (parse_address bech32 m.sender)
    nonzero ← guard (not (m.code_id == 0)) invalid_request
    msg ← replace_error invalid_request (checks.msg_validate_basic m.msg)
    coins ← guard (checks.coins_is_valid m.funds) invalid_coins
    checks.validate_salt m.salt
