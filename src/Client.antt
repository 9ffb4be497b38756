-- ===== src/Client.antt =====
-- x/abstractaccount/client/cli: what the commands send. Their usage texts, their flags and the tree
-- that they stand in are in Client/Commands.antt.
pub mod Laws
pub mod Tree
pub mod Commands
use abstract_account.Prelude.{ℕ, Bytes, Option, none, some, List, [], ◌∷◌}
use abstract_account.Prelude.Decimal.Parse.{parse_uint}
use abstract_account.Result.{Result, ok, err, panicked, wrong_arguments, ◌>>=◌}
use abstract_account.Exec.{Exec, and_then}
use abstract_account.Sdk.{AccAddress, Bech32}
use abstract_account.Types.Params.{Params}
use abstract_account.Types.Msgs.{
  MsgUpdateParams, MsgRegisterAccount, Checks, update_params_validate_basic,
  register_account_validate_basic,
}
use abstract_account.Wire.Query.{QueryParamsResponse}

-- What the commands take from the SDK's client and from encoding/json. `C` is the state of the
-- client: a broadcast message, or a printed text. A flag is given by its value or its error.
pub record ClientOps (C Coin : Type 0) : Type 0 where
  pub from_address : Result AccAddress
  pub salt_flag : Result Bytes
  pub funds_flag : Result Bytes
  pub parse_coins_normalized : Bytes → Result (List Coin)
  pub unmarshal_params : Bytes → Result Params
  pub broadcast_register : MsgRegisterAccount Coin → Exec C (Unit {0})
  pub broadcast_update : MsgUpdateParams → Exec C (Unit {0})
  pub client_query_context : Result (Unit {0})
  pub query : C → Result QueryParamsResponse
  pub print_proto : Option Params → Exec C (Unit {0})

-- `cobra.ExactArgs(2)`, `cobra.ExactArgs(1)` and `cobra.NoArgs`.
abbrev pub two_args : List Bytes → Result (Bytes × Bytes)
two_args (a ∷ b ∷ []) = ok (a, b)
two_args _ = err wrong_arguments

abbrev pub one_arg : List Bytes → Result Bytes
one_arg (a ∷ []) = ok a
one_arg _ = err wrong_arguments

abbrev pub no_args : List Bytes → Result (Unit {0})
no_args [] = ok tt
no_args (a ∷ rest) = err wrong_arguments

module _ {C Coin : Type 0} (bech32 : Bech32) (checks : Checks Coin) (ops : ClientOps C Coin) where
  -- The message of `registerCmd`.
  unfoldable pub register_msg : List Bytes → Result (MsgRegisterAccount Coin)
  register_msg args = do
    (code_id_arg, msg_arg) ← two_args args
    from ← ops.from_address
    code_id ← parse_uint code_id_arg
    salt ← ops.salt_flag
    amount_str ← ops.funds_flag
    amount ← ops.parse_coins_normalized amount_str
    let msg : MsgRegisterAccount Coin = record {
      sender = bech32.to_string from;
      code_id = code_id;
      msg = msg_arg;
      funds = amount;
      salt = salt;
    }
    checked ← register_account_validate_basic bech32 checks msg
    ok msg

  unfoldable pub register_cmd : List Bytes → Exec C (Unit {0})
  register_cmd args c = and_then (register_msg args, c) ops.broadcast_register

  -- The message of `updateParamsCmd`.
  unfoldable pub update_params_msg : List Bytes → Result MsgUpdateParams
  update_params_msg args = do
    arg ← one_arg args
    from ← ops.from_address
    params ← ops.unmarshal_params arg
    let msg : MsgUpdateParams = record { sender = bech32.to_string from; params = some params }
    checked ← update_params_validate_basic bech32 msg
    ok msg

  unfoldable pub update_params_cmd : List Bytes → Exec C (Unit {0})
  update_params_cmd args c = and_then (update_params_msg args, c) ops.broadcast_update

-- An error of the query is dropped: the command then prints nothing and succeeds.
abbrev print_or_nothing :
    {C Coin : Type 0} → ClientOps C Coin → Result QueryParamsResponse → Exec C (Unit {0})
print_or_nothing ops (ok res) c = ops.print_proto res.params c
print_or_nothing ops (err e) c = (ok tt, c)
print_or_nothing ops (panicked p) c = (panicked p, c)

module _ {C Coin : Type 0} (ops : ClientOps C Coin) where
  unfoldable pub params_cmd : List Bytes → Exec C (Unit {0})
  params_cmd args c =
      and_then (no_args args, c)
        (λ u d.
          and_then (ops.client_query_context, d) (λ v e. print_or_nothing ops (ops.query e) e))
