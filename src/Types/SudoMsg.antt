-- ===== src/Types/SudoMsg.antt =====
-- x/abstractaccount/types/wasmbinding.go: the message to an account contract.
pub mod Json
use abstract_account.Prelude.{Bytes, Bool, Option, none, some, List, [], ◌∷◌, ◌++◌}
use abstract_account.Result.{Result, ok, err, panicked, ◌>>=◌}

-- An `sdk.Msg`, by what `proto.MessageName` and `proto.Marshal` return for it.
pub record Msg : Type 0 where
  pub message_name : Bytes
  pub marshalled : Result Bytes

pub record Any : Type 0 where
  pub type_url : Bytes
  pub value : Bytes

-- Of the two slices of bytes, `tx_bytes` can be nil. `cred_bytes` is left out of the JSON where it is
-- nil or empty, and a nil one is the empty one here. What `proto.Marshal` returns without an error is
-- not nil, so the value of an `Any` is not either.
pub record BeforeTx : Type 0 where
  pub msgs : List Any
  pub tx_bytes : Option Bytes
  pub cred_bytes : Bytes
  pub simulate : Bool

pub record AfterTx : Type 0 where
  pub simulate : Bool

pub record AccountSudoMsg : Type 0 where
  pub before_tx : Option BeforeTx
  pub after_tx : Option AfterTx

unfoldable pub new_any_from_proto_msg : Msg → Result Any
new_any_from_proto_msg msg = do
  msg_bytes ← msg.marshalled
  ok (record { type_url = b'/' ∷ msg.message_name; value = msg_bytes })

-- `sdkMsgsToAnys` of ante.go.
unfoldable pub sdk_msgs_to_anys : List Msg → Result (List Any)
unfolding new_any_from_proto_msg
sdk_msgs_to_anys [] = ok []
sdk_msgs_to_anys (msg ∷ rest) = do
  msg_any ← new_any_from_proto_msg msg
  anys ← sdk_msgs_to_anys rest
  ok (msg_any ∷ anys)
