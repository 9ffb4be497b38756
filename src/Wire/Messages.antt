-- ===== src/Wire/Messages.antt =====
-- x/abstractaccount/types/*.pb.go: the messages of the module, all with their zero value, `Marshal`
-- and `Unmarshal`. The encoding of the SDK's coins is a parameter.
pub mod RoundTrip
pub mod Total
pub mod Unknown
use abstract_account.Prelude.{Bytes}
use abstract_account.Result.{Result}
use abstract_account.Types.Params.{Params}
use abstract_account.Types.Account.{AbstractAccount, NilPubKey}
use abstract_account.Types.Genesis.{GenesisState}
use abstract_account.Types.Msgs.{
  MsgUpdateParams, MsgRegisterAccount, MsgRegisterAccountResponse, EventAccountRegistered,
}
use abstract_account.Wire.Params
use abstract_account.Wire.Account
use abstract_account.Wire.Account.NilKey
use abstract_account.Wire.Events
use abstract_account.Wire.Genesis
use abstract_account.Wire.Update
use abstract_account.Wire.Update.Response.{MsgUpdateParamsResponse}
use abstract_account.Wire.Update.Response
use abstract_account.Wire.Register.{CoinCodec}
use abstract_account.Wire.Register
use abstract_account.Wire.RegisterResponse
use abstract_account.Wire.Query.{QueryParamsResponse}
use abstract_account.Wire.Query
use abstract_account.Wire.Query.Request.{QueryParamsRequest}
use abstract_account.Wire.Query.Request

pub data Kind : Type 0 where
  params account key event genesis : Kind
  update update_response register register_response query query_response : Kind

module _ {Coin : Type 0} (coins : CoinCodec Coin) where
  abbrev pub Message : Kind → Type 0
  Message params = Params
  Message account = AbstractAccount
  Message key = NilPubKey
  Message event = EventAccountRegistered
  Message genesis = GenesisState
  Message update = MsgUpdateParams
  Message update_response = MsgUpdateParamsResponse
  Message register = MsgRegisterAccount Coin
  Message register_response = MsgRegisterAccountResponse
  Message query = QueryParamsRequest
  Message query_response = QueryParamsResponse

  abbrev pub zero_of : (k : Kind) → Message k
  zero_of params = abstract_account.Wire.Params.zero_params
  zero_of account = abstract_account.Wire.Account.zero
  zero_of key = abstract_account.Wire.Account.NilKey.zero
  zero_of event = abstract_account.Wire.Events.zero
  zero_of genesis = abstract_account.Wire.Genesis.zero
  zero_of update = abstract_account.Wire.Update.zero
  zero_of update_response = abstract_account.Wire.Update.Response.zero
  zero_of register = abstract_account.Wire.Register.zero
  zero_of register_response = abstract_account.Wire.RegisterResponse.zero
  zero_of query = abstract_account.Wire.Query.Request.zero
  zero_of query_response = abstract_account.Wire.Query.zero

  abbrev pub marshal_of : (k : Kind) → Message k → Result Bytes
  marshal_of params = abstract_account.Wire.Params.marshal
  marshal_of account = abstract_account.Wire.Account.marshal
  marshal_of key = abstract_account.Wire.Account.NilKey.marshal
  marshal_of event = abstract_account.Wire.Events.marshal
  marshal_of genesis = abstract_account.Wire.Genesis.marshal
  marshal_of update = abstract_account.Wire.Update.marshal
  marshal_of update_response = abstract_account.Wire.Update.Response.marshal
  marshal_of register = abstract_account.Wire.Register.marshal coins
  marshal_of register_response = abstract_account.Wire.RegisterResponse.marshal
  marshal_of query = abstract_account.Wire.Query.Request.marshal
  marshal_of query_response = abstract_account.Wire.Query.marshal

  -- `Unmarshal` reads into a message.
  abbrev pub unmarshal_of : (k : Kind) → Message k → Bytes → Result (Message k)
  unmarshal_of params = abstract_account.Wire.Params.unmarshal
  unmarshal_of account = abstract_account.Wire.Account.unmarshal
  unmarshal_of key = abstract_account.Wire.Account.NilKey.unmarshal
  unmarshal_of event = abstract_account.Wire.Events.unmarshal
  unmarshal_of genesis = abstract_account.Wire.Genesis.unmarshal
  unmarshal_of update = abstract_account.Wire.Update.unmarshal
  unmarshal_of update_response = abstract_account.Wire.Update.Response.unmarshal
  unmarshal_of register = abstract_account.Wire.Register.unmarshal coins
  unmarshal_of register_response = abstract_account.Wire.RegisterResponse.unmarshal
  unmarshal_of query = abstract_account.Wire.Query.Request.unmarshal
  unmarshal_of query_response = abstract_account.Wire.Query.unmarshal
