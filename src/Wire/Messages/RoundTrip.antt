-- ===== src/Wire/Messages/RoundTrip.antt =====
-- `Unmarshal` reads back what `Marshal` wrote, for each message.
use abstract_account.Prelude.{◌≡◌, refl, Bytes, []}
use abstract_account.Result.{ok}
use abstract_account.Wire.Params.Laws.{InRange as ParamsInRange}
use abstract_account.Wire.Params.RoundTrip.{unmarshal-marshal}
use abstract_account.Wire.Account.RoundTrip.{InRange as AccountInRange, unmarshal-marshal_account}
use abstract_account.Wire.Account.NilKey.RoundTrip.{InRange as KeyInRange, unmarshal-marshal_key}
use abstract_account.Wire.Events.RoundTrip.{InRange as EventInRange, unmarshal-marshal_event}
use abstract_account.Wire.Genesis.RoundTrip.{InRange as GenesisInRange, unmarshal-marshal_genesis}
use abstract_account.Wire.Update.RoundTrip.{InRange as UpdateInRange, unmarshal-marshal_update}
use abstract_account.Wire.Update.Response
use abstract_account.Wire.Register.{CoinCodec}
use abstract_account.Wire.Register.Laws.{InRange as RegisterInRange, CoinLaws}
use abstract_account.Wire.Register.RoundTrip.{unmarshal-marshal_register}
use abstract_account.Wire.RegisterResponse.RoundTrip.{
  InRange as ResponseInRange, unmarshal-marshal_response,
}
use abstract_account.Wire.Query.RoundTrip.{InRange as QueryInRange, unmarshal-marshal_query}
use abstract_account.Wire.Query.Request
use abstract_account.Wire.Message.{unmarshal_into}
use abstract_account.Wire.Fields.{marshal_sized}
use abstract_account.Wire.Messages.{
  Kind, params, account, key, event, genesis, update, update_response, register, register_response,
  query, query_response, Message, zero_of, marshal_of, unmarshal_of,
}

-- The messages with no field.
empty_update_response :
    (m : Unit {0})
    → (bz : Bytes) × (abstract_account.Wire.Update.Response.marshal m ≡ ok bz)
      × (abstract_account.Wire.Update.Response.unmarshal tt bz ≡ ok m)
unfolding abstract_account.Wire.Update.Response.marshal marshal_sized
    abstract_account.Wire.Update.Response.unmarshal unmarshal_into
empty_update_response m = ([], refl, refl)

empty_query :
    (m : Unit {0})
    → (bz : Bytes) × (abstract_account.Wire.Query.Request.marshal m ≡ ok bz)
      × (abstract_account.Wire.Query.Request.unmarshal tt bz ≡ ok m)
unfolding abstract_account.Wire.Query.Request.marshal marshal_sized
    abstract_account.Wire.Query.Request.unmarshal unmarshal_into
empty_query m = ([], refl, refl)

module _ {Coin : Type 0} (coins : CoinCodec Coin) (laws : CoinLaws coins) where
  -- What the Go types give.
  abbrev pub InRange : (k : Kind) → Message coins k → Type 0
  InRange params m = ParamsInRange m
  InRange account m = AccountInRange m
  InRange key m = KeyInRange m
  InRange event m = EventInRange m
  InRange genesis m = GenesisInRange m
  InRange update m = UpdateInRange m
  InRange update_response m = Unit
  InRange register m = RegisterInRange coins laws m
  InRange register_response m = ResponseInRange m
  InRange query m = Unit
  InRange query_response m = QueryInRange m

  -- Each message of the module whose numbers are of 64 bits, whose coins obey the laws of their own
  -- encoding, whose encoding is no longer than an `int`, and in which a key's bytes are nil or not
  -- empty, is marshalled, and `Unmarshal` into a new message gives it back from the bytes.
  pub unmarshal_of-marshal_of :
      (k : Kind) (m : Message coins k)
      → InRange k m
      → (bz : Bytes) × (marshal_of coins k m ≡ ok bz)
        × (unmarshal_of coins k (zero_of coins k) bz ≡ ok m)
  unmarshal_of-marshal_of params m r = unmarshal-marshal m r
  unmarshal_of-marshal_of account m r = unmarshal-marshal_account m r
  unmarshal_of-marshal_of key m r = unmarshal-marshal_key m r
  unmarshal_of-marshal_of event m r = unmarshal-marshal_event m r
  unmarshal_of-marshal_of genesis m r = unmarshal-marshal_genesis m r
  unmarshal_of-marshal_of update m r = unmarshal-marshal_update m r
  unmarshal_of-marshal_of update_response m r = empty_update_response m
  unmarshal_of-marshal_of register m r = unmarshal-marshal_register coins laws m r
  unmarshal_of-marshal_of register_response m r = unmarshal-marshal_response m r
  unmarshal_of-marshal_of query m r = empty_query m
  unmarshal_of-marshal_of query_response m r = unmarshal-marshal_query m r
