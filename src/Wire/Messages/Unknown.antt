-- ===== src/Wire/Messages/Unknown.antt =====
-- `Unmarshal` passes over fields that a message does not know, as a later version may write them.
use abstract_account.Prelude.{ℕ, ◌+◌, ◌<◌, ◌≡◌, refl, Bytes, List, [], ◌∷◌, ◌++◌, length, arith}
use abstract_account.Result.{ok}
use abstract_account.Wire.Skip.{int_limit}
use abstract_account.Wire.Fields.{marshal_sized}
use abstract_account.Wire.Message.{Fields}
use abstract_account.Wire.Message.Frame.{Parses-end}
use abstract_account.Wire.Message.Unknown.{
  Unknown, number_of, IsField, encode_fields, HasNone, AllUnknown,
}
use abstract_account.Wire.Message.Coded.{Coded, unmarshal-unknown}
use abstract_account.Wire.Register.{CoinCodec}
use abstract_account.Wire.Register.Laws.{CoinLaws}
use abstract_account.Wire.Params
use abstract_account.Wire.Account
use abstract_account.Wire.Account.NilKey
use abstract_account.Wire.Events
use abstract_account.Wire.Genesis
use abstract_account.Wire.Update
use abstract_account.Wire.Update.Response
use abstract_account.Wire.Register
use abstract_account.Wire.RegisterResponse
use abstract_account.Wire.Query.Request
use abstract_account.Wire.Query
use abstract_account.Wire.Params.RoundTrip.{marshal-Coded as params-Coded}
use abstract_account.Wire.Account.RoundTrip.{marshal-Coded as account-Coded}
use abstract_account.Wire.Account.NilKey.RoundTrip.{marshal-Coded as key-Coded}
use abstract_account.Wire.Events.RoundTrip.{marshal-Coded as event-Coded}
use abstract_account.Wire.Genesis.RoundTrip.{marshal-Coded as genesis-Coded}
use abstract_account.Wire.Update.RoundTrip.{marshal-Coded as update-Coded}
use abstract_account.Wire.Register.RoundTrip.{marshal-Coded as register-Coded}
use abstract_account.Wire.RegisterResponse.RoundTrip.{marshal-Coded as register_response-Coded}
use abstract_account.Wire.Query.RoundTrip.{marshal-Coded as query_response-Coded}
use abstract_account.Wire.Messages.{
  Kind, params, account, key, event, genesis, update, update_response, register, register_response,
  query, query_response, Message, zero_of, marshal_of, unmarshal_of,
}
use abstract_account.Wire.Messages.RoundTrip.{InRange}

-- The last field number of each message.
abbrev pub last_of : Kind → ℕ
last_of params = 4
last_of account = 3
last_of key = 1
last_of event = 3
last_of genesis = 2
last_of update = 2
last_of update_response = 0
last_of register = 5
last_of register_response = 2
last_of query = 0
last_of query_response = 1

-- Fields with numbers above `last`.
abbrev pub AllBeyond : ℕ → List Unknown → Type 0
AllBeyond last [] = Unit {0}
AllBeyond last (u ∷ us) = ((last < number_of u) × IsField u) × AllBeyond last us

-- A switch that has no case above `last`.
abbrev EndsAt : {M : Type 0} → ℕ → Fields M → Type 0
EndsAt last fields = (n : ℕ) → last < n → HasNone fields n

beyond-AllUnknown :
    {M : Type 0} (last : ℕ) (fields : Fields M) (us : List Unknown)
    → EndsAt last fields
    → AllBeyond last us
    → AllUnknown fields us
beyond-AllUnknown last fields [] f b = tt
beyond-AllUnknown last fields (u ∷ us) f b =
    ((f (number_of u) b.0.0, b.0.1), beyond-AllUnknown last fields us f b.1)

params-EndsAt : EndsAt (last_of params) abstract_account.Wire.Params.fields
unfolding abstract_account.Wire.Params.fields
params-EndsAt n h = record { at = λ w m c. ground arith }

account-EndsAt : EndsAt (last_of account) abstract_account.Wire.Account.fields
unfolding abstract_account.Wire.Account.fields
account-EndsAt n h = record { at = λ w m c. ground arith }

key-EndsAt : EndsAt (last_of key) abstract_account.Wire.Account.NilKey.fields
unfolding abstract_account.Wire.Account.NilKey.fields
key-EndsAt n h = record { at = λ w m c. ground arith }

event-EndsAt : EndsAt (last_of event) abstract_account.Wire.Events.fields
unfolding abstract_account.Wire.Events.fields
event-EndsAt n h = record { at = λ w m c. ground arith }

genesis-EndsAt : EndsAt (last_of genesis) abstract_account.Wire.Genesis.fields
unfolding abstract_account.Wire.Genesis.fields
genesis-EndsAt n h = record { at = λ w m c. ground arith }

update-EndsAt : EndsAt (last_of update) abstract_account.Wire.Update.fields
unfolding abstract_account.Wire.Update.fields
update-EndsAt n h = record { at = λ w m c. ground arith }

update_response-EndsAt :
    EndsAt (last_of update_response) abstract_account.Wire.Update.Response.fields
unfolding abstract_account.Wire.Update.Response.fields
update_response-EndsAt n h = record { at = λ w m c. refl }

update_response-Coded :
    (m : Unit {0})
    → Coded abstract_account.Wire.Update.Response.fields tt m
        (abstract_account.Wire.Update.Response.marshal m)
unfolding abstract_account.Wire.Update.Response.marshal marshal_sized
update_response-Coded m = record {
  encoding = [];
  written = refl;
  short = omega arith;
  parses = λ i h. Parses-end abstract_account.Wire.Update.Response.fields tt i;
}

register-EndsAt :
    {Coin : Type 0} (coins : CoinCodec Coin)
    → EndsAt (last_of register) (abstract_account.Wire.Register.fields coins)
unfolding abstract_account.Wire.Register.fields
register-EndsAt coins n h = record { at = λ w m c. ground arith }

register_response-EndsAt :
    EndsAt (last_of register_response) abstract_account.Wire.RegisterResponse.fields
unfolding abstract_account.Wire.RegisterResponse.fields
register_response-EndsAt n h = record { at = λ w m c. ground arith }

query-EndsAt : EndsAt (last_of query) abstract_account.Wire.Query.Request.fields
unfolding abstract_account.Wire.Query.Request.fields
query-EndsAt n h = record { at = λ w m c. refl }

query-Coded :
    (m : Unit {0})
    → Coded abstract_account.Wire.Query.Request.fields tt m
        (abstract_account.Wire.Query.Request.marshal m)
unfolding abstract_account.Wire.Query.Request.marshal marshal_sized
query-Coded m = record {
  encoding = [];
  written = refl;
  short = omega arith;
  parses = λ i h. Parses-end abstract_account.Wire.Query.Request.fields tt i;
}

query_response-EndsAt : EndsAt (last_of query_response) abstract_account.Wire.Query.fields
unfolding abstract_account.Wire.Query.fields
query_response-EndsAt n h = record { at = λ w m c. ground arith }

module _ {Coin : Type 0} (coins : CoinCodec Coin) (laws : CoinLaws coins) where
  -- A message within the Go types is read back from its encoding also when fields that it does not
  -- know stand in front: any number of them, each with a number above the last one of the message
  -- and below `2 ^ 29`, and with a 64 bit number, bytes, or a value of eight or four bytes, in an input whose length is an `int`.
  pub unmarshal_of-unknown :
      (k : Kind) (m : Message coins k) (us : List Unknown) (bz : Bytes)
      → InRange coins laws k m
      → AllBeyond (last_of k) us
      → marshal_of coins k m ≡ ok bz
      → length (encode_fields us) + length bz < int_limit
      → unmarshal_of coins k (zero_of coins k) (encode_fields us ++ bz) ≡ ok m
  unfolding abstract_account.Wire.Params.unmarshal abstract_account.Wire.Account.unmarshal
      abstract_account.Wire.Account.NilKey.unmarshal abstract_account.Wire.Events.unmarshal
      abstract_account.Wire.Genesis.unmarshal abstract_account.Wire.Update.unmarshal
      abstract_account.Wire.Update.Response.unmarshal abstract_account.Wire.Register.unmarshal
      abstract_account.Wire.RegisterResponse.unmarshal abstract_account.Wire.Query.Request.unmarshal
      abstract_account.Wire.Query.unmarshal
  unmarshal_of-unknown params m us bz r b e fit =
      unmarshal-unknown abstract_account.Wire.Params.fields abstract_account.Wire.Params.zero_params
        m (abstract_account.Wire.Params.marshal m) us bz (params-Coded m r)
        (beyond-AllUnknown _ _ us params-EndsAt b) e fit
  unmarshal_of-unknown account m us bz r b e fit =
      unmarshal-unknown abstract_account.Wire.Account.fields abstract_account.Wire.Account.zero m
        (abstract_account.Wire.Account.marshal m) us bz (account-Coded m r)
        (beyond-AllUnknown _ _ us account-EndsAt b) e fit
  unmarshal_of-unknown key m us bz r b e fit =
      unmarshal-unknown abstract_account.Wire.Account.NilKey.fields
        abstract_account.Wire.Account.NilKey.zero m (abstract_account.Wire.Account.NilKey.marshal m)
        us bz (key-Coded m r) (beyond-AllUnknown _ _ us key-EndsAt b) e fit
  unmarshal_of-unknown event m us bz r b e fit =
      unmarshal-unknown abstract_account.Wire.Events.fields abstract_account.Wire.Events.zero m
        (abstract_account.Wire.Events.marshal m) us bz (event-Coded m r)
        (beyond-AllUnknown _ _ us event-EndsAt b) e fit
  unmarshal_of-unknown genesis m us bz r b e fit =
      unmarshal-unknown abstract_account.Wire.Genesis.fields abstract_account.Wire.Genesis.zero m
        (abstract_account.Wire.Genesis.marshal m) us bz (genesis-Coded m r)
        (beyond-AllUnknown _ _ us genesis-EndsAt b) e fit
  unmarshal_of-unknown update m us bz r b e fit =
      unmarshal-unknown abstract_account.Wire.Update.fields abstract_account.Wire.Update.zero m
        (abstract_account.Wire.Update.marshal m) us bz (update-Coded m r)
        (beyond-AllUnknown _ _ us update-EndsAt b) e fit
  unmarshal_of-unknown update_response m us bz r b e fit =
      unmarshal-unknown abstract_account.Wire.Update.Response.fields
        abstract_account.Wire.Update.Response.zero m
        (abstract_account.Wire.Update.Response.marshal m) us bz (update_response-Coded m)
        (beyond-AllUnknown _ _ us update_response-EndsAt b) e fit
  unmarshal_of-unknown register m us bz r b e fit =
      unmarshal-unknown (abstract_account.Wire.Register.fields coins)
        abstract_account.Wire.Register.zero m (abstract_account.Wire.Register.marshal coins m) us bz
        (register-Coded coins laws m r) (beyond-AllUnknown _ _ us (register-EndsAt coins) b) e fit
  unmarshal_of-unknown register_response m us bz r b e fit =
      unmarshal-unknown abstract_account.Wire.RegisterResponse.fields
        abstract_account.Wire.RegisterResponse.zero m
        (abstract_account.Wire.RegisterResponse.marshal m) us bz (register_response-Coded m r)
        (beyond-AllUnknown _ _ us register_response-EndsAt b) e fit
  unmarshal_of-unknown query m us bz r b e fit =
      unmarshal-unknown abstract_account.Wire.Query.Request.fields
        abstract_account.Wire.Query.Request.zero m (abstract_account.Wire.Query.Request.marshal m)
        us bz (query-Coded m) (beyond-AllUnknown _ _ us query-EndsAt b) e fit
  unmarshal_of-unknown query_response m us bz r b e fit =
      unmarshal-unknown abstract_account.Wire.Query.fields abstract_account.Wire.Query.zero m
        (abstract_account.Wire.Query.marshal m) us bz (query_response-Coded m r)
        (beyond-AllUnknown _ _ us query_response-EndsAt b) e fit
