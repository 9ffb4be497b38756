-- ===== src/Wire/Messages/Total.antt =====
-- `Unmarshal` of each message ends on every input, with fields of the Go types.
use abstract_account.Prelude.{Bytes, IsU64, All, Option, none, some, List, [], ◌∷◌, ◌++◌, ◌==◌}
use abstract_account.Result.{ok, ◌>>=◌}
use abstract_account.Types.Params.{Params}
use abstract_account.Types.Account.{AbstractAccount}
use abstract_account.Types.Genesis.{GenesisState}
use abstract_account.Types.Msgs.{MsgUpdateParams, MsgRegisterAccount, EventAccountRegistered}
use abstract_account.Wire.Varint.{Cursor}
use abstract_account.Wire.Safe.{Safe, bind-Safe, if-Safe, weaken-Safe}
use abstract_account.Wire.Message.{Fields}
use abstract_account.Wire.Message.Total.{
  Case, Total, read_uint-Safe, read_slice-Safe, read_message-Safe, unmarshal_into-Safe,
}
use abstract_account.Wire.Params.{unmarshal_pointer, zero_params}
use abstract_account.Wire.Params.Total.{HasTypes, zero_params-HasTypes, Keeps, unmarshal-Safe}
use abstract_account.Wire.Account
use abstract_account.Wire.Account.NilKey
use abstract_account.Wire.Events
use abstract_account.Wire.Genesis
use abstract_account.Wire.Update
use abstract_account.Wire.Update.Response
use abstract_account.Wire.Register.{CoinCodec}
use abstract_account.Wire.Register
use abstract_account.Wire.RegisterResponse
use abstract_account.Wire.Query.{QueryParamsResponse}
use abstract_account.Wire.Query
use abstract_account.Wire.Query.Request
use abstract_account.Wire.Messages.{
  Kind, params, account, key, event, genesis, update, update_response, register, register_response,
  query, query_response, Message, unmarshal_of,
}

params_Safe :
    (m : Params) (bz : Bytes)
    → HasTypes m
    → Safe HasTypes (abstract_account.Wire.Params.unmarshal m bz)
params_Safe m bz t = weaken-Safe (Keeps m) HasTypes _ (λ a k. k t) (unmarshal-Safe m bz)

-- Parameters behind a pointer.
abbrev pub PointerTypes : Option Params → Type 0
PointerTypes none = Unit {0}
PointerTypes (some p) = HasTypes p

pointer_Safe :
    (o : Option Params) (bz : Bytes) → PointerTypes o → Safe HasTypes (unmarshal_pointer o bz)
unfolding unmarshal_pointer
pointer_Safe none bz t = params_Safe zero_params bz zero_params-HasTypes
pointer_Safe (some p) bz t = params_Safe p bz t

-- A message whose params field is read by `set`.
set_Safe :
    {M : Type 0} (T : M → Type 0) (o : Option Params) (set : Params → M) (c : Cursor)
    → PointerTypes o
    → ((p : Params) → HasTypes p → T (set p))
    → Safe (Case T c) (
        abstract_account.Wire.Message.read_message
          (λ xs. unmarshal_pointer o xs >>= λ p. ok (set p))
          c)
set_Safe T o set c t k =
    read_message-Safe T _ c
      λ xs. bind-Safe HasTypes T (unmarshal_pointer o xs) _ (pointer_Safe o xs t) k

abbrev pub AccountTypes : AbstractAccount → Type 0
AccountTypes m = IsU64 m.account_number × IsU64 m.sequence

account_Total : Total AccountTypes abstract_account.Wire.Account.fields
unfolding abstract_account.Wire.Account.fields
account_Total = record {
  at = λ n w m c t.
      if-Safe _ (n == 1) _ _
        (if-Safe _ (w == 2) _ _ (read_slice-Safe AccountTypes _ c (λ xs. t)) tt)
        (if-Safe _ (n == 2) _ _
          (if-Safe _ (w == 0) _ _ (read_uint-Safe AccountTypes _ c (λ v h. (h, t.1))) tt)
          (if-Safe _ (n == 3) _ _
            (if-Safe _ (w == 0) _ _ (read_uint-Safe AccountTypes _ c (λ v h. (t.0, h))) tt) tt));
}

key_Total : Total (λ m. Unit {0}) abstract_account.Wire.Account.NilKey.fields
unfolding abstract_account.Wire.Account.NilKey.fields
key_Total = record {
  at = λ n w m c t.
      if-Safe _ (n == 1) _ _
        (if-Safe _ (w == 2) _ _ (read_slice-Safe (λ m. Unit {0}) _ c (λ xs. tt)) tt) tt;
}

abbrev pub EventTypes : EventAccountRegistered → Type 0
EventTypes m = IsU64 m.code_id

event_Total : Total EventTypes abstract_account.Wire.Events.fields
unfolding abstract_account.Wire.Events.fields
event_Total = record {
  at = λ n w m c t.
      if-Safe _ (n == 1) _ _ (if-Safe _ (w == 2) _ _ (read_slice-Safe EventTypes _ c (λ xs. t)) tt)
        (if-Safe _ (n == 2) _ _
          (if-Safe _ (w == 0) _ _ (read_uint-Safe EventTypes _ c (λ v h. h)) tt)
          (if-Safe _ (n == 3) _ _
            (if-Safe _ (w == 2) _ _ (read_slice-Safe EventTypes _ c (λ xs. t)) tt) tt));
}

abbrev pub GenesisTypes : GenesisState → Type 0
GenesisTypes m = PointerTypes m.params × IsU64 m.next_account_id

genesis_Total : Total GenesisTypes abstract_account.Wire.Genesis.fields
unfolding abstract_account.Wire.Genesis.fields
genesis_Total = record {
  at = λ n w m c t.
      if-Safe _ (n == 1) _ _
        (if-Safe _ (w == 2) _ _ (set_Safe GenesisTypes m.params _ c t.0 (λ p h. (h, t.1))) tt)
        (if-Safe _ (n == 2) _ _
          (if-Safe _ (w == 0) _ _ (read_uint-Safe GenesisTypes _ c (λ v h. (t.0, h))) tt) tt);
}

abbrev pub UpdateTypes : MsgUpdateParams → Type 0
UpdateTypes m = PointerTypes m.params

update_Total : Total UpdateTypes abstract_account.Wire.Update.fields
unfolding abstract_account.Wire.Update.fields
update_Total = record {
  at = λ n w m c t.
      if-Safe _ (n == 1) _ _ (if-Safe _ (w == 2) _ _ (read_slice-Safe UpdateTypes _ c (λ xs. t)) tt)
        (if-Safe _ (n == 2) _ _
          (if-Safe _ (w == 2) _ _ (set_Safe UpdateTypes m.params _ c t (λ p h. h)) tt) tt);
}

response_Total : Total (λ m. Unit {0}) abstract_account.Wire.RegisterResponse.fields
unfolding abstract_account.Wire.RegisterResponse.fields
response_Total = record {
  at = λ n w m c t.
      if-Safe _ (n == 1) _ _
        (if-Safe _ (w == 2) _ _ (read_slice-Safe (λ m. Unit {0}) _ c (λ xs. tt)) tt)
        (if-Safe _ (n == 2) _ _
          (if-Safe _ (w == 2) _ _ (read_slice-Safe (λ m. Unit {0}) _ c (λ xs. tt)) tt) tt);
}

abbrev pub QueryTypes : QueryParamsResponse → Type 0
QueryTypes m = PointerTypes m.params

query_Total : Total QueryTypes abstract_account.Wire.Query.fields
unfolding abstract_account.Wire.Query.fields
query_Total = record {
  at = λ n w m c t.
      if-Safe _ (n == 1) _ _
        (if-Safe _ (w == 2) _ _ (set_Safe QueryTypes m.params _ c t (λ p h. h)) tt) tt;
}

-- What the two messages with no field have for a switch.
none_Total : Total {M = Unit {0}} (λ m. Unit {0}) (λ n w m c. ok none)
none_Total = record { at = λ n w m c t. tt }

-- Reading a coin ends on every input, in a coin of the right types.
pub record CoinReads {Coin : Type 0} (coins : CoinCodec Coin) : Type 1 where
  pub Types : Coin → Type 0
  pub total : (bz : Bytes) → Safe Types (coins.read bz)

module _ {Coin : Type 0} (coins : CoinCodec Coin) (reads : CoinReads coins) where
  pub record RegisterTypes (m : MsgRegisterAccount Coin) : Type 0 where
    pub code_id : IsU64 m.code_id
    pub funds : All reads.Types m.funds

  All-snoc :
      (l : List Coin) (a : Coin)
      → All reads.Types l
      → reads.Types a
      → All reads.Types (l ++ (a ∷ []))
  All-snoc [] a h p = (p, tt)
  All-snoc (x ∷ l) a h p = (h.0, All-snoc l a h.1 p)

  register_Total : Total RegisterTypes (abstract_account.Wire.Register.fields coins)
  unfolding abstract_account.Wire.Register.fields
  register_Total = record {
    at = λ n w m c t.
        if-Safe _ (n == 1) _ _
          (if-Safe _ (w == 2) _ _
            (read_slice-Safe RegisterTypes _ c
              (λ xs. record { code_id = t.code_id; funds = t.funds }))
            tt)
          (if-Safe _ (n == 2) _ _
            (if-Safe _ (w == 0) _ _
              (read_uint-Safe RegisterTypes _ c (λ v h. record { code_id = h; funds = t.funds }))
              tt)
            (if-Safe _ (n == 3) _ _
              (if-Safe _ (w == 2) _ _
                (read_slice-Safe RegisterTypes _ c
                  (λ xs. record { code_id = t.code_id; funds = t.funds }))
                tt)
              (if-Safe _ (n == 4) _ _
                (if-Safe _ (w == 2) _ _
                  (read_message-Safe RegisterTypes _ c λ xs.
                    bind-Safe reads.Types RegisterTypes (coins.read xs) _ (reads.total xs) λ coin h.
                      record { code_id = t.code_id; funds = All-snoc m.funds coin t.funds h })
                  tt)
                (if-Safe _ (n == 5) _ _
                  (if-Safe _ (w == 2) _ _
                    (read_slice-Safe RegisterTypes _ c
                      (λ xs. record { code_id = t.code_id; funds = t.funds }))
                    tt)
                  tt))));
  }

  -- The Go types of the fields of a message.
  abbrev pub Typed : (k : Kind) → Message coins k → Type 0
  Typed params m = HasTypes m
  Typed account m = AccountTypes m
  Typed key m = Unit
  Typed event m = EventTypes m
  Typed genesis m = GenesisTypes m
  Typed update m = UpdateTypes m
  Typed update_response m = Unit
  Typed register m = RegisterTypes m
  Typed register_response m = Unit
  Typed query m = Unit
  Typed query_response m = QueryTypes m

  -- On every input and for each message of the module, `Unmarshal` ends with an error or with a
  -- message whose fields have their Go types: it does not panic, and its loops end within the fuel
  -- that they are given. The message that is read into has the types, and reading a coin ends.
  pub unmarshal_of-Safe :
      (k : Kind) (m : Message coins k) (bz : Bytes)
      → Typed k m
      → Safe (Typed k) (unmarshal_of coins k m bz)
  unfolding abstract_account.Wire.Account.unmarshal abstract_account.Wire.Account.NilKey.unmarshal
      abstract_account.Wire.Events.unmarshal abstract_account.Wire.Genesis.unmarshal
      abstract_account.Wire.Update.unmarshal abstract_account.Wire.Update.Response.unmarshal
      abstract_account.Wire.Register.unmarshal abstract_account.Wire.RegisterResponse.unmarshal
      abstract_account.Wire.Query.unmarshal abstract_account.Wire.Query.Request.unmarshal
      abstract_account.Wire.Query.Request.fields abstract_account.Wire.Update.Response.fields
  unmarshal_of-Safe params m bz t = params_Safe m bz t
  unmarshal_of-Safe account m bz t = unmarshal_into-Safe _ _ account_Total m bz t
  unmarshal_of-Safe key m bz t = unmarshal_into-Safe _ _ key_Total m bz t
  unmarshal_of-Safe event m bz t = unmarshal_into-Safe _ _ event_Total m bz t
  unmarshal_of-Safe genesis m bz t = unmarshal_into-Safe _ _ genesis_Total m bz t
  unmarshal_of-Safe update m bz t = unmarshal_into-Safe _ _ update_Total m bz t
  unmarshal_of-Safe update_response m bz t = unmarshal_into-Safe _ _ none_Total m bz t
  unmarshal_of-Safe register m bz t = unmarshal_into-Safe _ _ register_Total m bz t
  unmarshal_of-Safe register_response m bz t = unmarshal_into-Safe _ _ response_Total m bz t
  unmarshal_of-Safe query m bz t = unmarshal_into-Safe _ _ none_Total m bz t
  unmarshal_of-Safe query_response m bz t = unmarshal_into-Safe _ _ query_Total m bz t
