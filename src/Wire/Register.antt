-- ===== src/Wire/Register.antt =====
-- x/abstractaccount/types/tx.pb.go: the encoding of `MsgRegisterAccount`. The encoding of the SDK's
-- coins is a parameter.
pub mod Laws
pub mod RoundTrip
use abstract_account.Prelude.{ℕ, ◌+◌, Bytes, none, List, [], ◌∷◌, ◌++◌, ◌==◌, if◌then◌else◌}
use abstract_account.Result.{Result, ok, ◌>>=◌}
use abstract_account.Wire.Varint.{Buffer}
use abstract_account.Wire.Message.{
  Fields, want_type, read_uint, read_slice, read_message, unmarshal_into,
}
use abstract_account.Wire.Fields.{
  put_uint, put_slice, put_message, size_uint, size_slice, size_delimited, marshal_sized,
}
use abstract_account.Types.Msgs.{MsgRegisterAccount}

-- `MarshalToSizedBuffer`, `Size` and `Unmarshal` of `types.Coin`; `read` is `Unmarshal` into a zero
-- coin.
pub record CoinCodec (Coin : Type 0) : Type 0 where
  pub fill : Coin → Buffer → Result Buffer
  pub coin_size : Coin → ℕ
  pub read : Bytes → Result Coin

-- The zero value.
abbrev pub zero : {Coin : Type 0} → MsgRegisterAccount Coin
zero = record { sender = []; code_id = 0; msg = []; funds = []; salt = [] }

module _ {Coin : Type 0} (coins : CoinCodec Coin) where
  -- The loop over the coins, from the last one down to the first.
  put_funds : List Coin → Buffer → Result Buffer
  put_funds [] b = ok b
  put_funds (coin ∷ rest) b = do c ← put_funds rest b; put_message 0x22 (coins.fill coin) c

  unfoldable pub marshal_to_sized_buffer : MsgRegisterAccount Coin → Buffer → Result Buffer
  unfolding put_funds
  marshal_to_sized_buffer m b = do
    b1 ← put_slice 0x2a m.salt b
    b2 ← put_funds m.funds b1
    b3 ← put_slice 0x1a m.msg b2
    b4 ← put_uint 0x10 m.code_id b3
    put_slice 0xa m.sender b4

  size_funds : List Coin → ℕ
  size_funds [] = 0
  size_funds (coin ∷ rest) = size_delimited (coins.coin_size coin) + size_funds rest

  unfoldable pub size : MsgRegisterAccount Coin → ℕ
  unfolding size_funds
  size m =
      size_slice m.sender
      + size_uint m.code_id
      + size_slice m.msg
      + size_funds m.funds
      + size_slice m.salt

  unfoldable pub marshal : MsgRegisterAccount Coin → Result Bytes
  unfolding marshal_to_sized_buffer size
  marshal m = marshal_sized (size m) (marshal_to_sized_buffer m)

  -- The switch of `Unmarshal`.
  unfoldable pub fields : Fields (MsgRegisterAccount Coin)
  fields field_num wire_type m c =
      if field_num == 1
      then want_type 2 wire_type (read_slice (λ xs. record m { sender = xs }) c)
      else if field_num == 2
      then want_type 0 wire_type (read_uint (λ v. record m { code_id = v }) c)
      else if field_num == 3
      then want_type 2 wire_type (read_slice (λ xs. record m { msg = xs }) c)
      else if field_num == 4
      then want_type 2 wire_type (
          read_message
            (λ xs. do coin ← coins.read xs; ok (record m { funds = m.funds ++ (coin ∷ []) })) c)
      else if field_num == 5
      then want_type 2 wire_type (read_slice (λ xs. record m { salt = xs }) c)
      else ok none

  unfoldable pub unmarshal : MsgRegisterAccount Coin → Bytes → Result (MsgRegisterAccount Coin)
  unfolding fields
  unmarshal = unmarshal_into fields
