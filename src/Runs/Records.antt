-- ===== src/Runs/Records.antt =====
-- The encodings of a registration with two coins, and of parameters behind unknown fields.
use abstract_account.Prelude.{List, ◌+◌, ◌<◌, ◌++◌, ◌≡◌, refl, Bytes, [], ◌∷◌, codes, length, arith}
use abstract_account.Result.{ok}
use abstract_account.Wire.Safe.{Safe}
use abstract_account.Wire.Skip.{int_limit}
use abstract_account.Wire.Message.Unknown.{Unknown, number, bytes, fixed32, encode_fields}
use abstract_account.Wire.Messages.Unknown.{AllBeyond, unmarshal_of-unknown}
use abstract_account.Runs.Codec.{some_params, some_bytes, some_params-InRange, marshalled}
use abstract_account.Wire.Messages.{params, register, zero_of, marshal_of, unmarshal_of}
use abstract_account.Wire.Messages.RoundTrip.{unmarshal_of-marshal_of}
use abstract_account.Wire.Messages.Total.{CoinReads, RegisterTypes, unmarshal_of-Safe}
use abstract_account.Types.Msgs.{MsgRegisterAccount}
use abstract_account.Wire.Varint.Size.{varint}
use abstract_account.Wire.Fields.Laws.{uint_field, slice_field}
use abstract_account.Wire.Varint.{put_bytes}
use abstract_account.Wire.Varint.Write.{put_bytes-Writes}
use abstract_account.Wire.Register.{CoinCodec}
use abstract_account.Wire.Register.Laws.{CoinLaws}

-- A coin that is its own encoding.
abbrev coin_codec : CoinCodec Bytes
coin_codec = record { fill = put_bytes; coin_size = length; read = ok }

abbrev coin_laws : CoinLaws coin_codec
coin_laws = record {
  Fits = λ coin. Unit;
  encode = λ coin. coin;
  fills = λ coin u. put_bytes-Writes coin;
  sizes = λ coin u. refl;
  reads = λ coin u. refl;
}

abbrev one_register : MsgRegisterAccount Bytes
one_register = record {
  sender = codes "larry";
  code_id = 42;
  msg = codes "{}";
  funds = (1 ∷ 2 ∷ []) ∷ (3 ∷ []) ∷ [];
  salt = codes "s";
}

one_register-InRange : abstract_account.Wire.Register.Laws.InRange coin_codec coin_laws one_register
unfolding abstract_account.Wire.Register.Laws.encoding uint_field slice_field varint
    abstract_account.Wire.Register.Laws.funds_field
one_register-InRange = record {
  code_id = omega arith;
  coins_fit = (tt, (tt, tt));
  short = omega arith;
}

unmarshal_of-marshal_of_example :
    (bz : Bytes) × (marshal_of coin_codec register one_register ≡ ok bz)
    × (unmarshal_of coin_codec register (zero_of coin_codec register) bz ≡ ok one_register)
unmarshal_of-marshal_of_example =
    unmarshal_of-marshal_of coin_codec coin_laws register one_register one_register-InRange

abbrev coin_reads : CoinReads coin_codec
coin_reads = record { Types = λ coin. Unit; total = λ bz. tt }

empty_register : RegisterTypes coin_codec coin_reads (zero_of coin_codec register)
empty_register = record { code_id = omega arith; funds = tt }

-- A registration whose coins are cut short.
unmarshal_of-Safe_example :
    Safe
      (RegisterTypes coin_codec coin_reads)
      (unmarshal_of coin_codec register (zero_of coin_codec register) (0x22 ∷ 0xff ∷ []))
unmarshal_of-Safe_example =
    unmarshal_of-Safe coin_codec coin_reads register (zero_of coin_codec register)
      (0x22 ∷ 0xff ∷ []) empty_register

-- Three fields that parameters do not have.
abbrev later_fields : List Unknown
later_fields = number 5 300 ∷ bytes 9 (1 ∷ 2 ∷ []) ∷ fixed32 6 (1 ∷ 2 ∷ 3 ∷ 4 ∷ []) ∷ []

later-AllBeyond : AllBeyond 4 later_fields
later-AllBeyond = (
  (omega arith, (omega arith, omega arith, omega arith)),
  (
    (omega arith, (omega arith, omega arith)),
    ((omega arith, (omega arith, omega arith, omega arith)), tt),
  ),
)

later_short : length (encode_fields later_fields) + length some_bytes < int_limit
unfolding varint
later_short = omega arith

unmarshal_of-unknown_example :
    unmarshal_of coin_codec params
      (zero_of coin_codec params)
      (encode_fields later_fields ++ some_bytes)
    ≡ ok some_params
unmarshal_of-unknown_example =
    unmarshal_of-unknown coin_codec coin_laws params some_params later_fields some_bytes
      some_params-InRange later-AllBeyond marshalled later_short
