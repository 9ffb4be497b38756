-- ===== src/Wire/Params/Codec.antt =====
-- The generated encoding as the codec that the keeper uses.
use abstract_account.Prelude.{Bytes, Option, none, some, []}
use abstract_account.Result.{Result, ok}
use abstract_account.Sdk.{ParamsCodec}
use abstract_account.Types.Params.{Params}
use abstract_account.Wire.Params.{zero_params, marshal, unmarshal}
use abstract_account.Wire.Params.Laws.{InRange}
use abstract_account.Wire.Params.RoundTrip.{unmarshal-marshal}

-- A nil pointer is encoded as no bytes.
abbrev pub marshal_ptr : Option Params → Result Bytes
marshal_ptr none = ok []
marshal_ptr (some p) = marshal p

abbrev pub params_codec : ParamsCodec
params_codec = record {
  marshal = marshal_ptr;
  unmarshal = unmarshal zero_params;
  Fits = InRange;
  round_trip = unmarshal-marshal;
}
