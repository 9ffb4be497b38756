-- ===== src/Wire/Query/Request.antt =====
-- x/abstractaccount/types/query.pb.go: the encoding of `QueryParamsRequest`.
use abstract_account.Prelude.{ℕ, Bytes, none}
use abstract_account.Result.{Result, ok}
use abstract_account.Wire.Varint.{Buffer}
use abstract_account.Wire.Message.{Fields, unmarshal_into}
use abstract_account.Wire.Fields.{marshal_sized}

-- It has no field.
abbrev pub QueryParamsRequest : Type 0
QueryParamsRequest = Unit {0}

-- The zero value.
abbrev pub zero : QueryParamsRequest
zero = tt

unfoldable pub marshal_to_sized_buffer : QueryParamsRequest → Buffer → Result Buffer
marshal_to_sized_buffer m b = ok b

unfoldable pub size : QueryParamsRequest → ℕ
size m = 0

unfoldable pub marshal : QueryParamsRequest → Result Bytes
unfolding marshal_to_sized_buffer size
marshal m = marshal_sized (size m) (marshal_to_sized_buffer m)

-- The switch of `Unmarshal`.
unfoldable pub fields : Fields QueryParamsRequest
fields field_num wire_type m c = ok none

unfoldable pub unmarshal : QueryParamsRequest → Bytes → Result QueryParamsRequest
unfolding fields
unmarshal = unmarshal_into fields
