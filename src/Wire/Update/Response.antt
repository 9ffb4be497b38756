-- ===== src/Wire/Update/Response.antt =====
-- x/abstractaccount/types/tx.pb.go: the encoding of `MsgUpdateParamsResponse`.
use abstract_account.Prelude.{ℕ, Bytes, none}
use abstract_account.Result.{Result, ok}
use abstract_account.Wire.Varint.{Buffer}
use abstract_account.Wire.Message.{Fields, unmarshal_into}
use abstract_account.Wire.Fields.{marshal_sized}

-- It has no field.
abbrev pub MsgUpdateParamsResponse : Type 0
MsgUpdateParamsResponse = Unit {0}

-- The zero value.
abbrev pub zero : MsgUpdateParamsResponse
zero = tt

unfoldable pub marshal_to_sized_buffer : MsgUpdateParamsResponse → Buffer → Result Buffer
marshal_to_sized_buffer m b = ok b

unfoldable pub size : MsgUpdateParamsResponse → ℕ
size m = 0

unfoldable pub marshal : MsgUpdateParamsResponse → Result Bytes
unfolding marshal_to_sized_buffer size
marshal m = marshal_sized (size m) (marshal_to_sized_buffer m)

-- The switch of `Unmarshal`.
unfoldable pub fields : Fields MsgUpdateParamsResponse
fields field_num wire_type m c = ok none

unfoldable pub unmarshal : MsgUpdateParamsResponse → Bytes → Result MsgUpdateParamsResponse
unfolding fields
unmarshal = unmarshal_into fields
