-- ===== src/Wire/Query.antt =====
-- x/abstractaccount/types/query.pb.go: the encoding of `QueryParamsResponse`.
pub mod Request
pub mod RoundTrip
use abstract_account.Types.Params.{Params}
use abstract_account.Prelude.{
  ℕ, ◌+◌, Bytes, Bool, Option, none, some, List, [], ◌∷◌, ◌++◌, ◌==◌, is_empty, if◌then◌else◌,
}
use abstract_account.Result.{Result, ok, err, ◌>>=◌}
use abstract_account.Wire.Varint.{Buffer, Cursor}
use abstract_account.Wire.Message.{
  Fields, want_type, read_uint, read_slice, read_message, unmarshal_into,
}
use abstract_account.Wire.Fields.{
  put_uint, put_slice, put_message, size_uint, size_slice, size_delimited, marshal_sized,
}
use abstract_account.Wire.Params.{put_pointer, size_pointer, unmarshal_pointer}

pub record QueryParamsResponse : Type 0 where
  pub params : Option Params

-- The zero value.
abbrev pub zero : QueryParamsResponse
zero = record { params = none }

unfoldable pub marshal_to_sized_buffer : QueryParamsResponse → Buffer → Result Buffer
marshal_to_sized_buffer m b = put_pointer 0xa m.params b

unfoldable pub size : QueryParamsResponse → ℕ
size m = size_pointer m.params

unfoldable pub marshal : QueryParamsResponse → Result Bytes
unfolding marshal_to_sized_buffer size
marshal m = marshal_sized (size m) (marshal_to_sized_buffer m)

-- The switch of `Unmarshal`.
unfoldable pub fields : Fields QueryParamsResponse
fields field_num wire_type m c =
    if field_num == 1
    then want_type 2 wire_type (
        read_message (λ xs. do p ← unmarshal_pointer m.params xs; ok (record m { params = some p }))
          c)
    else ok none

unfoldable pub unmarshal : QueryParamsResponse → Bytes → Result QueryParamsResponse
unfolding fields
unmarshal = unmarshal_into fields
