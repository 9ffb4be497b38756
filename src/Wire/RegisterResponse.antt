-- ===== src/Wire/RegisterResponse.antt =====
-- x/abstractaccount/types/tx.pb.go: the encoding of `MsgRegisterAccountResponse`.
pub mod RoundTrip
use abstract_account.Prelude.{
  ℕ, ◌+◌, Bytes, Bool, Option, none, some, List, [], ◌∷◌, ◌++◌, ◌==◌, is_empty, if◌then◌else◌,
}
use abstract_account.Result.{Result, ok, err, ◌>>=◌}
use abstract_account.Wire.Varint.{Buffer, Cursor}
use abstract_account.Wire.Message.{
  Fields, want_type, read_uint, read_slice, read_message, unmarshal_into,
}
use abstract_account.Wire.Fields.{
  put_uint, put_slice, put_message, size_uint, size_slice, size_delimited, marshal_sized,
}
use abstract_account.Wire.Params.{put_pointer, size_pointer, unmarshal_pointer}
use abstract_account.Types.Msgs.{MsgRegisterAccountResponse}

-- The zero value.
abbrev pub zero : MsgRegisterAccountResponse
zero = record { address = []; bytes = [] }

unfoldable pub marshal_to_sized_buffer : MsgRegisterAccountResponse → Buffer → Result Buffer
marshal_to_sized_buffer m b = do b1 ← put_slice 0x12 m.bytes b; put_slice 0xa m.address b1

unfoldable pub size : MsgRegisterAccountResponse → ℕ
size m = size_slice m.address + size_slice m.bytes

unfoldable pub marshal : MsgRegisterAccountResponse → Result Bytes
unfolding marshal_to_sized_buffer size
marshal m = marshal_sized (size m) (marshal_to_sized_buffer m)

-- The switch of `Unmarshal`.
unfoldable pub fields : Fields MsgRegisterAccountResponse
fields field_num wire_type m c =
    if field_num == 1
    then want_type 2 wire_type (read_slice (λ xs. record m { address = xs }) c)
    else if field_num == 2
    then want_type 2 wire_type (read_slice (λ xs. record m { bytes = xs }) c)
    else ok none

unfoldable pub unmarshal : MsgRegisterAccountResponse → Bytes → Result MsgRegisterAccountResponse
unfolding fields
unmarshal = unmarshal_into fields
