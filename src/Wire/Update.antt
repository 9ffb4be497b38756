-- ===== src/Wire/Update.antt =====
-- x/abstractaccount/types/tx.pb.go: the encoding of `MsgUpdateParams`.
pub mod Response
pub mod RoundTrip
use abstract_account.Prelude.{
  ℕ, ◌+◌, Bytes, Bool, Option, none, some, List, [], ◌∷◌, ◌++◌, ◌==◌, is_empty, if◌then◌else◌,
}
use abstract_account.Result.{Result, ok, err, ◌>>=◌}
use abstract_account.Wire.Varint.{Buffer, Cursor}
use abstract_account.Wire.Message.{
  Fields, want_type, read_uint, read_slice, read_message, unmarshal_into,
}
use abstract_account.Wire.Fields.{
  put_uint, put_slice, put_message, size_uint, size_slice, size_delimited, marshal_sized,
}
use abstract_account.Wire.Params.{put_pointer, size_pointer, unmarshal_pointer}
use abstract_account.Types.Msgs.{MsgUpdateParams}

-- The zero value.
abbrev pub zero : MsgUpdateParams
zero = record { sender = []; params = none }

unfoldable pub marshal_to_sized_buffer : MsgUpdateParams → Buffer → Result Buffer
marshal_to_sized_buffer m b = do b1 ← put_pointer 0x12 m.params b; put_slice 0xa m.sender b1

unfoldable pub size : MsgUpdateParams → ℕ
size m = size_slice m.sender + size_pointer m.params

unfoldable pub marshal : MsgUpdateParams → Result Bytes
unfolding marshal_to_sized_buffer size
marshal m = marshal_sized (size m) (marshal_to_sized_buffer m)

-- The switch of `Unmarshal`.
unfoldable pub fields : Fields MsgUpdateParams
fields field_num wire_type m c =
    if field_num == 1
    then want_type 2 wire_type (read_slice (λ xs. record m { sender = xs }) c)
    else if field_num == 2
    then want_type 2 wire_type (
        read_message (λ xs. do p ← unmarshal_pointer m.params xs; ok (record m { params = some p }))
          c)
    else ok none

unfoldable pub unmarshal : MsgUpdateParams → Bytes → Result MsgUpdateParams
unfolding fields
unmarshal = unmarshal_into fields
