-- ===== src/Wire/Events.antt =====
-- x/abstractaccount/types/events.pb.go: the encoding of `EventAccountRegistered`.
pub mod RoundTrip
use abstract_account.Prelude.{
  ℕ, ◌+◌, Bytes, Bool, Option, none, some, List, [], ◌∷◌, ◌++◌, ◌==◌, is_empty, if◌then◌else◌,
}
use abstract_account.Result.{Result, ok, err, ◌>>=◌}
use abstract_account.Wire.Varint.{Buffer, Cursor}
use abstract_account.Wire.Message.{
  Fields, want_type, read_uint, read_slice, read_message, unmarshal_into,
}
use abstract_account.Wire.Fields.{
  put_uint, put_slice, put_message, size_uint, size_slice, size_delimited, marshal_sized,
}
use abstract_account.Wire.Params.{put_pointer, size_pointer, unmarshal_pointer}
use abstract_account.Types.Msgs.{EventAccountRegistered}

-- The zero value.
abbrev pub zero : EventAccountRegistered
zero = record { creator = []; code_id = 0; contract_addr = [] }

unfoldable pub marshal_to_sized_buffer : EventAccountRegistered → Buffer → Result Buffer
marshal_to_sized_buffer m b = do
  b1 ← put_slice 0x1a m.contract_addr b
  b2 ← put_uint 0x10 m.code_id b1
  put_slice 0xa m.creator b2

unfoldable pub size : EventAccountRegistered → ℕ
size m = size_slice m.creator + size_uint m.code_id + size_slice m.contract_addr

unfoldable pub marshal : EventAccountRegistered → Result Bytes
unfolding marshal_to_sized_buffer size
marshal m = marshal_sized (size m) (marshal_to_sized_buffer m)

-- The switch of `Unmarshal`.
unfoldable pub fields : Fields EventAccountRegistered
fields field_num wire_type m c =
    if field_num == 1
    then want_type 2 wire_type (read_slice (λ xs. record m { creator = xs }) c)
    else if field_num == 2
    then want_type 0 wire_type (read_uint (λ v. record m { code_id = v }) c)
    else if field_num == 3
    then want_type 2 wire_type (read_slice (λ xs. record m { contract_addr = xs }) c)
    else ok none

unfoldable pub unmarshal : EventAccountRegistered → Bytes → Result EventAccountRegistered
unfolding fields
unmarshal = unmarshal_into fields
