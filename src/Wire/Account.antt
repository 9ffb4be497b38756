-- ===== src/Wire/Account.antt =====
-- x/abstractaccount/types/account.pb.go: the encoding of `AbstractAccount`.
pub mod RoundTrip
pub mod NilKey
use abstract_account.Prelude.{
  ℕ, ◌+◌, Bytes, Bool, Option, none, some, List, [], ◌∷◌, ◌++◌, ◌==◌, is_empty, if◌then◌else◌,
}
use abstract_account.Result.{Result, ok, err, ◌>>=◌}
use abstract_account.Wire.Varint.{Buffer, Cursor}
use abstract_account.Wire.Message.{
  Fields, want_type, read_uint, read_slice, read_message, unmarshal_into,
}
use abstract_account.Wire.Fields.{
  put_uint, put_slice, put_message, size_uint, size_slice, size_delimited, marshal_sized,
}
use abstract_account.Wire.Params.{put_pointer, size_pointer, unmarshal_pointer}
use abstract_account.Types.Account.{AbstractAccount}

-- The zero value.
abbrev pub zero : AbstractAccount
zero = record { address = []; account_number = 0; sequence = 0 }

unfoldable pub marshal_to_sized_buffer : AbstractAccount → Buffer → Result Buffer
marshal_to_sized_buffer m b = do
  b1 ← put_uint 0x18 m.sequence b
  b2 ← put_uint 0x10 m.account_number b1
  put_slice 0xa m.address b2

unfoldable pub size : AbstractAccount → ℕ
size m = size_slice m.address + size_uint m.account_number + size_uint m.sequence

unfoldable pub marshal : AbstractAccount → Result Bytes
unfolding marshal_to_sized_buffer size
marshal m = marshal_sized (size m) (marshal_to_sized_buffer m)

-- The switch of `Unmarshal`.
unfoldable pub fields : Fields AbstractAccount
fields field_num wire_type m c =
    if field_num == 1
    then want_type 2 wire_type (read_slice (λ xs. record m { address = xs }) c)
    else if field_num == 2
    then want_type 0 wire_type (read_uint (λ v. record m { account_number = v }) c)
    else if field_num == 3
    then want_type 0 wire_type (read_uint (λ v. record m { sequence = v }) c)
    else ok none

unfoldable pub unmarshal : AbstractAccount → Bytes → Result AbstractAccount
unfolding fields
unmarshal = unmarshal_into fields
