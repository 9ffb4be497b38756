-- ===== src/Wire/Account/NilKey.antt =====
-- x/abstractaccount/types/account.pb.go: the encoding of `NilPubKey`.
pub mod RoundTrip
use abstract_account.Prelude.{ℕ, Bytes, none, some, ◌==◌, if◌then◌else◌}
use abstract_account.Result.{Result, ok}
use abstract_account.Wire.Varint.{Buffer}
use abstract_account.Wire.Message.{Fields, want_type, read_slice, unmarshal_into}
use abstract_account.Wire.Fields.{put_slice, size_slice, marshal_sized}
use abstract_account.Types.Account.{NilPubKey, content}

-- The zero value.
abbrev pub zero : NilPubKey
zero = record { address_bytes = none }

unfoldable pub marshal_to_sized_buffer : NilPubKey → Buffer → Result Buffer
marshal_to_sized_buffer m b = put_slice 0xa (content m.address_bytes) b

unfoldable pub size : NilPubKey → ℕ
size m = size_slice (content m.address_bytes)

unfoldable pub marshal : NilPubKey → Result Bytes
unfolding marshal_to_sized_buffer size
marshal m = marshal_sized (size m) (marshal_to_sized_buffer m)

-- The switch of `Unmarshal`.
unfoldable pub fields : Fields NilPubKey
fields field_num wire_type m c =
    if field_num == 1
    then want_type 2 wire_type (read_slice (λ xs. record m { address_bytes = some xs }) c)
    else ok none

unfoldable pub unmarshal : NilPubKey → Bytes → Result NilPubKey
unfolding fields
unmarshal = unmarshal_into fields
