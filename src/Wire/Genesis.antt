-- ===== src/Wire/Genesis.antt =====
-- x/abstractaccount/types/genesis.pb.go: the encoding of `GenesisState`.
pub mod RoundTrip
use abstract_account.Prelude.{ℕ, ◌+◌, Bytes, none, some, ◌==◌, if◌then◌else◌}
use abstract_account.Result.{Result, ok, ◌>>=◌}
use abstract_account.Wire.Varint.{Buffer}
use abstract_account.Wire.Message.{Fields, want_type, read_uint, read_message, unmarshal_into}
use abstract_account.Wire.Fields.{put_uint, size_uint, marshal_sized}
use abstract_account.Wire.Params.{put_pointer, size_pointer, unmarshal_pointer}
use abstract_account.Types.Genesis.{GenesisState}

-- The zero value.
abbrev pub zero : GenesisState
zero = record { params = none; next_account_id = 0 }

unfoldable pub marshal_to_sized_buffer : GenesisState → Buffer → Result Buffer
marshal_to_sized_buffer m b = do b1 ← put_uint 0x10 m.next_account_id b; put_pointer 0xa m.params b1

unfoldable pub size : GenesisState → ℕ
size m = size_pointer m.params + size_uint m.next_account_id

unfoldable pub marshal : GenesisState → Result Bytes
unfolding marshal_to_sized_buffer size
marshal m = marshal_sized (size m) (marshal_to_sized_buffer m)

-- The switch of `Unmarshal`.
unfoldable pub fields : Fields GenesisState
fields field_num wire_type m c =
    if field_num == 1
    then want_type 2 wire_type (
        read_message (λ xs. do p ← unmarshal_pointer m.params xs; ok (record m { params = some p }))
          c)
    else if field_num == 2
    then want_type 0 wire_type (read_uint (λ v. record m { next_account_id = v }) c)
    else ok none

unfoldable pub unmarshal : GenesisState → Bytes → Result GenesisState
unfolding fields
unmarshal = unmarshal_into fields
