-- ===== src/Wire/RegisterResponse/RoundTrip.antt =====
-- What `Marshal` writes for `MsgRegisterAccountResponse`, and that `Unmarshal` reads it back.
use abstract_account.Prelude.{ℕ, ◌+◌, ◌<◌, ◌≡◌, refl, Bytes, ◌++◌, length, length-append, arith}
use abstract_account.Result.{ok}
use abstract_account.Wire.Varint.{Cursor}
use abstract_account.Wire.Skip.{int_limit}
use abstract_account.Wire.Message.Coded.{Coded, unmarshal-Coded}
use abstract_account.Wire.Message.{read_slice}
use abstract_account.Wire.Message.Frame.{at_index, Parses}
use abstract_account.Wire.Varint.Write.{Writes, bind-Writes}
use abstract_account.Wire.Fields.{put_slice}
use abstract_account.Wire.Fields.Laws.{
  slice_field, length-slice_field, put_slice-Writes, size_slice-eq, marshal_sized-lem, Parses-slice,
  Parses-slice_last,
}
use abstract_account.Types.Msgs.{MsgRegisterAccountResponse}
use abstract_account.Wire.RegisterResponse.{
  zero, marshal_to_sized_buffer, size, marshal, fields, unmarshal,
}

-- The encoding in one expression.
unfoldable pub encoding : MsgRegisterAccountResponse → Bytes
encoding m = slice_field 0xa m.address ++ (slice_field 0x12 m.bytes)

-- What the Go types give: the encoding is no longer than an `int`.
pub record InRange (m : MsgRegisterAccountResponse) : Type 0 where
  pub short : length (encoding m) < int_limit

length-encoding :
    (m : MsgRegisterAccountResponse)
    → length (encoding m) ≡ length (slice_field 0xa m.address) + length (slice_field 0x12 m.bytes)
unfolding encoding
length-encoding m = length-append (slice_field 0xa m.address) (slice_field 0x12 m.bytes)

writes :
    (m : MsgRegisterAccountResponse) → InRange m → Writes (marshal_to_sized_buffer m) (encoding m)
unfolding marshal_to_sized_buffer encoding
writes m r =
    bind-Writes (put_slice 0x12 m.bytes) (put_slice 0xa m.address) _ _
      (put_slice-Writes 0x12 m.bytes
        (omega (arith, r.short, length-encoding m, length-slice_field 0x12 m.bytes)))
      (put_slice-Writes 0xa m.address
        (omega (arith, r.short, length-encoding m, length-slice_field 0xa m.address)))

sized : (m : MsgRegisterAccountResponse) → InRange m → size m ≡ length (encoding m)
unfolding size
sized m r = omega (
  arith,
  length-encoding m,
  size_slice-eq 0xa m.address
      (omega (arith, r.short, length-encoding m, length-slice_field 0xa m.address)),
  size_slice-eq 0x12 m.bytes
      (omega (arith, r.short, length-encoding m, length-slice_field 0x12 m.bytes)),
)

address_case :
    (m : MsgRegisterAccountResponse) (c : Cursor)
    → fields 1 2 m c ≡ read_slice (λ xs. record m { address = xs }) c
unfolding fields
address_case m c = refl

bytes_case :
    (m : MsgRegisterAccountResponse) (c : Cursor)
    → fields 2 2 m c ≡ read_slice (λ xs. record m { bytes = xs }) c
unfolding fields
bytes_case m c = refl

pub parses :
    (m : MsgRegisterAccountResponse)
    → InRange m
    → (i : ℕ) → i + length (encoding m) < int_limit
    → Parses fields zero (at_index i (encoding m)) m
unfolding encoding
parses m r i h =
    Parses-slice fields 1 i m.address zero m _ _ (omega arith) (omega arith)
      (omega (arith, h, length-encoding m)) (address_case _) refl
      (Parses-slice_last fields 2 _ m.bytes _ _ (omega arith) (omega arith)
        (omega (arith, h, length-encoding m)) (bytes_case _) refl)

pub marshal-Coded : (m : MsgRegisterAccountResponse) → InRange m → Coded fields zero m (marshal m)
unfolding marshal
marshal-Coded m r = record {
  encoding = encoding m;
  written =
      marshal_sized-lem (size m) (marshal_to_sized_buffer m) (encoding m) (writes m r) (sized m r);
  short = r.short;
  parses = parses m r;
}

-- A value of `MsgRegisterAccountResponse` within the Go types is marshalled, and `Unmarshal` gives it back from the bytes.
pub unmarshal-marshal_response :
    (m : MsgRegisterAccountResponse)
    → InRange m
    → (bz : Bytes) × (marshal m ≡ ok bz) × (unmarshal zero bz ≡ ok m)
unfolding unmarshal
unmarshal-marshal_response m r = unmarshal-Coded fields zero m (marshal m) (marshal-Coded m r)
