-- ===== src/Wire/Update/RoundTrip.antt =====
-- What `Marshal` writes for `MsgUpdateParams`, and that `Unmarshal` reads it back.
use abstract_account.Prelude.{
  ℕ, ◌+◌, ◌<◌, ◌≡◌, refl, Bytes, none, some, ◌++◌, length, length-append, arith,
}
use abstract_account.Result.{ok, ◌>>=◌}
use abstract_account.Types.Msgs.{MsgUpdateParams}
use abstract_account.Wire.Varint.{Cursor}
use abstract_account.Wire.Varint.Write.{Writes, bind-Writes}
use abstract_account.Wire.Skip.{int_limit}
use abstract_account.Wire.Message.Coded.{Coded, unmarshal-Coded}
use abstract_account.Wire.Message.{read_slice, read_message}
use abstract_account.Wire.Message.Frame.{at_index, Parses}
use abstract_account.Wire.Fields.{put_slice}
use abstract_account.Wire.Fields.Laws.{
  slice_field, length-slice_field, put_slice-Writes, size_slice-eq, marshal_sized-lem, Parses-slice,
}
use abstract_account.Wire.Params.{put_pointer, unmarshal_pointer}
use abstract_account.Wire.Params.Pointer.{
  pointer_field, Valid, put_pointer-Writes, size_pointer-eq, Parses-pointer_last,
}
use abstract_account.Wire.Update.{zero, marshal_to_sized_buffer, size, marshal, fields, unmarshal}

-- The encoding in one expression.
unfoldable pub encoding : MsgUpdateParams → Bytes
encoding m = slice_field 0xa m.sender ++ pointer_field 0x12 m.params

-- What the Go types give.
pub record InRange (m : MsgUpdateParams) : Type 0 where
  pub params : Valid m.params
  pub short : length (encoding m) < int_limit

length-encoding :
    (m : MsgUpdateParams)
    → length (encoding m) ≡ length (slice_field 0xa m.sender) + length (pointer_field 0x12 m.params)
unfolding encoding
length-encoding m = length-append (slice_field 0xa m.sender) (pointer_field 0x12 m.params)

writes : (m : MsgUpdateParams) → InRange m → Writes (marshal_to_sized_buffer m) (encoding m)
unfolding marshal_to_sized_buffer encoding
writes m r =
    bind-Writes (put_pointer 0x12 m.params) (put_slice 0xa m.sender) _ _
      (put_pointer-Writes 0x12 m.params r.params)
      (put_slice-Writes 0xa m.sender
        (omega (arith, r.short, length-encoding m, length-slice_field 0xa m.sender)))

sized : (m : MsgUpdateParams) → InRange m → size m ≡ length (encoding m)
unfolding size
sized m r = omega (
  arith,
  length-encoding m,
  size_slice-eq 0xa m.sender
      (omega (arith, r.short, length-encoding m, length-slice_field 0xa m.sender)),
  size_pointer-eq 0x12 m.params r.params,
)

sender_case :
    (m : MsgUpdateParams) (c : Cursor)
    → fields 1 2 m c ≡ read_slice (λ xs. record m { sender = xs }) c
unfolding fields
sender_case m c = refl

params_case :
    (sender : Bytes) (c : Cursor)
    → fields 2 2 (record { sender = sender; params = none }) c
      ≡ read_message
          (λ xs.
            unmarshal_pointer none xs >>= λ p. ok (record { sender = sender; params = some p }))
          c
unfolding fields
params_case sender c = refl

pub parses :
    (m : MsgUpdateParams)
    → InRange m
    → (i : ℕ) → i + length (encoding m) < int_limit
    → Parses fields zero (at_index i (encoding m)) m
unfolding encoding
parses m r i h =
    Parses-slice fields 1 i m.sender zero m _ _ (omega arith) (omega arith)
      (omega (arith, h, length-encoding m)) (sender_case _) refl
      (Parses-pointer_last fields 2 _ m.params (record { sender = m.sender; params = none })
        (λ o. record { sender = m.sender; params = o }) (omega arith) (omega arith) r.params
        (omega (arith, h, length-encoding m)) (params_case m.sender) refl)

pub marshal-Coded : (m : MsgUpdateParams) → InRange m → Coded fields zero m (marshal m)
unfolding marshal
marshal-Coded m r = record {
  encoding = encoding m;
  written =
      marshal_sized-lem (size m) (marshal_to_sized_buffer m) (encoding m) (writes m r) (sized m r);
  short = r.short;
  parses = parses m r;
}

-- A `MsgUpdateParams` within the Go types is marshalled, and `Unmarshal` gives it back from the bytes,
-- with parameters or without.
pub unmarshal-marshal_update :
    (m : MsgUpdateParams)
    → InRange m
    → (bz : Bytes) × (marshal m ≡ ok bz) × (unmarshal zero bz ≡ ok m)
unfolding unmarshal
unmarshal-marshal_update m r = unmarshal-Coded fields zero m (marshal m) (marshal-Coded m r)
