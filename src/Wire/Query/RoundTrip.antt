-- ===== src/Wire/Query/RoundTrip.antt =====
-- What `Marshal` writes for `QueryParamsResponse`, and that `Unmarshal` reads it back.
use abstract_account.Prelude.{◌+◌, ℕ, ◌<◌, ◌≡◌, refl, Bytes, none, some, length, arith}
use abstract_account.Result.{ok, ◌>>=◌}
use abstract_account.Wire.Varint.{Cursor}
use abstract_account.Wire.Varint.Write.{Writes}
use abstract_account.Wire.Skip.{int_limit}
use abstract_account.Wire.Message.Coded.{Coded, unmarshal-Coded}
use abstract_account.Wire.Message.{read_message}
use abstract_account.Wire.Message.Frame.{at_index, Parses}
use abstract_account.Wire.Fields.Laws.{marshal_sized-lem}
use abstract_account.Wire.Params.{unmarshal_pointer}
use abstract_account.Wire.Params.Pointer.{
  pointer_field, Valid, put_pointer-Writes, size_pointer-eq, Parses-pointer_last,
}
use abstract_account.Wire.Query.{
  QueryParamsResponse, zero, marshal_to_sized_buffer, size, marshal, fields, unmarshal,
}

-- The encoding in one expression.
abbrev pub encoding : QueryParamsResponse → Bytes
encoding m = pointer_field 0xa m.params

-- What the Go types give.
pub record InRange (m : QueryParamsResponse) : Type 0 where
  pub params : Valid m.params
  pub short : length (encoding m) < int_limit

writes : (m : QueryParamsResponse) → InRange m → Writes (marshal_to_sized_buffer m) (encoding m)
unfolding marshal_to_sized_buffer
writes m r = put_pointer-Writes 0xa m.params r.params

sized : (m : QueryParamsResponse) → InRange m → size m ≡ length (encoding m)
unfolding size
sized m r = size_pointer-eq 0xa m.params r.params

params_case :
    (c : Cursor)
    → fields 1 2 zero c
      ≡ read_message (λ xs. unmarshal_pointer none xs >>= λ p. ok (record { params = some p })) c
unfolding fields
params_case c = refl

pub parses :
    (m : QueryParamsResponse)
    → InRange m
    → (i : ℕ) → i + length (encoding m) < int_limit
    → Parses fields zero (at_index i (encoding m)) m
parses m r i h =
    Parses-pointer_last fields 1 i m.params zero (λ o. record { params = o }) (omega arith)
      (omega arith) r.params (omega (arith, h)) params_case refl

pub marshal-Coded : (m : QueryParamsResponse) → InRange m → Coded fields zero m (marshal m)
unfolding marshal
marshal-Coded m r = record {
  encoding = encoding m;
  written =
      marshal_sized-lem (size m) (marshal_to_sized_buffer m) (encoding m) (writes m r) (sized m r);
  short = r.short;
  parses = parses m r;
}

-- A `QueryParamsResponse` within the Go types is marshalled, and `Unmarshal` gives it back.
pub unmarshal-marshal_query :
    (m : QueryParamsResponse)
    → InRange m
    → (bz : Bytes) × (marshal m ≡ ok bz) × (unmarshal zero bz ≡ ok m)
unfolding unmarshal
unmarshal-marshal_query m r = unmarshal-Coded fields zero m (marshal m) (marshal-Coded m r)
