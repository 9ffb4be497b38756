-- ===== src/Wire/Genesis/RoundTrip.antt =====
-- What `Marshal` writes for `GenesisState`, and that `Unmarshal` reads it back.
use abstract_account.Prelude.{
  ℕ, ◌+◌, ◌<◌, ◌≡◌, refl, Bytes, IsU64, none, some, ◌++◌, length, length-append, arith,
}
use abstract_account.Result.{ok, ◌>>=◌}
use abstract_account.Types.Genesis.{GenesisState}
use abstract_account.Wire.Varint.{Cursor}
use abstract_account.Wire.Varint.Write.{Writes, bind-Writes}
use abstract_account.Wire.Skip.{int_limit}
use abstract_account.Wire.Message.Coded.{Coded, unmarshal-Coded}
use abstract_account.Wire.Message.{read_uint, read_message}
use abstract_account.Wire.Message.Frame.{at_index, Parses}
use abstract_account.Wire.Fields.{put_uint}
use abstract_account.Wire.Fields.Laws.{
  uint_field, put_uint-Writes, size_uint-eq, marshal_sized-lem, Parses-uint_last,
}
use abstract_account.Wire.Params.{put_pointer, unmarshal_pointer}
use abstract_account.Wire.Params.Pointer.{
  pointer_field, Valid, put_pointer-Writes, size_pointer-eq, Parses-pointer,
}
use abstract_account.Wire.Genesis.{zero, marshal_to_sized_buffer, size, marshal, fields, unmarshal}

-- The encoding in one expression.
unfoldable pub encoding : GenesisState → Bytes
encoding m = pointer_field 0xa m.params ++ uint_field 0x10 m.next_account_id

-- What the Go types give.
pub record InRange (m : GenesisState) : Type 0 where
  pub params : Valid m.params
  pub next_account_id : IsU64 m.next_account_id
  pub short : length (encoding m) < int_limit

length-encoding :
    (m : GenesisState)
    → length (encoding m)
      ≡ length (pointer_field 0xa m.params) + length (uint_field 0x10 m.next_account_id)
unfolding encoding
length-encoding m = length-append (pointer_field 0xa m.params) (uint_field 0x10 m.next_account_id)

writes : (m : GenesisState) → InRange m → Writes (marshal_to_sized_buffer m) (encoding m)
unfolding marshal_to_sized_buffer encoding
writes m r =
    bind-Writes (put_uint 0x10 m.next_account_id) (put_pointer 0xa m.params) _ _
      (put_uint-Writes 0x10 m.next_account_id r.next_account_id)
      (put_pointer-Writes 0xa m.params r.params)

sized : (m : GenesisState) → InRange m → size m ≡ length (encoding m)
unfolding size
sized m r = omega (
  arith,
  length-encoding m,
  size_pointer-eq 0xa m.params r.params,
  size_uint-eq 0x10 m.next_account_id r.next_account_id,
)

params_case :
    (c : Cursor)
    → fields 1 2 zero c
      ≡ read_message
          (λ xs.
            unmarshal_pointer none xs >>= λ p. ok (record { params = some p; next_account_id = 0 }))
          c
unfolding fields
params_case c = refl

next_account_id_case :
    (m : GenesisState) (c : Cursor)
    → fields 2 0 m c ≡ read_uint (λ v. record m { next_account_id = v }) c
unfolding fields
next_account_id_case m c = refl

pub parses :
    (m : GenesisState)
    → InRange m
    → (i : ℕ) → i + length (encoding m) < int_limit
    → Parses fields zero (at_index i (encoding m)) m
unfolding encoding
parses m r i h =
    Parses-pointer fields 1 i m.params zero m (λ o. record { params = o; next_account_id = 0 }) _
      (omega arith) (omega arith) r.params (omega (arith, h, length-encoding m)) params_case refl
      (Parses-uint_last fields 2 _ m.next_account_id _ _ (omega arith) (omega arith)
        r.next_account_id (next_account_id_case _) refl)

pub marshal-Coded : (m : GenesisState) → InRange m → Coded fields zero m (marshal m)
unfolding marshal
marshal-Coded m r = record {
  encoding = encoding m;
  written =
      marshal_sized-lem (size m) (marshal_to_sized_buffer m) (encoding m) (writes m r) (sized m r);
  short = r.short;
  parses = parses m r;
}

-- A `GenesisState` within the Go types is marshalled, and `Unmarshal` gives it back from the bytes, with
-- parameters or without.
pub unmarshal-marshal_genesis :
    (m : GenesisState) → InRange m → (bz : Bytes) × (marshal m ≡ ok bz) × (unmarshal zero bz ≡ ok m)
unfolding unmarshal
unmarshal-marshal_genesis m r = unmarshal-Coded fields zero m (marshal m) (marshal-Coded m r)
