-- ===== src/Wire/Account/RoundTrip.antt =====
-- What `Marshal` writes for `AbstractAccount`, and that `Unmarshal` reads it back.
use abstract_account.Prelude.{
  ℕ, ◌+◌, ◌<◌, ◌≡◌, refl, Bytes, IsU64, ◌++◌, length, length-append, arith,
}
use abstract_account.Result.{ok}
use abstract_account.Wire.Varint.{Cursor}
use abstract_account.Wire.Skip.{int_limit}
use abstract_account.Wire.Message.Coded.{Coded, unmarshal-Coded}
use abstract_account.Wire.Message.{read_uint, read_slice}
use abstract_account.Wire.Message.Frame.{at_index, Parses}
use abstract_account.Wire.Varint.Write.{Writes, bind-Writes, Writes-cast}
use abstract_account.Wire.Fields.{put_uint, put_slice}
use abstract_account.Wire.Fields.Laws.{
  uint_field, slice_field, length-slice_field, put_uint-Writes, put_slice-Writes, size_uint-eq,
  size_slice-eq, marshal_sized-lem, Parses-uint, Parses-slice, Parses-uint_last,
}
use mathlib.Core.List.{append_assoc}
use abstract_account.Types.Account.{AbstractAccount}
use abstract_account.Wire.Account.{zero, marshal_to_sized_buffer, size, marshal, fields, unmarshal}

-- The encoding in one expression.
unfoldable pub encoding : AbstractAccount → Bytes
encoding m =
    slice_field 0xa m.address ++ (uint_field 0x10 m.account_number ++ (uint_field 0x18 m.sequence))

-- What the Go types give: the numbers are `uint64`, and the encoding is no longer than an `int`.
pub record InRange (m : AbstractAccount) : Type 0 where
  pub number : IsU64 m.account_number
  pub sequence : IsU64 m.sequence
  pub short : length (encoding m) < int_limit

length-encoding :
    (m : AbstractAccount)
    → length (encoding m)
      ≡ length (slice_field 0xa m.address)
        + length (uint_field 0x10 m.account_number)
        + length (uint_field 0x18 m.sequence)
unfolding encoding
length-encoding m = omega (
  arith,
  length-append (slice_field 0xa m.address)
      (uint_field 0x10 m.account_number ++ uint_field 0x18 m.sequence),
  length-append (uint_field 0x10 m.account_number) (uint_field 0x18 m.sequence),
)

writes : (m : AbstractAccount) → InRange m → Writes (marshal_to_sized_buffer m) (encoding m)
unfolding marshal_to_sized_buffer encoding
writes m r =
    Writes-cast _ _ _
      (append_assoc (slice_field 0xa m.address) (uint_field 0x10 m.account_number)
        (uint_field 0x18 m.sequence))
      (bind-Writes (put_uint 0x18 m.sequence) _ _ _ (put_uint-Writes 0x18 m.sequence r.sequence) (
        bind-Writes (put_uint 0x10 m.account_number) (put_slice 0xa m.address) _ _
          (put_uint-Writes 0x10 m.account_number r.number)
          (put_slice-Writes 0xa m.address
            (omega (arith, r.short, length-encoding m, length-slice_field 0xa m.address)))))

sized : (m : AbstractAccount) → InRange m → size m ≡ length (encoding m)
unfolding size
sized m r = omega (
  arith,
  length-encoding m,
  size_slice-eq 0xa m.address
      (omega (arith, r.short, length-encoding m, length-slice_field 0xa m.address)),
  size_uint-eq 0x10 m.account_number r.number,
  size_uint-eq 0x18 m.sequence r.sequence,
)

address_case :
    (m : AbstractAccount) (c : Cursor)
    → fields 1 2 m c ≡ read_slice (λ xs. record m { address = xs }) c
unfolding fields
address_case m c = refl

account_number_case :
    (m : AbstractAccount) (c : Cursor)
    → fields 2 0 m c ≡ read_uint (λ v. record m { account_number = v }) c
unfolding fields
account_number_case m c = refl

sequence_case :
    (m : AbstractAccount) (c : Cursor)
    → fields 3 0 m c ≡ read_uint (λ v. record m { sequence = v }) c
unfolding fields
sequence_case m c = refl

pub parses :
    (m : AbstractAccount)
    → InRange m
    → (i : ℕ) → i + length (encoding m) < int_limit
    → Parses fields zero (at_index i (encoding m)) m
unfolding encoding
parses m r i h =
    Parses-slice fields 1 i m.address zero m _ _ (omega arith) (omega arith)
      (omega (arith, h, length-encoding m)) (address_case _) refl
      (Parses-uint fields 2 _ m.account_number _ m _ _ (omega arith) (omega arith) r.number
        (account_number_case _) refl
        (Parses-uint_last fields 3 _ m.sequence _ _ (omega arith) (omega arith) r.sequence
          (sequence_case _) refl))

pub marshal-Coded : (m : AbstractAccount) → InRange m → Coded fields zero m (marshal m)
unfolding marshal
marshal-Coded m r = record {
  encoding = encoding m;
  written =
      marshal_sized-lem (size m) (marshal_to_sized_buffer m) (encoding m) (writes m r) (sized m r);
  short = r.short;
  parses = parses m r;
}

-- A value of `AbstractAccount` within the Go types is marshalled, and `Unmarshal` gives it back from the bytes.
pub unmarshal-marshal_account :
    (m : AbstractAccount)
    → InRange m
    → (bz : Bytes) × (marshal m ≡ ok bz) × (unmarshal zero bz ≡ ok m)
unfolding unmarshal
unmarshal-marshal_account m r = unmarshal-Coded fields zero m (marshal m) (marshal-Coded m r)
