-- ===== src/Wire/Events/RoundTrip.antt =====
-- What `Marshal` writes for `EventAccountRegistered`, and that `Unmarshal` reads it back.
use abstract_account.Prelude.{
  ℕ, ◌+◌, ◌<◌, ◌≡◌, refl, Bytes, IsU64, ◌++◌, length, length-append, arith,
}
use abstract_account.Result.{ok}
use abstract_account.Wire.Varint.{Cursor}
use abstract_account.Wire.Skip.{int_limit}
use abstract_account.Wire.Message.Coded.{Coded, unmarshal-Coded}
use abstract_account.Wire.Message.{read_uint, read_slice}
use abstract_account.Wire.Message.Frame.{at_index, Parses}
use abstract_account.Wire.Varint.Write.{Writes, bind-Writes, Writes-cast}
use abstract_account.Wire.Fields.{put_uint, put_slice}
use abstract_account.Wire.Fields.Laws.{
  uint_field, slice_field, length-slice_field, put_uint-Writes, put_slice-Writes, size_uint-eq,
  size_slice-eq, marshal_sized-lem, Parses-uint, Parses-slice, Parses-slice_last,
}
use mathlib.Core.List.{append_assoc}
use abstract_account.Types.Msgs.{EventAccountRegistered}
use abstract_account.Wire.Events.{zero, marshal_to_sized_buffer, size, marshal, fields, unmarshal}

-- The encoding in one expression.
unfoldable pub encoding : EventAccountRegistered → Bytes
encoding m =
    slice_field 0xa m.creator ++ (uint_field 0x10 m.code_id ++ (slice_field 0x1a m.contract_addr))

-- What the Go types give: the number is a `uint64`, and the encoding is no longer than an `int`.
pub record InRange (m : EventAccountRegistered) : Type 0 where
  pub code_id : IsU64 m.code_id
  pub short : length (encoding m) < int_limit

length-encoding :
    (m : EventAccountRegistered)
    → length (encoding m)
      ≡ length (slice_field 0xa m.creator)
        + length (uint_field 0x10 m.code_id)
        + length (slice_field 0x1a m.contract_addr)
unfolding encoding
length-encoding m = omega (
  arith,
  length-append (slice_field 0xa m.creator)
      (uint_field 0x10 m.code_id ++ slice_field 0x1a m.contract_addr),
  length-append (uint_field 0x10 m.code_id) (slice_field 0x1a m.contract_addr),
)

writes : (m : EventAccountRegistered) → InRange m → Writes (marshal_to_sized_buffer m) (encoding m)
unfolding marshal_to_sized_buffer encoding
writes m r =
    Writes-cast _ _ _
      (append_assoc (slice_field 0xa m.creator) (uint_field 0x10 m.code_id)
        (slice_field 0x1a m.contract_addr))
      (bind-Writes (put_slice 0x1a m.contract_addr) _ _ _
        (put_slice-Writes 0x1a m.contract_addr
          (omega (arith, r.short, length-encoding m, length-slice_field 0x1a m.contract_addr)))
        (bind-Writes (put_uint 0x10 m.code_id) (put_slice 0xa m.creator) _ _
          (put_uint-Writes 0x10 m.code_id r.code_id)
          (put_slice-Writes 0xa m.creator
            (omega (arith, r.short, length-encoding m, length-slice_field 0xa m.creator)))))

sized : (m : EventAccountRegistered) → InRange m → size m ≡ length (encoding m)
unfolding size
sized m r = omega (
  arith,
  length-encoding m,
  size_slice-eq 0xa m.creator
      (omega (arith, r.short, length-encoding m, length-slice_field 0xa m.creator)),
  size_uint-eq 0x10 m.code_id r.code_id,
  size_slice-eq 0x1a m.contract_addr
      (omega (arith, r.short, length-encoding m, length-slice_field 0x1a m.contract_addr)),
)

creator_case :
    (m : EventAccountRegistered) (c : Cursor)
    → fields 1 2 m c ≡ read_slice (λ xs. record m { creator = xs }) c
unfolding fields
creator_case m c = refl

code_id_case :
    (m : EventAccountRegistered) (c : Cursor)
    → fields 2 0 m c ≡ read_uint (λ v. record m { code_id = v }) c
unfolding fields
code_id_case m c = refl

contract_addr_case :
    (m : EventAccountRegistered) (c : Cursor)
    → fields 3 2 m c ≡ read_slice (λ xs. record m { contract_addr = xs }) c
unfolding fields
contract_addr_case m c = refl

pub parses :
    (m : EventAccountRegistered)
    → InRange m
    → (i : ℕ) → i + length (encoding m) < int_limit
    → Parses fields zero (at_index i (encoding m)) m
unfolding encoding
parses m r i h =
    Parses-slice fields 1 i m.creator zero m _ _ (omega arith) (omega arith)
      (omega (arith, h, length-encoding m)) (creator_case _) refl
      (Parses-uint fields 2 _ m.code_id _ m _ _ (omega arith) (omega arith) r.code_id
        (code_id_case _) refl
        (Parses-slice_last fields 3 _ m.contract_addr _ _ (omega arith) (omega arith)
          (omega (arith, h, length-encoding m)) (contract_addr_case _) refl))

pub marshal-Coded : (m : EventAccountRegistered) → InRange m → Coded fields zero m (marshal m)
unfolding marshal
marshal-Coded m r = record {
  encoding = encoding m;
  written =
      marshal_sized-lem (size m) (marshal_to_sized_buffer m) (encoding m) (writes m r) (sized m r);
  short = r.short;
  parses = parses m r;
}

-- A value of `EventAccountRegistered` within the Go types is marshalled, and `Unmarshal` gives it back from the bytes.
pub unmarshal-marshal_event :
    (m : EventAccountRegistered)
    → InRange m
    → (bz : Bytes) × (marshal m ≡ ok bz) × (unmarshal zero bz ≡ ok m)
unfolding unmarshal
unmarshal-marshal_event m r = unmarshal-Coded fields zero m (marshal m) (marshal-Coded m r)
