-- ===== src/Wire/Account/NilKey/RoundTrip.antt =====
-- What `Marshal` writes for `NilPubKey`, and that `Unmarshal` reads it back.
use abstract_account.Prelude.{
  ◌+◌, ℕ, ◌<◌, ◌≡◌, ◌≢◌, refl, ◌∙◌, Bytes, none, some, [], ◌∷◌, length, arith,
}
use abstract_account.Result.{ok}
use abstract_account.Sdk.{AccAddress}
use abstract_account.Types.Account.{NilPubKey, content}
use abstract_account.Wire.Varint.{Cursor}
use abstract_account.Wire.Skip.{int_limit}
use abstract_account.Wire.Message.Coded.{Coded, unmarshal-Coded}
use abstract_account.Wire.Message.{read_slice}
use abstract_account.Wire.Message.Frame.{at_index, Parses, Parses-end}
use abstract_account.Wire.Varint.Write.{Writes}
use abstract_account.Wire.Fields.Laws.{
  slice_field, length-slice_field, put_slice-Writes, size_slice-eq, marshal_sized-lem,
  Parses-delimited, delimited,
}
use abstract_account.Wire.Account.NilKey.{
  zero, marshal_to_sized_buffer, size, marshal, fields, unmarshal,
}
use mathlib.Core.List.{append-nil}

-- The encoding in one expression.
abbrev pub encoding : NilPubKey → Bytes
encoding m = slice_field 0xa (content m.address_bytes)

-- What the Go types give; an empty slice comes back as nil.
pub record InRange (m : NilPubKey) : Type 0 where
  pub nonempty : m.address_bytes ≢ some []
  pub short : length (encoding m) < int_limit

writes : (m : NilPubKey) → InRange m → Writes (marshal_to_sized_buffer m) (encoding m)
unfolding marshal_to_sized_buffer
writes m r =
    put_slice-Writes 0xa (content m.address_bytes)
      (omega (arith, r.short, length-slice_field 0xa (content m.address_bytes)))

sized : (m : NilPubKey) → InRange m → size m ≡ length (encoding m)
unfolding size
sized m r =
    size_slice-eq 0xa (content m.address_bytes)
      (omega (arith, r.short, length-slice_field 0xa (content m.address_bytes)))

address_case :
    (c : Cursor) → fields 1 2 zero c ≡ read_slice (λ xs. record { address_bytes = some xs }) c
unfolding fields
address_case c = refl

Parses-bytes :
    (a : AccAddress) (i : ℕ)
    → a ≢ some []
    → i + length (slice_field 0xa (content a)) < int_limit
    → Parses fields zero (at_index i (slice_field 0xa (content a))) (record { address_bytes = a })
unfolding slice_field
Parses-bytes none i n h = Parses-end fields zero i
Parses-bytes (some []) i n h = absurd (n refl)
Parses-bytes (some (x ∷ xs)) i n h =
    let m : NilPubKey = record { address_bytes = some (x ∷ xs) } in
    rw (append-nil (delimited 0xa (x ∷ xs))) at (
      Parses-delimited fields 1 i (x ∷ xs) zero m m [] (omega arith) (omega arith)
        (omega (arith, h)) (λ c d e. address_case c ∙ rw e refl) (Parses-end fields m _))

pub parses :
    (m : NilPubKey)
    → InRange m
    → (i : ℕ) → i + length (encoding m) < int_limit
    → Parses fields zero (at_index i (encoding m)) m
parses m r i h = Parses-bytes m.address_bytes i r.nonempty h

pub marshal-Coded : (m : NilPubKey) → InRange m → Coded fields zero m (marshal m)
unfolding marshal
marshal-Coded m r = record {
  encoding = encoding m;
  written =
      marshal_sized-lem (size m) (marshal_to_sized_buffer m) (encoding m) (writes m r) (sized m r);
  short = r.short;
  parses = parses m r;
}

-- A `NilPubKey` whose bytes are nil or not empty is marshalled, and `Unmarshal` gives it back.
pub unmarshal-marshal_key :
    (m : NilPubKey) → InRange m → (bz : Bytes) × (marshal m ≡ ok bz) × (unmarshal zero bz ≡ ok m)
unfolding unmarshal
unmarshal-marshal_key m r = unmarshal-Coded fields zero m (marshal m) (marshal-Coded m r)
