-- ===== src/Wire/Message.antt =====
-- The frame that every generated `Unmarshal` has: the loop over the fields, the tag and its checks,
-- and the default case. The switch on the field number is a parameter. The lines are those of
-- params.pb.go.
pub mod Frame
pub mod Total
pub mod Unknown
pub mod Coded
use abstract_account.Prelude.{
  ℕ, zero, suc, ◌+◌, ◌/◌, ◌%◌, ◌^◌, Bytes, Option, none, some, take, drop, length, is_empty, ltb,
  leb, ◌==◌, ◌||◌, bit_and, if◌then◌else◌,
}
use abstract_account.Result.{
  Result, ok, err, panicked, out_of_fuel, proto, invalid_length, unexpected_eof, end_group,
  illegal_tag, wrong_wire_type, ◌>>=◌,
}
use abstract_account.Wire.Varint.{Cursor, read_varint}
use abstract_account.Wire.Skip.{int_limit, skip}

-- A length and `dAtA[iNdEx:postIndex]`. As `l` is the index and what is left, `postIndex > l` says
-- that less than the length is left.
unfoldable pub read_length : Cursor → Result (ℕ × Cursor)
read_length c = do
  (len, d) ← read_varint c
  if leb int_limit len
      then err (proto invalid_length)
      else if leb int_limit (d.index + len)
      then err (proto invalid_length)
      else if ltb (length d.rest) len
      then err (proto unexpected_eof)
      else ok (len, d)

unfoldable pub read_bytes : Cursor → Result (Bytes × Cursor)
unfolding read_length
read_bytes c = do
  (len, d) ← read_length c
  ok (take len d.rest, record { index = d.index + len; rest = drop len d.rest })

-- The default case, from `preIndex` on.
unfoldable pub skip_field : Cursor → Result Cursor
skip_field c = do
  skippy ← skip c.rest
  if leb int_limit (c.index + skippy)
      then err (proto invalid_length)
      else if ltb (length c.rest) skippy
      then err (proto unexpected_eof)
      else ok (record { index = c.index + skippy; rest = drop skippy c.rest })

-- `if wireType != want { return fmt.Errorf(…) }`
abbrev pub want_type {ℓ} : {A : Type ℓ} → ℕ → ℕ → Result A → Result A
want_type want wire_type next = if wire_type == want then next else err (proto wrong_wire_type)

-- A message's switch: the field number, the wire type, the message so far and what is left; `none`
-- is the default case.
abbrev pub Fields : Type 0 → Type 0
Fields M = ℕ → ℕ → M → Cursor → Result (Option (M × Cursor))

-- A case of the switch that reads a number, or bytes, into the message.
abbrev pub read_uint : {M : Type 0} → (ℕ → M) → Cursor → Result (Option (M × Cursor))
read_uint set c = do (v, d) ← read_varint c; ok (some (set v, d))

abbrev pub read_slice : {M : Type 0} → (Bytes → M) → Cursor → Result (Option (M × Cursor))
read_slice set c = do (xs, d) ← read_bytes c; ok (some (set xs, d))

-- A case that reads an embedded message with its own `Unmarshal`.
abbrev pub read_message : {M : Type 0} → (Bytes → Result M) → Cursor → Result (Option (M × Cursor))
read_message set c = do (xs, d) ← read_bytes c; m ← set xs; ok (some (m, d))

module _ {M : Type 0} (fields : Fields M) where
  or_skip : M → Cursor → Option (M × Cursor) → Result (M × Cursor)
  or_skip m c (some found) = ok found
  or_skip m c none = do d ← skip_field c; ok (m, d)

  unfoldable pub read_field : M → Cursor → Result (M × Cursor)
  unfolding or_skip
  read_field m c = do
    (wire, d) ← read_varint c
    let field_num = wire / 8 % 2 ^ 32
    let wire_type = bit_and wire 7
    if wire_type == 4
        then err (proto end_group)
        else if (field_num == 0) || leb (2 ^ 31) field_num
        then err (proto illegal_tag)
        else fields field_num wire_type m d >>= or_skip m c

  -- `for iNdEx < l`; a round takes a byte at least.
  pub read_fields : ℕ → M → Cursor → Result M
  read_fields zero m c = panicked out_of_fuel
  read_fields (suc fuel) m c =
      let next = (do (m', d) ← read_field m c; read_fields fuel m' d) in
      if is_empty c.rest then ok m else next

  unfoldable pub unmarshal_into : M → Bytes → Result M
  unfolding read_fields
  unmarshal_into m r = read_fields (suc (length r)) m (record { index = 0; rest = r })
