-- ===== src/Wire/Skip.antt =====
-- `skip…` of the generated files, which passes over a field of an unknown number, and the reads of
-- a length-delimited field. The lines are those of params.pb.go.
pub mod Total
pub mod Passes
use abstract_account.Prelude.{
  ℕ, zero, suc, ◌+◌, ◌-◌, ◌^◌, Bytes, leb, ◌==◌, bit_and, drop, length, is_empty, if◌then◌else◌,
}
use abstract_account.Result.{
  Result, ok, err, panicked, out_of_fuel, proto, invalid_length, unexpected_end_of_group,
  unexpected_eof, illegal_wire_type, ◌>>=◌,
}
use abstract_account.Wire.Varint.{Cursor, read_varint}

-- `int` has 64 bits: a value from here on is negative.
abbrev pub int_limit : ℕ
int_limit = 2 ^ 63

abbrev advance : ℕ → Cursor → Cursor
advance n c = record { index = c.index + n; rest = drop n c.rest }

-- The switch on the wire type: the depth and the place after one field.
skip_value : ℕ → ℕ → Cursor → Result (ℕ × Cursor)
skip_value wire_type depth c =
    let varint = (do (v, d) ← read_varint c; ok (depth, d)) in
    let delimited = (do
      (length, d) ← read_varint c
      if leb int_limit length then err (proto invalid_length) else ok (depth, advance length d)) in
    if wire_type == 0
    then varint
    else if wire_type == 1
    then ok (depth, advance 8 c)
    else if wire_type == 2
    then delimited
    else if wire_type == 3
    then ok (depth + 1, c)
    else if wire_type == 4
    then (if depth == 0 then err (proto unexpected_end_of_group) else ok (depth - 1, c))
    else if wire_type == 5
    then ok (depth, advance 4 c)
    else err (proto illegal_wire_type)

-- One round: what is left after a field, or the end with the number of bytes passed over.
skip_step : ℕ → Cursor → Result (ℕ × Cursor)
unfolding skip_value
skip_step depth c = do
  (wire, d) ← read_varint c
  (depth', e) ← skip_value (bit_and wire 7) depth d
  if leb int_limit e.index then err (proto invalid_length) else ok (depth', e)

-- The loop `for iNdEx < l`. Each round takes a byte at least, so `skip` has fuel enough.
skip_loop : ℕ → ℕ → Cursor → Result ℕ
skip_loop zero depth c = panicked out_of_fuel
skip_loop (suc fuel) depth c =
    let next = (do
      (depth', d) ← skip_step depth c
      let more = skip_loop fuel depth' d
      if depth' == 0 then ok d.index else more) in
    if is_empty c.rest then err (proto unexpected_eof) else next

unfoldable pub skip : Bytes → Result ℕ
unfolding skip_loop skip_step skip_value
skip r = skip_loop (suc (length r)) 0 (record { index = 0; rest = r })
