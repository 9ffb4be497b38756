-- ===== src/Wire/Skip/Total.antt =====
-- The skipping of an unknown field ends on every input.
use abstract_account.Prelude.{
  ℕ, zero, suc, ◌<◌, ◌≤◌, Bytes, leb, ◌==◌, bit_and, length, length-drop, is_empty, arith,
}
use abstract_account.Wire.Varint.{Cursor, read_varint}
use abstract_account.Wire.Skip.{int_limit, advance, skip_value, skip_step, skip_loop, skip}
use abstract_account.Wire.Safe.{Safe, bind-Safe, if-Safe, Ahead, read_varint-Safe}

-- `d` is not behind `c`, and has no more left.
record Onward (c d : Cursor) : Type 0 where
  index : c.index ≤ d.index
  rest : length d.rest ≤ length c.rest

ahead : (c d : Cursor) → Ahead c d → Onward c d
ahead c d a = record { index = omega (arith, a.index); rest = omega (arith, a.rest) }

advanced : (n : ℕ) (c : Cursor) → Onward c (advance n c)
advanced n c = record { index = omega arith; rest = omega (arith, length-drop n c.rest) }

still : (c : Cursor) → Onward c c
still c = record { index = omega arith; rest = omega arith }

further : (n : ℕ) (c d : Cursor) → Ahead c d → Onward c (advance n d)
further n c d a = record {
  index = omega (arith, a.index);
  rest = omega (arith, a.rest, length-drop n d.rest);
}

skip_value-Safe :
    (wire_type depth : ℕ) (c : Cursor) → Safe (λ r. Onward c r.1) (skip_value wire_type depth c)
unfolding skip_value
skip_value-Safe wire_type depth c =
    let G : ℕ × Cursor → Type 0 = λ r. Onward c r.1 in
    if-Safe G (wire_type == 0) _ _
      (bind-Safe _ G (read_varint c) _ (read_varint-Safe c) λ r a. ahead c r.1 a)
      (if-Safe G (wire_type == 1) _ _ (advanced 8 c) (
        if-Safe G (wire_type == 2) _ _
          (bind-Safe _ G (read_varint c) _ (read_varint-Safe c)
            λ r a. if-Safe G (leb int_limit r.0) _ _ tt (further r.0 c r.1 a))
          (if-Safe G (wire_type == 3) _ _ (still c) (
            if-Safe G (wire_type == 4) _ _ (if-Safe G (depth == 0) _ _ tt (still c))
              (if-Safe G (wire_type == 5) _ _ (advanced 4 c) tt)))))

both : (c d e : Cursor) → Ahead c d → Onward d e → Ahead c e
both c d e a o = record {
  index = omega (arith, a.index, o.index);
  rest = omega (arith, a.rest, o.rest);
}

skip_step-Safe : (depth : ℕ) (c : Cursor) → Safe (λ r. Ahead c r.1) (skip_step depth c)
unfolding skip_step
skip_step-Safe depth c = bind-Safe _ _ (read_varint c) _ (read_varint-Safe c) λ r a.
    bind-Safe _ _ (skip_value (bit_and r.0 7) depth r.1) _
      (skip_value-Safe (bit_and r.0 7) depth r.1)
      λ s o. if-Safe _ (leb int_limit s.1.index) _ _ tt (both c r.1 s.1 a o)

skip_loop-Safe :
    (fuel depth i : ℕ) (c : Cursor)
    → length c.rest < fuel
    → i ≤ c.index
    → Safe (λ n. i < n) (skip_loop fuel depth c)
unfolding skip_loop
skip_loop-Safe zero depth i c h k = elim h [ ]
skip_loop-Safe (suc fuel) depth i c h k = if-Safe _ (is_empty c.rest) _ _ tt (
    bind-Safe _ _ (skip_step depth c) _ (skip_step-Safe depth c) λ r a.
      if-Safe _ (r.0 == 0) _ _ (omega (arith, a.index))
        (skip_loop-Safe fuel r.0 i r.1 (omega (arith, a.rest)) (omega (arith, a.index))))

-- What is skipped is at least one byte.
pub skip-Safe : (r : Bytes) → Safe (λ n. 0 < n) (skip r)
unfolding skip
skip-Safe r = skip_loop-Safe (suc (length r)) 0 0 _ (omega arith) (omega arith)
