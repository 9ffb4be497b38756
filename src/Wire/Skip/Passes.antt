-- ===== src/Wire/Skip/Passes.antt =====
-- How far `skip` goes over a field of each kind.
use abstract_account.Prelude.{
  ℕ, ◌+◌, ◌*◌, ◌^◌, ◌<◌, ◌≡◌, refl, Bytes, IsU64, ◌++◌, bit_and, drop-append, length, is_empty,
  false, arith,
}
use abstract_account.Prelude.Bits.{mask_seven}
use abstract_account.Result.{ok}
use abstract_account.Wire.Varint.{Cursor}
use abstract_account.Wire.Varint.Size.{uvarint, varint}
use abstract_account.Wire.Varint.Read.{read_varint-uvarint}
use abstract_account.Wire.Skip.{int_limit, skip_value, skip_step, skip_loop, skip}

wire_type : (n w : ℕ) → w < 8 → bit_and (n * 8 + w) 7 ≡ w
wire_type n w h = omega (arith, mask_seven (n * 8 + w))

-- One round that ends outside of groups ends the loop.
skip-once :
    (r : Bytes) (c d : Cursor)
    → c ≡ record { index = 0; rest = r }
    → is_empty r ≡ false
    → skip_step 0 c ≡ ok (0, d)
    → skip r ≡ ok d.index
unfolding skip skip_loop
skip-once r c d at full step = rw (full, ← at, step) refl

skip_step-number :
    (n v : ℕ) (more : Bytes)
    → n * 8 < 2 ^ 64
    → IsU64 v
    → length (uvarint (n * 8 + 0)) + length (uvarint v) < int_limit
    → skip_step 0 (record { index = 0; rest = uvarint (n * 8 + 0) ++ (uvarint v ++ more) })
      ≡ ok (0, record { index = length (uvarint (n * 8 + 0)) + length (uvarint v); rest = more })
unfolding skip_step skip_value
skip_step-number n v more hn hv fit =
    rw
      (
        read_varint-uvarint (n * 8 + 0) 0 (uvarint v ++ more) (omega arith),
        wire_type n 0 (omega arith),
        read_varint-uvarint v (0 + length (uvarint (n * 8 + 0))) more hv,
      )
      (ground arith)

skip_step-bytes :
    (n : ℕ) (xs more : Bytes)
    → n * 8 + 2 < 2 ^ 64
    → length (uvarint (n * 8 + 2)) + length (uvarint (length xs)) + length xs < int_limit
    → skip_step 0
        (record { index = 0; rest = uvarint (n * 8 + 2) ++ (uvarint (length xs) ++ (xs ++ more)) })
      ≡ ok (
        0,
        record {
          index = length (uvarint (n * 8 + 2)) + length (uvarint (length xs)) + length xs;
          rest = more;
        },
      )
unfolding skip_step skip_value
skip_step-bytes n xs more hn fit =
    rw
      (
        read_varint-uvarint (n * 8 + 2) 0 (uvarint (length xs) ++ (xs ++ more)) (omega arith),
        wire_type n 2 (omega arith),
        read_varint-uvarint (length xs) (0 + length (uvarint (n * 8 + 2))) (xs ++ more)
            (omega arith),
      )
      (ground (arith, drop-append xs more))

skip_step-fixed64 :
    (n : ℕ) (xs more : Bytes)
    → n * 8 + 1 < 2 ^ 64
    → length xs ≡ 8
    → length (uvarint (n * 8 + 1)) + 8 < int_limit
    → skip_step 0 (record { index = 0; rest = uvarint (n * 8 + 1) ++ (xs ++ more) })
      ≡ ok (0, record { index = length (uvarint (n * 8 + 1)) + 8; rest = more })
unfolding skip_step skip_value
skip_step-fixed64 n xs more hn e fit =
    rw (read_varint-uvarint (n * 8 + 1) 0 (xs ++ more) (omega arith), wire_type n 1 (omega arith))
      (ground (arith, rw e at (drop-append xs more)))

skip_step-fixed32 :
    (n : ℕ) (xs more : Bytes)
    → n * 8 + 5 < 2 ^ 64
    → length xs ≡ 4
    → length (uvarint (n * 8 + 5)) + 4 < int_limit
    → skip_step 0 (record { index = 0; rest = uvarint (n * 8 + 5) ++ (xs ++ more) })
      ≡ ok (0, record { index = length (uvarint (n * 8 + 5)) + 4; rest = more })
unfolding skip_step skip_value
skip_step-fixed32 n xs more hn e fit =
    rw (read_varint-uvarint (n * 8 + 5) 0 (xs ++ more) (omega arith), wire_type n 5 (omega arith))
      (ground (arith, rw e at (drop-append xs more)))

full : (v : ℕ) (more : Bytes) → is_empty (uvarint v ++ more) ≡ false
unfolding varint
full v more = ground arith

-- A number's field is passed over as a whole.
pub skip-number :
    (n v : ℕ) (more : Bytes)
    → n * 8 < 2 ^ 64
    → IsU64 v
    → length (uvarint (n * 8 + 0)) + length (uvarint v) < int_limit
    → skip (uvarint (n * 8 + 0) ++ (uvarint v ++ more))
      ≡ ok (length (uvarint (n * 8 + 0)) + length (uvarint v))
skip-number n v more hn hv fit =
    skip-once _ _ _ refl (full (n * 8 + 0) (uvarint v ++ more))
      (skip_step-number n v more hn hv fit)

-- And so is a field of bytes.
pub skip-bytes :
    (n : ℕ) (xs more : Bytes)
    → n * 8 + 2 < 2 ^ 64
    → length (uvarint (n * 8 + 2)) + length (uvarint (length xs)) + length xs < int_limit
    → skip (uvarint (n * 8 + 2) ++ (uvarint (length xs) ++ (xs ++ more)))
      ≡ ok (length (uvarint (n * 8 + 2)) + length (uvarint (length xs)) + length xs)
skip-bytes n xs more hn fit =
    skip-once _ _ _ refl (full (n * 8 + 2) (uvarint (length xs) ++ (xs ++ more)))
      (skip_step-bytes n xs more hn fit)

-- And a field of eight bytes.
pub skip-fixed64 :
    (n : ℕ) (xs more : Bytes)
    → n * 8 + 1 < 2 ^ 64
    → length xs ≡ 8
    → length (uvarint (n * 8 + 1)) + 8 < int_limit
    → skip (uvarint (n * 8 + 1) ++ (xs ++ more)) ≡ ok (length (uvarint (n * 8 + 1)) + 8)
skip-fixed64 n xs more hn e fit =
    skip-once _ _ _ refl (full (n * 8 + 1) (xs ++ more)) (skip_step-fixed64 n xs more hn e fit)

-- And one of four.
pub skip-fixed32 :
    (n : ℕ) (xs more : Bytes)
    → n * 8 + 5 < 2 ^ 64
    → length xs ≡ 4
    → length (uvarint (n * 8 + 5)) + 4 < int_limit
    → skip (uvarint (n * 8 + 5) ++ (xs ++ more)) ≡ ok (length (uvarint (n * 8 + 5)) + 4)
skip-fixed32 n xs more hn e fit =
    skip-once _ _ _ refl (full (n * 8 + 5) (xs ++ more)) (skip_step-fixed32 n xs more hn e fit)
