-- ===== src/Wire/Message/Frame.antt =====
-- Reading a message that is a sequence of encoded fields, and termination on every input.
use abstract_account.Prelude.{
  ℕ, zero, suc, ◌+◌, ◌*◌, ◌/◌, ◌%◌, ◌^◌, ◌≤◌, ◌<◌, ◌≡◌, ◌≢◌, refl, Bytes, some, [], ◌∷◌, ◌++◌,
  false, length, length-append, take-append, drop-append, is_empty, bit_and, arith,
}
use abstract_account.Prelude.Bits.{mask_seven}
use abstract_account.Result.{ok}
use abstract_account.Wire.Varint.{Cursor, read_varint}
use abstract_account.Wire.Varint.Size.{uvarint, varint}
use abstract_account.Wire.Varint.Read.{read_varint-uvarint}
use abstract_account.Wire.Skip.{int_limit}
use abstract_account.Wire.Message.{read_length, read_bytes, Fields, read_field, read_fields}

abbrev pub at_index : ℕ → Bytes → Cursor
at_index i r = record { index = i; rest = r }

pub read_length-lem :
    (n i : ℕ) (more : Bytes)
    → n ≤ length more
    → i + length (uvarint n) + n < int_limit
    → read_length (at_index i (uvarint n ++ more)) ≡ ok (n, at_index (i + length (uvarint n)) more)
unfolding read_length
read_length-lem n i more k h = rw (read_varint-uvarint n i more (omega arith)) (ground arith)

-- A delimited field's bytes come back, if the buffer is not longer than an `int` can say.
pub read_bytes-lem :
    (xs : Bytes) (i : ℕ) (more : Bytes)
    → i + length (uvarint (length xs)) + length xs < int_limit
    → read_bytes (at_index i (uvarint (length xs) ++ (xs ++ more)))
      ≡ ok (xs, at_index (i + length (uvarint (length xs)) + length xs) more)
unfolding read_bytes
read_bytes-lem xs i more h =
    rw (read_length-lem (length xs) i (xs ++ more) (omega (arith, length-append xs more)) h)
      (ground (arith, take-append xs more, drop-append xs more))

uvarint_byte : (t : ℕ) → t < 128 → uvarint t ≡ t ∷ []
unfolding varint
uvarint_byte t h = ground arith

-- A tag of one byte.
pub read_tag :
    (t i : ℕ) (more : Bytes)
    → t < 128
    → read_varint (at_index i (t ∷ more)) ≡ ok (t, at_index (i + 1) more)
read_tag t i more h = ground (arith, read_varint-uvarint t i more (omega arith), uvarint_byte t h)

module _ {M : Type 0} (fields : Fields M) where
  -- The rest of the input, read into `m`, gives `m'`.
  pub record Parses (m : M) (c : Cursor) (m' : M) : Type 0 where
    pub at : (fuel : ℕ) → length c.rest < fuel → read_fields fields fuel m c ≡ ok m'

  parses_end : (m : M) (i fuel : ℕ) → 0 < fuel → read_fields fields fuel m (at_index i []) ≡ ok m
  unfolding read_fields
  parses_end m i zero h = elim h [ ]
  parses_end m i (suc fuel) h = refl

  pub Parses-end : (m : M) (i : ℕ) → Parses m (at_index i []) m
  Parses-end m i = record { at = parses_end m i }

  pub Parses-next :
      (m m' m'' : M) (c d : Cursor)
      → read_field fields m c ≡ ok (m', d)
      → length d.rest < length c.rest
      → Parses m' d m''
      → (fuel : ℕ) → length c.rest < fuel
      → read_fields fields fuel m c ≡ ok m''
  unfolding read_fields
  Parses-next m m' m'' c d e less p zero h = elim h [ ]
  Parses-next m m' m'' c d e less p (suc fuel) h =
      ground (arith, p.at fuel (omega arith), nonempty c.rest)
    where
      nonempty : (r : Bytes) → length d.rest < length r → is_empty r ≡ false
      nonempty [] k = elim k [ ]
      nonempty (x ∷ xs) k = refl

  -- The switch on a tag of one byte.
  pub read_field-tag :
      (n w i : ℕ) (m m' : M) (more : Bytes) (d : Cursor)
      → 0 < n
      → n < 16
      → w < 8
      → w ≢ 4
      → fields n w m (at_index (i + 1) more) ≡ ok (some (m', d))
      → read_field fields m (at_index i ((n * 8 + w) ∷ more)) ≡ ok (m', d)
  unfolding read_field
  read_field-tag n w i m m' more d hn hn' hw hg e =
      let number : (n * 8 + w) / 8 % 2 ^ 32 ≡ n = omega arith in
      let type : bit_and (n * 8 + w) 7 ≡ w = omega (arith, mask_seven (n * 8 + w)) in
      rw (read_tag (n * 8 + w) i more (omega arith), number, type, e) (ground arith)

  -- One field of a known number, behind a tag of one byte, then the rest.
  pub Parses-field :
      (n w i j : ℕ) (m m' m'' : M) (body more : Bytes)
      → 0 < n
      → n < 16
      → w < 8
      → w ≢ 4
      → fields n w m (at_index (i + 1) (body ++ more)) ≡ ok (some (m', at_index j more))
      → Parses m' (at_index j more) m''
      → Parses m (at_index i ((n * 8 + w) ∷ (body ++ more))) m''
  Parses-field n w i j m m' m'' body more hn hn' hw hg e p = record {
    at =
        Parses-next m m' m'' _ (at_index j more)
          (read_field-tag n w i m m' (body ++ more) (at_index j more) hn hn' hw hg e)
          (omega (arith, length-append body more)) p;
  }
