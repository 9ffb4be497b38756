-- ===== src/Wire/Message/Unknown.antt =====
-- Fields that a message does not know are passed over.
use abstract_account.Prelude.{
  ℕ, ◌+◌, ◌*◌, ◌/◌, ◌%◌, ◌^◌, ◌<◌, ◌≡◌, refl, ap, ◌∙◌, Bytes, IsU64, ◌≢◌, none, List, [], ◌∷◌, ◌++◌,
  bit_and, drop-append, length, length-append, arith,
}
use abstract_account.Prelude.Bits.{mask_seven}
use abstract_account.Result.{ok}
use abstract_account.Wire.Varint.{Cursor, read_varint}
use abstract_account.Wire.Varint.Size.{uvarint}
use abstract_account.Wire.Varint.Read.{read_varint-uvarint, length-uvarint}
use abstract_account.Wire.Skip.{int_limit, skip}
use abstract_account.Wire.Skip.Passes.{skip-number, skip-bytes, skip-fixed64, skip-fixed32}
use abstract_account.Wire.Message.{skip_field, Fields, or_skip, read_field}
use abstract_account.Wire.Message.Frame.{at_index, Parses, Parses-next}
use abstract_account.Wire.Fields.Laws.{Parses-cast}
use mathlib.Core.List.{append_assoc}

-- A field by its number: with a number, with bytes, or with the bytes of a fixed width.
pub data Unknown : Type 0 where
  number : ℕ → ℕ → Unknown
  bytes fixed64 fixed32 : ℕ → Bytes → Unknown

abbrev pub number_of : Unknown → ℕ
number_of (number n v) = n
number_of (bytes n xs) = n
number_of (fixed64 n xs) = n
number_of (fixed32 n xs) = n

abbrev type_of : Unknown → ℕ
type_of (number n v) = 0
type_of (bytes n xs) = 2
type_of (fixed64 n xs) = 1
type_of (fixed32 n xs) = 5

abbrev body_of : Unknown → Bytes
body_of (number n v) = uvarint v
body_of (bytes n xs) = uvarint (length xs) ++ xs
body_of (fixed64 n xs) = xs
body_of (fixed32 n xs) = xs

-- The field's encoding.
abbrev pub encode_field : Unknown → Bytes
encode_field u = uvarint (number_of u * 8 + type_of u) ++ body_of u

-- The number is one that a tag can hold, a value has 64 bits, and a fixed width is eight or four bytes.
abbrev pub IsField : Unknown → Type 0
IsField (number n v) = (0 < n) × (n < 2 ^ 29) × IsU64 v
IsField (bytes n xs) = (0 < n) × (n < 2 ^ 29)
IsField (fixed64 n xs) = (0 < n) × (n < 2 ^ 29) × (length xs ≡ 8)
IsField (fixed32 n xs) = (0 < n) × (n < 2 ^ 29) × (length xs ≡ 4)

skip-field :
    (u : Unknown) (more : Bytes)
    → IsField u
    → length (encode_field u) < int_limit
    → skip (encode_field u ++ more) ≡ ok (length (encode_field u))
skip-field (number n v) more h fit =
    let size = length-append (uvarint (n * 8 + 0)) (uvarint v) in
    rw (append_assoc (uvarint (n * 8 + 0)) (uvarint v) more, size)
      (skip-number n v more (omega (arith, h.1)) h.2 (omega (arith, fit, size)))
skip-field (bytes n xs) more h fit =
    let inner = length-append (uvarint (length xs)) xs in
    let size = length-append (uvarint (n * 8 + 2)) (uvarint (length xs) ++ xs) in
    rw
      (
        append_assoc (uvarint (n * 8 + 2)) (uvarint (length xs) ++ xs) more,
        append_assoc (uvarint (length xs)) xs more,
      )
      (skip-bytes n xs more (omega (arith, h.1)) (omega (arith, fit, size, inner))
        ∙ ap ok (omega (arith, size, inner)))
skip-field (fixed64 n xs) more h fit =
    let size = length-append (uvarint (n * 8 + 1)) xs in
    rw (append_assoc (uvarint (n * 8 + 1)) xs more, size)
      (skip-fixed64 n xs more (omega (arith, h.1)) h.2 (omega (arith, fit, size, h.2))
        ∙ ap ok (omega (arith, h.2)))
skip-field (fixed32 n xs) more h fit =
    let size = length-append (uvarint (n * 8 + 5)) xs in
    rw (append_assoc (uvarint (n * 8 + 5)) xs more, size)
      (skip-fixed32 n xs more (omega (arith, h.1)) h.2 (omega (arith, fit, size, h.2))
        ∙ ap ok (omega (arith, h.2)))

read_tag :
    (u : Unknown) (i : ℕ) (more : Bytes)
    → number_of u < 2 ^ 29
    → type_of u < 8
    → read_varint (at_index i (encode_field u ++ more))
      ≡ ok (
        number_of u * 8 + type_of u,
        at_index (i + length (uvarint (number_of u * 8 + type_of u))) (body_of u ++ more),
      )
read_tag u i more h k =
    rw (append_assoc (uvarint (number_of u * 8 + type_of u)) (body_of u) more)
      (read_varint-uvarint (number_of u * 8 + type_of u) i (body_of u ++ more) (omega arith))

skip_field-field :
    (u : Unknown) (i : ℕ) (more : Bytes)
    → IsField u
    → i + length (encode_field u) < int_limit
    → skip_field (at_index i (encode_field u ++ more))
      ≡ ok (at_index (i + length (encode_field u)) more)
unfolding skip_field
skip_field-field u i more h fit =
    let n : ℕ = length (encode_field u) in
    rw (skip-field u more h (omega (arith, fit)), drop-append (encode_field u) more)
      (ground (arith, fit, length-append (encode_field u) more))

small_type : (u : Unknown) → (type_of u < 8) × (type_of u ≢ 4)
small_type (number n v) = (omega arith, λ e. omega arith)
small_type (bytes n xs) = (omega arith, λ e. omega arith)
small_type (fixed64 n xs) = (omega arith, λ e. omega arith)
small_type (fixed32 n xs) = (omega arith, λ e. omega arith)

small_number : (u : Unknown) → IsField u → (0 < number_of u) × (number_of u < 2 ^ 29)
small_number (number n v) h = (h.0, h.1)
small_number (bytes n xs) h = h
small_number (fixed64 n xs) h = (h.0, h.1)
small_number (fixed32 n xs) h = (h.0, h.1)

length-encode_field : (u : Unknown) → 0 < length (encode_field u)
length-encode_field u = omega (
  arith,
  length-append (uvarint (number_of u * 8 + type_of u)) (body_of u),
  length-uvarint (number_of u * 8 + type_of u),
)

-- Fields in front of an input.
abbrev pub encode_fields : List Unknown → Bytes
encode_fields [] = []
encode_fields (u ∷ us) = encode_field u ++ encode_fields us

module _ {M : Type 0} (fields : Fields M) where
  -- The switch has no case for the number.
  pub record HasNone (n : ℕ) : Type 0 where
    pub at : (w : ℕ) (m : M) (c : Cursor) → fields n w m c ≡ ok none

  read_field-field :
      (u : Unknown) (i : ℕ) (m : M) (more : Bytes)
      → HasNone (number_of u)
      → IsField u
      → i + length (encode_field u) < int_limit
      → read_field fields m (at_index i (encode_field u ++ more))
        ≡ ok (m, at_index (i + length (encode_field u)) more)
  unfolding read_field or_skip
  read_field-field u i m more unknown h fit =
      let (low, not_group) = small_type u in
      let (positive, small) = small_number u h in
      let t : ℕ = number_of u * 8 + type_of u in
      let number : t / 8 % 2 ^ 32 ≡ number_of u = omega arith in
      let type : bit_and t 7 ≡ type_of u = omega (arith, mask_seven t) in
      rw
        (
          read_tag u i more small low,
          number,
          type,
          unknown.at (type_of u) m
              (at_index (i + length (uvarint (number_of u * 8 + type_of u))) (body_of u ++ more)),
          skip_field-field u i more h fit,
        )
        (ground arith)

  abbrev pub AllUnknown : List Unknown → Type 0
  AllUnknown [] = Unit {0}
  AllUnknown (u ∷ us) = (HasNone (number_of u) × IsField u) × AllUnknown us

  pub Parses-unknown :
      (us : List Unknown) (i : ℕ) (m m' : M) (more : Bytes)
      → AllUnknown us
      → i + length (encode_fields us) < int_limit
      → Parses fields m (at_index (i + length (encode_fields us)) more) m'
      → Parses fields m (at_index i (encode_fields us ++ more)) m'
  Parses-unknown [] i m m' more k fit p = Parses-cast fields m m m' _ i more refl (omega arith) p
  Parses-unknown (u ∷ us) i m m' more k fit p =
      let both = length-append (encode_field u) (encode_fields us) in
      let here : i + length (encode_field u) < int_limit = omega (arith, fit, both) in
      rw (append_assoc (encode_field u) (encode_fields us) more) (record {
        at =
            Parses-next fields m m m' _ _
              (read_field-field u i m (encode_fields us ++ more) k.0.0 k.0.1 here)
              (omega (
                arith,
                length-append (encode_field u) (encode_fields us ++ more),
                length-encode_field u,
              ))
              (Parses-unknown us (i + length (encode_field u)) m m' more k.1
                (omega (arith, fit, both))
                (Parses-cast fields m m m' _ _ more refl (omega (arith, both)) p));
      })
