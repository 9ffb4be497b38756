-- ===== src/Wire/Fields/Laws.antt =====
-- Each piece writes its encoding, has its size, and is read back.
use abstract_account.Prelude.{
  ℕ, suc, ◌+◌, ◌-◌, ◌*◌, ◌<◌, ◌≤◌, ◌≡◌, refl, ap, ◌∙◌, Bytes, IsU64, some, [], ◌∷◌, ◌++◌, Bool,
  true, false, length, length-append, is_empty, take-append, ◌==◌, if◌then◌else◌, arith, Bool-cases,
  inl, inr,
}
use abstract_account.Result.{Result, ok, ◌>>=◌}
use abstract_account.Wire.Varint.{Buffer, Cursor, encode_varint, put_byte, put_bytes}
use abstract_account.Wire.Varint.Size.{uvarint, sov-eq-length}
use abstract_account.Wire.Varint.Read.{read_varint-uvarint}
use abstract_account.Wire.Varint.Write.{
  Writes, put_byte-Writes, put_bytes-Writes, encode_varint-Writes, skip-Writes, bind-Writes,
}
use abstract_account.Wire.Skip.{int_limit}
use abstract_account.Wire.Message.{Fields, read_uint, read_slice, read_bytes, unmarshal_into}
use abstract_account.Wire.Message.Frame.{at_index, Parses, Parses-end, Parses-field, read_bytes-lem}
use abstract_account.Wire.Fields.{
  put_uint, put_delimited, put_slice, size_uint, size_delimited, size_slice, marshal_sized,
}
use mathlib.Core.List.{append_assoc, append-nil}

-- The encoding of each piece.
unfoldable pub uint_field : ℕ → ℕ → Bytes
uint_field tag v = if v == 0 then [] else tag ∷ uvarint v

abbrev pub delimited : ℕ → Bytes → Bytes
delimited tag xs = tag ∷ (uvarint (length xs) ++ xs)

unfoldable pub slice_field : ℕ → Bytes → Bytes
slice_field tag xs = if is_empty xs then [] else delimited tag xs

pub length-slice_field : (tag : ℕ) (xs : Bytes) → length xs ≤ length (slice_field tag xs)
unfolding slice_field
length-slice_field tag [] = omega arith
length-slice_field tag (x ∷ xs) = omega (arith, length-append (uvarint (length (x ∷ xs))) (x ∷ xs))

-- A piece that is left out if `absent`.
optional-Writes :
    (absent : Bool) (m : Buffer → Result Buffer) (e : Bytes)
    → Writes m e
    → Writes (λ b. if absent then ok b else m b) (if absent then [] else e)
optional-Writes true m e h = skip-Writes
optional-Writes false m e h = h

pub put_uint-Writes : (tag v : ℕ) → IsU64 v → Writes (put_uint tag v) (uint_field tag v)
unfolding put_uint uint_field
put_uint-Writes tag v h = optional-Writes (v == 0) _ _ (
    bind-Writes (encode_varint v) (put_byte tag) _ _ (encode_varint-Writes v h)
      (put_byte-Writes tag))

pub put_delimited-Writes :
    (tag : ℕ) (xs : Bytes) → IsU64 (length xs) → Writes (put_delimited tag xs) (delimited tag xs)
unfolding put_delimited
put_delimited-Writes tag xs h =
    bind-Writes (put_bytes xs) (λ c. encode_varint (length xs) c >>= put_byte tag) xs _
      (put_bytes-Writes xs)
      (bind-Writes (encode_varint (length xs)) (put_byte tag) _ _ (encode_varint-Writes _ h)
        (put_byte-Writes tag))

pub put_slice-Writes :
    (tag : ℕ) (xs : Bytes) → IsU64 (length xs) → Writes (put_slice tag xs) (slice_field tag xs)
unfolding put_slice slice_field
put_slice-Writes tag xs h = optional-Writes (is_empty xs) _ _ (put_delimited-Writes tag xs h)

pub size_uint-eq : (tag v : ℕ) → IsU64 v → size_uint v ≡ length (uint_field tag v)
unfolding size_uint uint_field
size_uint-eq tag v h = ground (arith, sov-eq-length v h)

pub size_delimited-eq :
    (tag : ℕ) (xs : Bytes)
    → IsU64 (length xs)
    → size_delimited (length xs) ≡ length (delimited tag xs)
size_delimited-eq tag xs h =
    omega (arith, sov-eq-length (length xs) h, length-append (uvarint (length xs)) xs)

pub size_slice-eq :
    (tag : ℕ) (xs : Bytes) → IsU64 (length xs) → size_slice xs ≡ length (slice_field tag xs)
unfolding size_slice slice_field
size_slice-eq tag [] h = refl
size_slice-eq tag (x ∷ xs) h = size_delimited-eq tag (x ∷ xs) h

-- `Marshal` returns what the writer writes, whole, if `Size` is right.
pub marshal_sized-lem :
    (size : ℕ) (fill : Buffer → Result Buffer) (e : Bytes)
    → Writes fill e
    → size ≡ length e
    → marshal_sized size fill ≡ ok e
unfolding marshal_sized
marshal_sized-lem size fill e w h =
    let full : size - length e ≡ 0 = omega arith in
    rw (w.at (record { room = size; written = [] }) (omega arith), full, append-nil e)
      (ground (arith, take-append e [], append-nil e))

module _ {M : Type 0} (fields : Fields M) where
  pub Parses-cast :
      (m n m'' : M) (i j : ℕ) (more : Bytes)
      → m ≡ n
      → i ≡ j
      → Parses fields m (at_index i more) m''
      → Parses fields n (at_index j more) m''
  Parses-cast m n m'' i j more e f p = rw (← e, ← f) p

  -- A number of field `n` is read by `set`, and left out where `set 0` changes nothing.
  pub Parses-uint :
      (n i v : ℕ) (m m'' : M) (set : ℕ → M) (more : Bytes)
      → 0 < n
      → n < 16
      → IsU64 v
      → ((c : Cursor) → fields n 0 m c ≡ read_uint set c)
      → set 0 ≡ m
      → Parses fields (set v) (at_index (i + length (uint_field (n * 8 + 0) v)) more) m''
      → Parses fields m (at_index i (uint_field (n * 8 + 0) v ++ more)) m''
  unfolding uint_field
  Parses-uint n i v m m'' set more hn hn' hv case same p = elim (Bool-cases (v == 0)) [
    | inl e ↦
        let z : v ≡ 0 = ground arith in
        rw e (Parses-cast (set v) m m'' _ i more (ap set z ∙ same) (ground arith) p)
    | inr e ↦ rw e (
        Parses-field fields n 0 i (i + 1 + length (uvarint v)) m (set v) m'' (uvarint v) more hn hn'
          (omega arith) (omega arith) (case _ ∙ rw (read_varint-uvarint v (i + 1) more hv) refl)
          (Parses-cast (set v) (set v) m'' _ _ more refl (ground arith) p))
  ]

  -- Delimited bytes, read by `set`.
  pub Parses-delimited :
      (n i : ℕ) (xs : Bytes) (m m' m'' : M) (more : Bytes)
      → 0 < n
      → n < 16
      → i + length (delimited (n * 8 + 2) xs) < int_limit
      → ((c d : Cursor) → read_bytes c ≡ ok (xs, d) → fields n 2 m c ≡ ok (some (m', d)))
      → Parses fields m' (at_index (i + length (delimited (n * 8 + 2) xs)) more) m''
      → Parses fields m (at_index i (delimited (n * 8 + 2) xs ++ more)) m''
  Parses-delimited n i xs m m' m'' more hn hn' fit case p =
      let size : length (uvarint (length xs) ++ xs) ≡ length (uvarint (length xs)) + length xs =
        length-append _ xs in
      let j : ℕ = i + 1 + length (uvarint (length xs)) + length xs in
      Parses-field fields n 2 i j m m' m'' (uvarint (length xs) ++ xs) more hn hn' (omega arith)
        (omega arith)
        (case _ (at_index j more) (
          rw (append_assoc (uvarint (length xs)) xs more)
            (read_bytes-lem xs (i + 1) more (omega arith))))
        (Parses-cast m' m' m'' _ j more refl (omega arith) p)

  -- The same where an empty slice is left out.
  pub Parses-slice :
      (n i : ℕ) (xs : Bytes) (m m'' : M) (set : Bytes → M) (more : Bytes)
      → 0 < n
      → n < 16
      → i + length (slice_field (n * 8 + 2) xs) < int_limit
      → ((c : Cursor) → fields n 2 m c ≡ read_slice set c)
      → set [] ≡ m
      → Parses fields (set xs) (at_index (i + length (slice_field (n * 8 + 2) xs)) more) m''
      → Parses fields m (at_index i (slice_field (n * 8 + 2) xs ++ more)) m''
  unfolding slice_field
  Parses-slice n i [] m m'' set more hn hn' fit case same p =
      Parses-cast (set []) m m'' _ i more same (omega arith) p
  Parses-slice n i (x ∷ xs) m m'' set more hn hn' fit case same p =
      Parses-delimited n i (x ∷ xs) m (set (x ∷ xs)) m'' more hn hn' fit
        (λ c d e. case c ∙ rw e refl) p

  -- The last field of a message.
  pub Parses-uint_last :
      (n i v : ℕ) (m : M) (set : ℕ → M)
      → 0 < n
      → n < 16
      → IsU64 v
      → ((c : Cursor) → fields n 0 m c ≡ read_uint set c)
      → set 0 ≡ m
      → Parses fields m (at_index i (uint_field (n * 8 + 0) v)) (set v)
  Parses-uint_last n i v m set hn hn' hv case same =
      rw (append-nil (uint_field (n * 8 + 0) v)) at
        (Parses-uint n i v m (set v) set [] hn hn' hv case same (Parses-end fields (set v) _))

  pub Parses-slice_last :
      (n i : ℕ) (xs : Bytes) (m : M) (set : Bytes → M)
      → 0 < n
      → n < 16
      → i + length (slice_field (n * 8 + 2) xs) < int_limit
      → ((c : Cursor) → fields n 2 m c ≡ read_slice set c)
      → set [] ≡ m
      → Parses fields m (at_index i (slice_field (n * 8 + 2) xs)) (set xs)
  Parses-slice_last n i xs m set hn hn' fit case same =
      rw (append-nil (slice_field (n * 8 + 2) xs)) at
        (Parses-slice n i xs m (set xs) set [] hn hn' fit case same (Parses-end fields (set xs) _))

  -- The whole input.
  pub unmarshal-Parses :
      (m m'' : M) (r : Bytes)
      → Parses fields m (at_index 0 r) m''
      → unmarshal_into fields m r ≡ ok m''
  unfolding unmarshal_into
  unmarshal-Parses m m'' r p = p.at (suc (length r)) (omega arith)
