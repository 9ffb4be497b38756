-- ===== src/Wire/Params/Pointer.antt =====
-- Parameters inside a message, behind a pointer that may be nil.
use abstract_account.Prelude.{
  ℕ, ◌+◌, ◌*◌, ◌<◌, ◌≡◌, refl, subst, Bytes, IsU64, Option, none, some, [], ◌++◌, length, arith,
}
use abstract_account.Result.{ok, ◌>>=◌}
use abstract_account.Types.Params.{Params}
use abstract_account.Wire.Varint.{Cursor}
use abstract_account.Wire.Varint.Write.{Writes, skip-Writes}
use abstract_account.Wire.Skip.{int_limit}
use abstract_account.Wire.Message.{Fields, read_message}
use abstract_account.Wire.Message.Frame.{at_index, Parses, Parses-end}
use abstract_account.Wire.Fields.Laws.{delimited, size_delimited-eq, Parses-cast}
use abstract_account.Wire.Fields.Embedded.{put_message-Writes, Parses-message}
use abstract_account.Wire.Params.{
  zero_params, unmarshal, marshal_to_sized_buffer, put_pointer, size_pointer, unmarshal_pointer,
}
use abstract_account.Wire.Params.Laws.{
  encoding, InRange, marshal-encoding, marshal_to_sized_buffer-Writes, size-eq,
}
use abstract_account.Wire.Params.RoundTrip.{unmarshal-marshal}
use mathlib.Core.List.{append-nil}

-- The encoding of the field.
unfoldable pub pointer_field : ℕ → Option Params → Bytes
pointer_field tag none = []
pointer_field tag (some p) = delimited tag (encoding p)

-- Parameters that are there are within the Go types.
abbrev pub Valid : Option Params → Type 0
Valid none = Unit {0}
Valid (some p) = InRange p

short : (p : Params) → InRange p → IsU64 (length (encoding p))
short p r = omega (arith, r.short)

pub put_pointer-Writes :
    (tag : ℕ) (o : Option Params) → Valid o → Writes (put_pointer tag o) (pointer_field tag o)
unfolding put_pointer pointer_field
put_pointer-Writes tag none v = skip-Writes
put_pointer-Writes tag (some p) v =
    put_message-Writes tag (marshal_to_sized_buffer p) (encoding p)
      (marshal_to_sized_buffer-Writes p v) (short p v)

pub size_pointer-eq :
    (tag : ℕ) (o : Option Params) → Valid o → size_pointer o ≡ length (pointer_field tag o)
unfolding size_pointer pointer_field
size_pointer-eq tag none v = refl
size_pointer-eq tag (some p) v = rw (size-eq p v) (size_delimited-eq tag (encoding p) (short p v))

unmarshal-encoding : (p : Params) → InRange p → unmarshal_pointer none (encoding p) ≡ ok p
unfolding unmarshal_pointer
unmarshal-encoding p r =
    let (bz, written, read) = unmarshal-marshal p r in
    let same : bz ≡ encoding p = cc (written, marshal-encoding p r) in
    subst (λ b. unmarshal zero_params b ≡ ok p) same read

module _ {M : Type 0} (fields : Fields M) where
  -- A pointer of field `n`, read into a message whose own is nil.
  pub Parses-pointer :
      (n i : ℕ) (o : Option Params) (m m'' : M) (set : Option Params → M) (more : Bytes)
      → 0 < n
      → n < 16
      → Valid o
      → i + length (pointer_field (n * 8 + 2) o) < int_limit
      → ((c : Cursor)
          → fields n 2 m c
            ≡ read_message (λ xs. unmarshal_pointer none xs >>= λ p. ok (set (some p))) c)
      → set none ≡ m
      → Parses fields (set o) (at_index (i + length (pointer_field (n * 8 + 2) o)) more) m''
      → Parses fields m (at_index i (pointer_field (n * 8 + 2) o ++ more)) m''
  unfolding pointer_field
  Parses-pointer n i none m m'' set more hn hn' v fit case same p =
      Parses-cast fields (set none) m m'' _ i more same (omega arith) p
  Parses-pointer n i (some q) m m'' set more hn hn' v fit case same p =
      Parses-message fields n i (encoding q) m (set (some q)) m'' _ more hn hn' fit case
        (rw (unmarshal-encoding q v) refl) p

  -- The same for the last field.
  pub Parses-pointer_last :
      (n i : ℕ) (o : Option Params) (m : M) (set : Option Params → M)
      → 0 < n
      → n < 16
      → Valid o
      → i + length (pointer_field (n * 8 + 2) o) < int_limit
      → ((c : Cursor)
          → fields n 2 m c
            ≡ read_message (λ xs. unmarshal_pointer none xs >>= λ p. ok (set (some p))) c)
      → set none ≡ m
      → Parses fields m (at_index i (pointer_field (n * 8 + 2) o)) (set o)
  Parses-pointer_last n i o m set hn hn' v fit case same =
      rw (append-nil (pointer_field (n * 8 + 2) o)) at
        (Parses-pointer n i o m (set o) set [] hn hn' v fit case same (Parses-end fields (set o) _))
