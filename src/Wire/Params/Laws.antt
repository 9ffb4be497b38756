-- ===== src/Wire/Params/Laws.antt =====
-- `Marshal` returns the encoding, `Size` is its length, and `Unmarshal` reads it back.
use abstract_account.Prelude.{
  ℕ, ◌+◌, ◌≤◌, ◌<◌, ◌≡◌, refl, Bytes, IsU64, Bool, true, false, List, [], ◌∷◌, ◌++◌, is_empty,
  length, length-append, All, if◌then◌else◌, arith,
}
use abstract_account.Result.{ok}
use abstract_account.Types.Params.{Params}
use abstract_account.Wire.Varint.{put_byte}
use abstract_account.Wire.Varint.Size.{uvarint, sov-eq-length, groups-eq}
use abstract_account.Wire.Varint.Read.{length-uvarint}
use abstract_account.Wire.Varint.Write.{
  Writes, put_byte-Writes, skip-Writes, bind-Writes, Writes-cast,
}
use abstract_account.Wire.Skip.{int_limit}
use abstract_account.Wire.Fields.{put_uint, put_delimited, size_delimited}
use abstract_account.Wire.Fields.Laws.{
  uint_field, delimited, put_uint-Writes, put_delimited-Writes, size_uint-eq, size_delimited-eq,
  marshal_sized-lem,
}
use abstract_account.Wire.Params.{
  pack, put_codes, put_allow_all, marshal_to_sized_buffer, sum_sov, size, marshal,
}
use mathlib.Core.List.{append_assoc}

-- The encoding in one expression.
unfoldable pub uvarints : List ℕ → Bytes
uvarints [] = []
uvarints (v ∷ rest) = uvarint v ++ uvarints rest

unfoldable pub codes_field : List ℕ → Bytes
codes_field codes = if is_empty codes then [] else delimited 0x12 (uvarints codes)

unfoldable pub allow_field : Bool → Bytes
allow_field allow = if allow then 0x8 ∷ 1 ∷ [] else []

unfoldable pub encoding : Params → Bytes
unfolding codes_field allow_field uvarints
encoding m =
    allow_field m.allow_all_code_ids
    ++ (codes_field m.allowed_code_ids
        ++ (uint_field 0x18 m.max_gas_before ++ uint_field 0x20 m.max_gas_after))

-- What the Go types give: the numbers are `uint64`, and the encoding is no longer than an `int`.
pub record InRange (m : Params) : Type 0 where
  pub codes : All IsU64 m.allowed_code_ids
  pub before : IsU64 m.max_gas_before
  pub after : IsU64 m.max_gas_after
  pub short : length (encoding m) < int_limit

pack-eq : (codes : List ℕ) → All IsU64 codes → pack codes ≡ uvarints codes
unfolding pack uvarints
pack-eq [] h = refl
pack-eq (v ∷ rest) (hv, hr) = rw (groups-eq v hv, pack-eq rest hr)

sum_sov-eq : (codes : List ℕ) → All IsU64 codes → sum_sov codes ≡ length (uvarints codes)
unfolding sum_sov uvarints
sum_sov-eq [] h = refl
sum_sov-eq (v ∷ rest) (hv, hr) =
    omega (arith, sov-eq-length v hv, sum_sov-eq rest hr, length-append (uvarint v) (uvarints rest))

pub length-uvarints : (codes : List ℕ) → length codes ≤ length (uvarints codes)
unfolding uvarints
length-uvarints [] = omega arith
length-uvarints (v ∷ rest) =
    omega (arith, length-uvarint v, length-uvarints rest, length-append (uvarint v) (uvarints rest))

packed-Writes :
    (codes : List ℕ)
    → All IsU64 codes
    → IsU64 (length (uvarints codes))
    → Writes (put_delimited 0x12 (pack codes)) (delimited 0x12 (uvarints codes))
packed-Writes codes h k = rw (pack-eq codes h) (put_delimited-Writes 0x12 (uvarints codes) k)

put_codes-Writes :
    (codes : List ℕ)
    → All IsU64 codes
    → IsU64 (length (uvarints codes))
    → Writes (put_codes codes) (codes_field codes)
unfolding put_codes codes_field
put_codes-Writes [] h k = skip-Writes
put_codes-Writes (v ∷ rest) h k = packed-Writes (v ∷ rest) h k

put_allow_all-Writes : (allow : Bool) → Writes (put_allow_all allow) (allow_field allow)
unfolding put_allow_all allow_field
put_allow_all-Writes true =
    bind-Writes (put_byte 1) (put_byte 0x8) _ _ (put_byte-Writes 1) (put_byte-Writes 0x8)
put_allow_all-Writes false = skip-Writes

size_codes-eq :
    (codes : List ℕ)
    → All IsU64 codes
    → IsU64 (length (uvarints codes))
    → (if is_empty codes then 0 else size_delimited (sum_sov codes)) ≡ length (codes_field codes)
unfolding codes_field
size_codes-eq [] h k = refl
size_codes-eq (v ∷ rest) h k =
    rw (sum_sov-eq (v ∷ rest) h) (size_delimited-eq 0x12 (uvarints (v ∷ rest)) k)

pub length-codes_field : (codes : List ℕ) → length (uvarints codes) ≤ length (codes_field codes)
unfolding codes_field uvarints
length-codes_field [] = omega arith
length-codes_field (v ∷ rest) =
    omega (arith, length-append (uvarint (length (uvarints (v ∷ rest)))) (uvarints (v ∷ rest)))

pub length-encoding :
    (m : Params)
    → length (encoding m)
      ≡ length (allow_field m.allow_all_code_ids)
        + length (codes_field m.allowed_code_ids)
        + length (uint_field 0x18 m.max_gas_before)
        + length (uint_field 0x20 m.max_gas_after)
unfolding encoding
length-encoding m = omega (
  arith,
  length-append (allow_field m.allow_all_code_ids) (
      codes_field m.allowed_code_ids
      ++ (uint_field 0x18 m.max_gas_before ++ uint_field 0x20 m.max_gas_after)),
  length-append (codes_field m.allowed_code_ids)
      (uint_field 0x18 m.max_gas_before ++ uint_field 0x20 m.max_gas_after),
  length-append (uint_field 0x18 m.max_gas_before) (uint_field 0x20 m.max_gas_after),
)

codes-fit : (m : Params) → InRange m → IsU64 (length (uvarints m.allowed_code_ids))
codes-fit m r = omega (arith, r.short, length-encoding m, length-codes_field m.allowed_code_ids)

regroup : (a b c d : Bytes) → ((a ++ b) ++ c) ++ d ≡ a ++ (b ++ (c ++ d))
regroup a b c d = simp append_assoc

pub marshal_to_sized_buffer-Writes :
    (m : Params) → InRange m → Writes (marshal_to_sized_buffer m) (encoding m)
unfolding marshal_to_sized_buffer encoding
marshal_to_sized_buffer-Writes m r =
    Writes-cast _ _ _
      (regroup (allow_field m.allow_all_code_ids) (codes_field m.allowed_code_ids) _ _)
      (bind-Writes (put_uint 0x20 m.max_gas_after) _ _ _ (put_uint-Writes 0x20 _ r.after) (
        bind-Writes (put_uint 0x18 m.max_gas_before) _ _ _ (put_uint-Writes 0x18 _ r.before) (
          bind-Writes (put_codes m.allowed_code_ids) (put_allow_all m.allow_all_code_ids) _ _
            (put_codes-Writes m.allowed_code_ids r.codes (codes-fit m r))
            (put_allow_all-Writes m.allow_all_code_ids))))

size_allow-eq : (allow : Bool) → (if allow then 2 else 0) ≡ length (allow_field allow)
unfolding allow_field
size_allow-eq true = refl
size_allow-eq false = refl

pub size-eq : (m : Params) → InRange m → size m ≡ length (encoding m)
unfolding size
size-eq m r = omega (
  arith,
  length-encoding m,
  size_allow-eq m.allow_all_code_ids,
  size_codes-eq m.allowed_code_ids r.codes (codes-fit m r),
  size_uint-eq 0x18 m.max_gas_before r.before,
  size_uint-eq 0x20 m.max_gas_after r.after,
)

pub marshal-encoding : (m : Params) → InRange m → marshal m ≡ ok (encoding m)
unfolding marshal
marshal-encoding m r =
    marshal_sized-lem (size m) (marshal_to_sized_buffer m) (encoding m)
      (marshal_to_sized_buffer-Writes m r) (size-eq m r)
