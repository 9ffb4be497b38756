-- ===== src/Wire/Params.antt =====
-- x/abstractaccount/types/params.pb.go: the encoding of `Params`.
pub mod Laws
pub mod RoundTrip
pub mod Codec
pub mod Total
pub mod Pointer
use abstract_account.Prelude.{
  ℕ, zero, suc, ◌+◌, Bytes, Bool, true, false, not, Option, none, some, List, [], ◌∷◌, ◌++◌,
  is_empty, length, ltb, ◌==◌, if◌then◌else◌,
}
use abstract_account.Result.{Result, ok, err, panicked, out_of_fuel, proto, wrong_wire_type, ◌>>=◌}
use abstract_account.Types.Params.{Params}
use abstract_account.Wire.Varint.{Buffer, Cursor, groups, put_byte, sov, read_varint}
use abstract_account.Wire.Message.{read_length, Fields, want_type, read_uint, unmarshal_into}
use abstract_account.Wire.Fields.{
  put_uint, put_delimited, size_uint, size_delimited, put_message, marshal_sized,
}

-- The zero value, which `Reset` gives.
abbrev pub zero_params : Params
zero_params = record {
  allow_all_code_ids = false;
  allowed_code_ids = [];
  max_gas_before = 0;
  max_gas_after = 0;
}

-- The bytes of `dAtA2[:j1]`.
pack : List ℕ → Bytes
pack [] = []
pack (num ∷ rest) = groups num ++ pack rest

put_codes : List ℕ → Buffer → Result Buffer
unfolding pack
put_codes codes b =
    let field = put_delimited 0x12 (pack codes) b in if is_empty codes then ok b else field

put_allow_all : Bool → Buffer → Result Buffer
put_allow_all allow b =
    let field = (do c ← put_byte (if allow then 1 else 0) b; put_byte 0x8 c) in
    if allow then field else ok b

unfoldable pub marshal_to_sized_buffer : Params → Buffer → Result Buffer
unfolding put_codes put_allow_all
marshal_to_sized_buffer m b = do
  b1 ← put_uint 0x20 m.max_gas_after b
  b2 ← put_uint 0x18 m.max_gas_before b1
  b3 ← put_codes m.allowed_code_ids b2
  put_allow_all m.allow_all_code_ids b3

sum_sov : List ℕ → ℕ
sum_sov [] = 0
sum_sov (e ∷ rest) = sov e + sum_sov rest

unfoldable pub size : Params → ℕ
unfolding sum_sov
size m =
    (if m.allow_all_code_ids then 2 else 0)
    + (if is_empty m.allowed_code_ids then 0 else size_delimited (sum_sov m.allowed_code_ids))
    + size_uint m.max_gas_before
    + size_uint m.max_gas_after

unfoldable pub marshal : Params → Result Bytes
unfolding marshal_to_sized_buffer size
marshal m = marshal_sized (size m) (marshal_to_sized_buffer m)

-- `for iNdEx < postIndex`: the numbers of a packed list; each takes a byte at least.
unfoldable pub read_packed : ℕ → ℕ → List ℕ → Cursor → Result (List ℕ × Cursor)
read_packed zero post_index codes c = panicked out_of_fuel
read_packed (suc fuel) post_index codes c =
    let next = (do (v, d) ← read_varint c; read_packed fuel post_index (codes ++ (v ∷ [])) d) in
    if ltb c.index post_index then next else ok (codes, c)

read_codes : ℕ → Params → Cursor → Result (Option (Params × Cursor))
read_codes wire_type m c =
    let one = read_uint (λ v. record m { allowed_code_ids = m.allowed_code_ids ++ (v ∷ []) }) c in
    let packed = (do
      (len, d) ← read_length c
      (codes, e) ← read_packed (suc len) (d.index + len) m.allowed_code_ids d
      ok (some (record m { allowed_code_ids = codes }, e))) in
    if wire_type == 0 then one else if wire_type == 2 then packed else err (proto wrong_wire_type)

-- The switch of `Unmarshal`.
unfoldable pub fields : Fields Params
unfolding read_codes
fields field_num wire_type m c =
    if field_num == 1
    then want_type 0 wire_type (read_uint (λ v. record m { allow_all_code_ids = not (v == 0) }) c)
    else if field_num == 2
    then read_codes wire_type m c
    else if field_num == 3
    then want_type 0 wire_type (read_uint (λ v. record m { max_gas_before = v }) c)
    else if field_num == 4
    then want_type 0 wire_type (read_uint (λ v. record m { max_gas_after = v }) c)
    else ok none

unfoldable pub unmarshal : Params → Bytes → Result Params
unfolding fields
unmarshal = unmarshal_into fields

-- A `*Params` in another message: left out for nil.
unfoldable pub put_pointer : ℕ → Option Params → Buffer → Result Buffer
put_pointer tag none b = ok b
put_pointer tag (some p) b = put_message tag (marshal_to_sized_buffer p) b

unfoldable pub size_pointer : Option Params → ℕ
size_pointer none = 0
size_pointer (some p) = size_delimited (size p)

-- `if m.Params == nil { m.Params = &Params{} }`, then `m.Params.Unmarshal`.
unfoldable pub unmarshal_pointer : Option Params → Bytes → Result Params
unmarshal_pointer none bz = unmarshal zero_params bz
unmarshal_pointer (some p) bz = unmarshal p bz
