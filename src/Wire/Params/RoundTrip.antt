-- ===== src/Wire/Params/RoundTrip.antt =====
-- `Unmarshal` reads back the `Params` that `Marshal` wrote.
use abstract_account.Prelude.{
  ℕ, zero, suc, ◌+◌, ◌<◌, ◌≡◌, refl, ◌∙◌, Bytes, IsU64, Bool, true, false, List, [], ◌∷◌, ◌++◌,
  length, length-append, All, lt→ltb, arith,
}
use abstract_account.Result.{ok}
use abstract_account.Types.Params.{Params}
use abstract_account.Wire.Varint.{Cursor, read_varint}
use abstract_account.Wire.Varint.Size.{uvarint}
use abstract_account.Wire.Varint.Read.{read_varint-uvarint, length-uvarint}
use abstract_account.Wire.Skip.{int_limit}
use abstract_account.Wire.Message.Coded.{Coded, unmarshal-Coded}
use abstract_account.Wire.Message.{read_uint}
use abstract_account.Wire.Message.Frame.{at_index, Parses, Parses-field, read_length-lem, read_tag}
use abstract_account.Wire.Fields.Laws.{Parses-cast, Parses-uint, Parses-uint_last}
use abstract_account.Wire.Params.{zero_params, marshal, read_packed, fields, unmarshal}
use abstract_account.Wire.Params.Laws.{
  uvarints, codes_field, allow_field, encoding, InRange, length-encoding, marshal-encoding,
}
use mathlib.Core.List.{append_assoc, append-nil}

read_packed_step :
    (fuel post i v : ℕ) (acc : List ℕ) (r : Bytes) (d : Cursor)
    → i < post
    → read_varint (at_index i r) ≡ ok (v, d)
    → read_packed (suc fuel) post acc (at_index i r) ≡ read_packed fuel post (acc ++ (v ∷ [])) d
unfolding read_packed
read_packed_step fuel post i v acc r d h e = rw (lt→ltb i post h, e) refl

read_packed-uvarints :
    (codes acc : List ℕ) (fuel i post : ℕ) (more : Bytes)
    → All IsU64 codes
    → length (uvarints codes) < fuel
    → post ≡ i + length (uvarints codes)
    → read_packed fuel post acc (at_index i (uvarints codes ++ more))
      ≡ ok (acc ++ codes, at_index post more)
unfolding uvarints
read_packed-uvarints codes acc zero i post more h k e = elim k [ ]
read_packed-uvarints [] acc (suc fuel) i post more h k e =
    unfold read_packed in rw append-nil (ground arith)
read_packed-uvarints (v ∷ rest) acc (suc fuel) i post more (hv, hr) k e =
    let size : length (uvarint v ++ uvarints rest) ≡ length (uvarint v) + length (uvarints rest) =
      length-append (uvarint v) (uvarints rest) in
    rw (append_assoc (uvarint v) (uvarints rest) more) (
      read_packed_step fuel post i v acc _ _ (omega (arith, length-uvarint v))
        (read_varint-uvarint v i (uvarints rest ++ more) hv)
      ∙ read_packed-uvarints rest (acc ++ (v ∷ [])) fuel (i + length (uvarint v)) post more hr
          (omega (arith, length-uvarint v)) (omega arith)
      ∙ rw (append_assoc acc (v ∷ []) rest) refl)

-- The field of code IDs, read into a message that has none yet.
Parses-codes :
    (codes : List ℕ) (i : ℕ) (m m'' : Params) (more : Bytes)
    → All IsU64 codes
    → i + length (codes_field codes) < int_limit
    → m.allowed_code_ids ≡ []
    → Parses fields
        (record m { allowed_code_ids = codes })
        (at_index (i + length (codes_field codes)) more)
        m''
    → Parses fields m (at_index i (codes_field codes ++ more)) m''
unfolding codes_field fields
Parses-codes [] i m m'' more h k e p =
    Parses-cast fields _ _ m'' _ i more (ground arith) (omega arith) p
Parses-codes (v ∷ rest) i m m'' more h k e p =
    let codes : List ℕ = v ∷ rest in
    let body : Bytes = uvarints (v ∷ rest) in
    let size : length (uvarint (length body) ++ body)
        ≡ length (uvarint (length body)) + length body =
      length-append (uvarint (length body)) body in
    let j : ℕ = i + 1 + length (uvarint (length body)) + length body in
    Parses-field fields 2 2 i j m (record m { allowed_code_ids = v ∷ rest }) m''
      (uvarint (length body) ++ body) more (omega arith) (omega arith) (omega arith) (omega arith)
      (rw (append_assoc (uvarint (length body)) body more) (
        rw
          (read_length-lem (length body) (i + 1) (body ++ more)
            (omega (arith, length-append body more)) (omega arith))
          (rw e (
            rw
              (read_packed-uvarints (v ∷ rest) [] (suc (length body))
                (i + 1 + length (uvarint (length body))) j more h (omega arith) (omega arith))
              refl))))
      (Parses-cast fields _ _ m'' _ j more refl (omega arith) p)

Parses-allow :
    (allow : Bool) (i : ℕ) (m m'' : Params) (more : Bytes)
    → m.allow_all_code_ids ≡ false
    → Parses fields
        (record m { allow_all_code_ids = allow })
        (at_index (i + length (allow_field allow)) more)
        m''
    → Parses fields m (at_index i (allow_field allow ++ more)) m''
unfolding allow_field fields
Parses-allow false i m m'' more e p =
    Parses-cast fields _ _ m'' _ i more (ground arith) (omega arith) p
Parses-allow true i m m'' more e p =
    Parses-field fields 1 0 i (i + 2) m _ m'' (1 ∷ []) more (omega arith) (omega arith)
      (omega arith) (omega arith) (rw (read_tag 1 (i + 1) more (omega arith)) (ground arith)) p

before_case :
    (m : Params) (c : Cursor) → fields 3 0 m c ≡ read_uint (λ v. record m { max_gas_before = v }) c
unfolding fields
before_case m c = refl

after_case :
    (m : Params) (c : Cursor) → fields 4 0 m c ≡ read_uint (λ v. record m { max_gas_after = v }) c
unfolding fields
after_case m c = refl

pub Parses-encoding :
    (m : Params)
    → InRange m
    → (i : ℕ) → i + length (encoding m) < int_limit
    → Parses fields zero_params (at_index i (encoding m)) m
unfolding encoding
Parses-encoding m r i h =
    let fit : i
          + length (codes_field m.allowed_code_ids)
          + length (allow_field m.allow_all_code_ids)
        < int_limit =
      omega (arith, h, length-encoding m) in
    Parses-allow m.allow_all_code_ids i zero_params m _ refl (
      Parses-codes m.allowed_code_ids _ _ m _ r.codes (omega arith) refl (
        Parses-uint fields 3 _ m.max_gas_before _ m _ _ (omega arith) (omega arith) r.before
          (before_case _) refl
          (Parses-uint_last fields 4 _ m.max_gas_after _ _ (omega arith) (omega arith) r.after
            (after_case _) refl)))

pub marshal-Coded : (m : Params) → InRange m → Coded fields zero_params m (marshal m)
marshal-Coded m r = record {
  encoding = encoding m;
  written = marshal-encoding m r;
  short = r.short;
  parses = Parses-encoding m r;
}

-- Whatever parameters are marshalled, `Unmarshal` gives them back, if they fit their Go types.
pub unmarshal-marshal :
    (m : Params)
    → InRange m
    → (bz : Bytes) × (marshal m ≡ ok bz) × (unmarshal zero_params bz ≡ ok m)
unfolding unmarshal
unmarshal-marshal m r = unmarshal-Coded fields zero_params m (marshal m) (marshal-Coded m r)
