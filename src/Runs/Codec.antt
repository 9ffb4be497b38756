-- ===== src/Runs/Codec.antt =====
-- The encoding at concrete numbers and parameters.
use abstract_account.Prelude.{◌+◌, ◌≡◌, refl, Bytes, false, [], ◌∷◌, ◌++◌, length, arith}
use abstract_account.Result.{ok}
use abstract_account.Types.Params.{Params}
use abstract_account.Wire.Varint.{sov, read_varint, encode_varint, put_byte, put_bytes}
use abstract_account.Wire.Fields.{marshal_sized, put_uint, size_uint, put_delimited}
use abstract_account.Wire.Message.{unmarshal_into, read_field, read_length}
use abstract_account.Wire.Fields.Laws.{uint_field}
use abstract_account.Wire.Varint.Size.{varint, uvarint, sov-eq-length}
use abstract_account.Wire.Varint.Read.{Takes, read_varint-Takes, read_varint-uvarint}
use abstract_account.Wire.Params.{zero_params, marshal, unmarshal, read_packed}
use abstract_account.Wire.Params.Laws.{InRange, encoding}

abbrev pub some_params : Params
some_params = record {
  allow_all_code_ids = false;
  allowed_code_ids = 1 ∷ 300 ∷ [];
  max_gas_before = 88888;
  max_gas_after = 99999;
}

abbrev pub some_bytes : Bytes
some_bytes = 0x12 ∷ 3 ∷ 1 ∷ 0xac ∷ 2 ∷ 0x18 ∷ 0xb8 ∷ 0xb6 ∷ 5 ∷ 0x20 ∷ 0x9f ∷ 0x8d ∷ 6 ∷ []

pub marshalled : marshal some_params ≡ ok some_bytes
unfolding marshal marshal_sized put_uint encode_varint size_uint put_byte put_delimited put_bytes
marshalled = refl

pub read_back : unmarshal zero_params some_bytes ≡ ok some_params
unfolding unmarshal unmarshal_into read_field read_varint read_length read_packed
read_back = refl

encoded : encoding some_params ≡ some_bytes
unfolding encoding uint_field varint
encoded = refl

pub some_params-InRange : InRange some_params
some_params-InRange = record {
  codes = (omega arith, (omega arith, tt));
  before = omega arith;
  after = omega arith;
  short = rw encoded (omega arith);
}

sov-eq-length_example : sov 300 ≡ length (uvarint 300)
sov-eq-length_example = sov-eq-length 300 (omega arith)

read_300 :
    read_varint (record { index = 4; rest = 0xac ∷ 2 ∷ 7 ∷ [] })
    ≡ ok (300, record { index = 6; rest = 7 ∷ [] })
unfolding read_varint
read_300 = refl

read_varint-Takes_example :
    Takes 300 (record { index = 4; rest = 0xac ∷ 2 ∷ 7 ∷ [] }) (record { index = 6; rest = 7 ∷ [] })
read_varint-Takes_example = read_varint-Takes _ 300 _ read_300

read_varint-uvarint_example :
    read_varint (record { index = 4; rest = uvarint 300 ++ (7 ∷ []) })
    ≡ ok (300, record { index = 4 + length (uvarint 300); rest = 7 ∷ [] })
read_varint-uvarint_example = read_varint-uvarint 300 4 (7 ∷ []) (omega arith)
