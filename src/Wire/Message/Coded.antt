-- ===== src/Wire/Message/Coded.antt =====
-- A message with its encoding: `Unmarshal` gives it back, with unknown fields in front or without.
use abstract_account.Prelude.{ℕ, ◌+◌, ◌<◌, ◌≡◌, ap, subst, Bytes, List, ◌++◌, length, arith}
use abstract_account.Result.{Result, ok}
use abstract_account.Wire.Skip.{int_limit}
use abstract_account.Wire.Message.{Fields, unmarshal_into}
use abstract_account.Wire.Message.Frame.{at_index, Parses}
use abstract_account.Wire.Message.Unknown.{Unknown, encode_fields, AllUnknown, Parses-unknown}
use abstract_account.Wire.Fields.Laws.{unmarshal-Parses}

module _ {M : Type 0} (fields : Fields M) (start m : M) (marshalled : Result Bytes) where
  -- What is marshalled for `m` can be read into `start` from anywhere in a short input.
  pub record Coded : Type 0 where
    pub encoding : Bytes
    pub written : marshalled ≡ ok encoding
    pub short : length encoding < int_limit
    pub parses :
        (i : ℕ) → i + length encoding < int_limit → Parses fields start (at_index i encoding) m

  pub unmarshal-Coded :
      Coded → (bz : Bytes) × (marshalled ≡ ok bz) × (unmarshal_into fields start bz ≡ ok m)
  unmarshal-Coded c = (
    c.encoding,
    c.written,
    unmarshal-Parses fields start m c.encoding (c.parses 0 (omega (arith, c.short))),
  )

  pub unmarshal-unknown :
      (us : List Unknown) (bz : Bytes)
      → Coded
      → AllUnknown fields us
      → marshalled ≡ ok bz
      → length (encode_fields us) + length bz < int_limit
      → unmarshal_into fields start (encode_fields us ++ bz) ≡ ok m
  unmarshal-unknown us bz c k e fit =
      let same : c.encoding ≡ bz = cc (c.written, e) in
      let size : length c.encoding ≡ length bz = ap length same in
      unmarshal-Parses fields start m _ (
        Parses-unknown fields us 0 start m bz k (omega (arith, fit)) (
          subst (λ (b : Bytes). Parses fields start (at_index (0 + length (encode_fields us)) b) m)
            same (c.parses (0 + length (encode_fields us)) (omega (arith, fit, size)))))
