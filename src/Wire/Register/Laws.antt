-- ===== src/Wire/Register/Laws.antt =====
-- What `Marshal` writes for `MsgRegisterAccount`. The encoding of a coin is the SDK's: `CoinLaws` says
-- what is documented of it.
use abstract_account.Prelude.{
  ◌+◌, ◌<◌, ◌≡◌, refl, Bytes, IsU64, All, List, [], ◌∷◌, ◌++◌, length, length-append, arith,
}
use abstract_account.Result.{ok}
use abstract_account.Types.Msgs.{MsgRegisterAccount}
use abstract_account.Wire.Varint.Size.{uvarint}
use abstract_account.Wire.Varint.Write.{Writes, skip-Writes, bind-Writes, Writes-cast}
use abstract_account.Wire.Skip.{int_limit}
use abstract_account.Wire.Fields.{put_uint, put_slice, put_message}
use abstract_account.Wire.Fields.Laws.{
  uint_field, slice_field, delimited, length-slice_field, put_uint-Writes, put_slice-Writes,
  size_uint-eq, size_slice-eq, size_delimited-eq,
}
use abstract_account.Wire.Fields.Embedded.{put_message-Writes}
use abstract_account.Wire.Register.{CoinCodec, put_funds, size_funds, marshal_to_sized_buffer, size}
use mathlib.Core.List.{append_assoc}

-- The coins that fit their types are written as `encode` says, and read back.
pub record CoinLaws {Coin : Type 0} (coins : CoinCodec Coin) : Type 1 where
  pub Fits : Coin → Type 0
  pub encode : Coin → Bytes
  pub fills : (coin : Coin) → Fits coin → Writes (coins.fill coin) (encode coin)
  pub sizes : (coin : Coin) → Fits coin → coins.coin_size coin ≡ length (encode coin)
  pub reads : (coin : Coin) → Fits coin → coins.read (encode coin) ≡ ok coin

module _ {Coin : Type 0} (coins : CoinCodec Coin) (laws : CoinLaws coins) where
  unfoldable pub funds_field : List Coin → Bytes
  funds_field [] = []
  funds_field (coin ∷ rest) = delimited 0x22 (laws.encode coin) ++ funds_field rest

  -- The encoding in one expression.
  unfoldable pub encoding : MsgRegisterAccount Coin → Bytes
  encoding m =
      slice_field 0xa m.sender
      ++ (uint_field 0x10 m.code_id
          ++ (slice_field 0x1a m.msg ++ (funds_field m.funds ++ slice_field 0x2a m.salt)))

  -- What the Go types give.
  pub record InRange (m : MsgRegisterAccount Coin) : Type 0 where
    pub code_id : IsU64 m.code_id
    pub coins_fit : All laws.Fits m.funds
    pub short : length (encoding m) < int_limit

  pub length-funds_field :
      (coin : Coin) (rest : List Coin)
      → length (funds_field (coin ∷ rest))
        ≡ 1
          + (length (uvarint (length (laws.encode coin))) + length (laws.encode coin))
          + length (funds_field rest)
  unfolding funds_field
  length-funds_field coin rest =
      let e = laws.encode coin in
      omega (
        arith,
        length-append (delimited 0x22 e) (funds_field rest),
        length-append (uvarint (length e)) e,
      )

  pub length-encoding :
      (m : MsgRegisterAccount Coin)
      → length (encoding m)
        ≡ length (slice_field 0xa m.sender)
          + length (uint_field 0x10 m.code_id)
          + length (slice_field 0x1a m.msg)
          + length (funds_field m.funds)
          + length (slice_field 0x2a m.salt)
  unfolding encoding
  length-encoding m =
      let d = funds_field m.funds ++ slice_field 0x2a m.salt in
      let c = slice_field 0x1a m.msg ++ d in
      omega (
        arith,
        length-append (slice_field 0xa m.sender) (uint_field 0x10 m.code_id ++ c),
        length-append (uint_field 0x10 m.code_id) c,
        length-append (slice_field 0x1a m.msg) d,
        length-append (funds_field m.funds) (slice_field 0x2a m.salt),
      )

  put_funds-Writes :
      (funds : List Coin)
      → All laws.Fits funds
      → length (funds_field funds) < int_limit
      → Writes (put_funds coins funds) (funds_field funds)
  unfolding put_funds funds_field
  put_funds-Writes [] f h = skip-Writes
  put_funds-Writes (coin ∷ rest) f h =
      bind-Writes (put_funds coins rest) (put_message 0x22 (coins.fill coin)) _ _
        (put_funds-Writes rest f.1 (omega (arith, length-funds_field coin rest)))
        (put_message-Writes 0x22 (coins.fill coin) (laws.encode coin) (laws.fills coin f.0)
          (omega (arith, length-funds_field coin rest)))

  size_funds-eq :
      (funds : List Coin)
      → All laws.Fits funds
      → length (funds_field funds) < int_limit
      → size_funds coins funds ≡ length (funds_field funds)
  unfolding size_funds funds_field
  size_funds-eq [] f h = refl
  size_funds-eq (coin ∷ rest) f h =
      let tail = size_funds-eq rest f.1 (omega (arith, length-funds_field coin rest)) in
      let head =
        size_delimited-eq 0x22 (laws.encode coin) (omega (arith, length-funds_field coin rest)) in
      rw (laws.sizes coin f.0) (
        omega
          (arith, tail, head, length-append (delimited 0x22 (laws.encode coin)) (funds_field rest)))

  regroup : (a b c d e : Bytes) → (((a ++ b) ++ c) ++ d) ++ e ≡ a ++ (b ++ (c ++ (d ++ e)))
  regroup a b c d e = simp append_assoc

  pub writes :
      (m : MsgRegisterAccount Coin)
      → InRange m
      → Writes (marshal_to_sized_buffer coins m) (encoding m)
  unfolding marshal_to_sized_buffer encoding
  writes m r =
      Writes-cast _ _ _
        (regroup (slice_field 0xa m.sender) (uint_field 0x10 m.code_id) (slice_field 0x1a m.msg)
          (funds_field m.funds) (slice_field 0x2a m.salt))
        (bind-Writes (put_slice 0x2a m.salt) _ _ _
          (put_slice-Writes 0x2a m.salt
            (omega (arith, r.short, length-encoding m, length-slice_field 0x2a m.salt)))
          (bind-Writes (put_funds coins m.funds) _ _ _
            (put_funds-Writes m.funds r.coins_fit (omega (arith, r.short, length-encoding m)))
            (bind-Writes (put_slice 0x1a m.msg) _ _ _
              (put_slice-Writes 0x1a m.msg
                (omega (arith, r.short, length-encoding m, length-slice_field 0x1a m.msg)))
              (bind-Writes (put_uint 0x10 m.code_id) (put_slice 0xa m.sender) _ _
                (put_uint-Writes 0x10 m.code_id r.code_id)
                (put_slice-Writes 0xa m.sender
                  (omega (arith, r.short, length-encoding m, length-slice_field 0xa m.sender)))))))

  pub sized : (m : MsgRegisterAccount Coin) → InRange m → size coins m ≡ length (encoding m)
  unfolding size
  sized m r = omega (
    arith,
    length-encoding m,
    size_slice-eq 0xa m.sender
        (omega (arith, r.short, length-encoding m, length-slice_field 0xa m.sender)),
    size_uint-eq 0x10 m.code_id r.code_id,
    size_slice-eq 0x1a m.msg
        (omega (arith, r.short, length-encoding m, length-slice_field 0x1a m.msg)),
    size_funds-eq m.funds r.coins_fit (omega (arith, r.short, length-encoding m)),
    size_slice-eq 0x2a m.salt
        (omega (arith, r.short, length-encoding m, length-slice_field 0x2a m.salt)),
  )
