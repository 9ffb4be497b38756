-- ===== src/Wire/Register/RoundTrip.antt =====
-- `Unmarshal` reads back the `MsgRegisterAccount` that `Marshal` wrote.
use abstract_account.Prelude.{
  ℕ, ◌+◌, ◌<◌, ◌≡◌, refl, sym, ap, Bytes, All, List, [], ◌∷◌, ◌++◌, length, length-append, arith,
}
use abstract_account.Result.{ok, ◌>>=◌}
use abstract_account.Types.Msgs.{MsgRegisterAccount}
use abstract_account.Wire.Varint.{Cursor}
use abstract_account.Wire.Skip.{int_limit}
use abstract_account.Wire.Message.Coded.{Coded, unmarshal-Coded}
use abstract_account.Wire.Message.{read_uint, read_slice, read_message}
use abstract_account.Wire.Message.Frame.{at_index, Parses}
use abstract_account.Wire.Fields.Laws.{
  delimited, marshal_sized-lem, Parses-cast, Parses-uint, Parses-slice, Parses-slice_last,
}
use abstract_account.Wire.Fields.Embedded.{Parses-message}
use abstract_account.Wire.Register.{
  CoinCodec, zero, marshal_to_sized_buffer, size, marshal, fields, unmarshal,
}
use mathlib.Core.List.{append_assoc, append-nil}
use abstract_account.Wire.Register.Laws.{
  CoinLaws, funds_field, encoding, InRange, length-encoding, writes, sized,
}

module _ {Coin : Type 0} (coins : CoinCodec Coin) (laws : CoinLaws coins) where
  sender_case :
      (m : MsgRegisterAccount Coin) (c : Cursor)
      → fields coins 1 2 m c ≡ read_slice (λ xs. record m { sender = xs }) c
  unfolding fields
  sender_case m c = refl

  code_id_case :
      (m : MsgRegisterAccount Coin) (c : Cursor)
      → fields coins 2 0 m c ≡ read_uint (λ v. record m { code_id = v }) c
  unfolding fields
  code_id_case m c = refl

  msg_case :
      (m : MsgRegisterAccount Coin) (c : Cursor)
      → fields coins 3 2 m c ≡ read_slice (λ xs. record m { msg = xs }) c
  unfolding fields
  msg_case m c = refl

  funds_case :
      (m : MsgRegisterAccount Coin) (c : Cursor)
      → fields coins 4 2 m c
        ≡ read_message
            (λ xs. coins.read xs >>= λ coin. ok (record m { funds = m.funds ++ (coin ∷ []) }))
            c
  unfolding fields
  funds_case m c = refl

  salt_case :
      (m : MsgRegisterAccount Coin) (c : Cursor)
      → fields coins 5 2 m c ≡ read_slice (λ xs. record m { salt = xs }) c
  unfolding fields
  salt_case m c = refl

  -- The coins one by one, behind those that are there.
  Parses-funds :
      (funds : List Coin) (i : ℕ) (m m'' : MsgRegisterAccount Coin) (more : Bytes)
      → All laws.Fits funds
      → i + length (funds_field coins laws funds) < int_limit
      → Parses
          (fields coins)
          (record m { funds = m.funds ++ funds })
          (at_index (i + length (funds_field coins laws funds)) more)
          m''
      → Parses (fields coins) m (at_index i (funds_field coins laws funds ++ more)) m''
  unfolding funds_field
  Parses-funds [] i m m'' more f h p =
      Parses-cast (fields coins) _ m m'' _ i more
        (ap (λ (l : List Coin). record m { funds = l }) (append-nil m.funds)) (omega arith) p
  Parses-funds (coin ∷ rest) i m m'' more f h p =
      let e = laws.encode coin in
      let size = length-append (delimited 0x22 e) (funds_field coins laws rest) in
      rw (append_assoc (delimited 0x22 e) (funds_field coins laws rest) more) (
        Parses-message (fields coins) 4 i e m (record m { funds = m.funds ++ (coin ∷ []) }) m'' _
          (funds_field coins laws rest ++ more) (omega arith) (omega arith) (omega (arith, size))
          (funds_case m) (rw (laws.reads coin f.0) refl)
          (Parses-funds rest _ _ m'' more f.1 (omega (arith, size)) (
            Parses-cast (fields coins) _ _ m'' _ _ more
              (ap (λ (l : List Coin). record m { funds = l })
                (sym (append_assoc m.funds (coin ∷ []) rest)))
              (omega (arith, size)) p)))

  pub parses :
      (m : MsgRegisterAccount Coin)
      → InRange coins laws m
      → (i : ℕ) → i + length (encoding coins laws m) < int_limit
      → Parses (fields coins) zero (at_index i (encoding coins laws m)) m
  unfolding encoding
  parses m r i h =
      Parses-slice (fields coins) 1 i m.sender zero m _ _ (omega arith) (omega arith)
        (omega (arith, h, length-encoding coins laws m)) (sender_case _) refl
        (Parses-uint (fields coins) 2 _ m.code_id _ m _ _ (omega arith) (omega arith) r.code_id
          (code_id_case _) refl
          (Parses-slice (fields coins) 3 _ m.msg _ m _ _ (omega arith) (omega arith)
            (omega (arith, h, length-encoding coins laws m)) (msg_case _) refl
            (Parses-funds m.funds _ _ m _ r.coins_fit
              (omega (arith, h, length-encoding coins laws m))
              (Parses-slice_last (fields coins) 5 _ m.salt _ _ (omega arith) (omega arith)
                (omega (arith, h, length-encoding coins laws m)) (salt_case _) refl))))

  pub marshal-Coded :
      (m : MsgRegisterAccount Coin)
      → InRange coins laws m
      → Coded (fields coins) zero m (marshal coins m)
  unfolding marshal
  marshal-Coded m r = record {
    encoding = encoding coins laws m;
    written =
        marshal_sized-lem (size coins m) (marshal_to_sized_buffer coins m) (encoding coins laws m)
          (writes coins laws m r) (sized coins laws m r);
    short = r.short;
    parses = parses m r;
  }

  -- By the laws of the coins' own encoding, a `MsgRegisterAccount` whose code ID is a `uint64`, whose
  -- coins fit their types and whose encoding is no longer than an `int` is marshalled, and `Unmarshal`
  -- gives it back from the bytes with all its coins in order.
  pub unmarshal-marshal_register :
      (m : MsgRegisterAccount Coin)
      → InRange coins laws m
      → (bz : Bytes) × (marshal coins m ≡ ok bz) × (unmarshal coins zero bz ≡ ok m)
  unfolding unmarshal
  unmarshal-marshal_register m r =
      unmarshal-Coded (fields coins) zero m (marshal coins m) (marshal-Coded m r)
