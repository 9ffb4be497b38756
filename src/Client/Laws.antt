-- ===== src/Client/Laws.antt =====
-- What the command to register an account sends.
use abstract_account.Prelude.{ℕ, ◌≡◌, ◌≢◌, refl, Bytes, IsU64, true, some, [], ◌∷◌}
use abstract_account.Prelude.Decimal.{decimal}
use abstract_account.Prelude.Decimal.Parse.{parse_uint-decimal}
use abstract_account.Result.{ok}
use abstract_account.Sdk.{Bech32}
use abstract_account.Types.Msgs.{MsgRegisterAccount, Checks, parse_address}
use abstract_account.Types.Msgs.Laws.{register_account_validate_basic_iff}
use abstract_account.Client.{ClientOps, register_msg, register_cmd}

module _ {C Coin : Type 0} (bech32 : Bech32) (checks : Checks Coin) (ops : ClientOps C Coin) where
  -- The command line gives a nonempty address to send from, a salt, and coins; these, and the
  -- contract's message, are valid.
  pub record Prepared (m : MsgRegisterAccount Coin) : Type 0 where
    pub first : ℕ
    pub rest : Bytes
    pub amount_str : Bytes
    pub from : ops.from_address ≡ ok (some (first ∷ rest))
    pub sender : m.sender ≡ bech32.to_string (some (first ∷ rest))
    pub code_id : m.code_id ≢ 0
    pub code_id_fits : IsU64 m.code_id
    pub salt : ops.salt_flag ≡ ok m.salt
    pub funds_text : ops.funds_flag ≡ ok amount_str
    pub funds : ops.parse_coins_normalized amount_str ≡ ok m.funds
    pub msg_valid : checks.msg_validate_basic m.msg ≡ ok tt
    pub funds_valid : checks.coins_is_valid m.funds ≡ true
    pub salt_valid : checks.validate_salt m.salt ≡ ok tt

  -- With a code ID in decimal digits and a message on the command line, the command sends the
  -- message that they spell, and nothing else, if all that it is made of is valid.
  pub register_cmd_sends :
      (m : MsgRegisterAccount Coin) (c : C)
      → Prepared m
      → register_cmd bech32 checks ops (decimal m.code_id ∷ m.msg ∷ []) c
        ≡ ops.broadcast_register m c
  unfolding register_cmd register_msg parse_address
  register_cmd_sends m c p =
      let own : parse_address bech32 m.sender ≡ ok (some (p.first ∷ p.rest)) =
        rw (p.sender, bech32.from-to p.first p.rest) refl in
      let valid = (register_account_validate_basic_iff bech32 checks m).1 (record {
        address = some (p.first ∷ p.rest);
        sender = own;
        code_id = p.code_id;
        msg = p.msg_valid;
        funds = p.funds_valid;
        salt = p.salt_valid;
      }) in
      rw
        (
          p.from,
          parse_uint-decimal m.code_id p.code_id_fits,
          p.salt,
          p.funds_text,
          p.funds,
          ← p.sender,
          valid,
        )
        refl
