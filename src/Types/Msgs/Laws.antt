-- ===== src/Types/Msgs/Laws.antt =====
-- Which registrations pass the stateless check.
use abstract_account.Prelude.{
  ℕ, ◌≡◌, ◌≢◌, ◌↔◌, refl, Bool, true, false, not, ◌==◌, ==_iff, Bool-cases, inl, inr,
}
use abstract_account.Result.{
  Result, ok, err, panicked, Error, invalid_request, invalid_coins, guard, bind-elim,
}
use abstract_account.Sdk.{AccAddress, Bech32}
use abstract_account.Types.Msgs.{
  MsgRegisterAccount, Checks, parse_address, replace_error, register_account_validate_basic,
}

replaced-ok {ℓ} :
    {A : Type ℓ} (e : Error) (r : Result A) (a : A) → replace_error e r ≡ ok a → r ≡ ok a
replaced-ok e (ok b) a h = h
replaced-ok e (err x) a h = cc
replaced-ok e (panicked p) a h = cc

nonzero : (n : ℕ) {x : Unit {0}} → guard (not (n == 0)) invalid_request ≡ ok x → n ≢ 0
nonzero n h z = elim (Bool-cases (n == 0)) [
  | inl t ↦ let b : guard (not (n == 0)) invalid_request ≡ err invalid_request = rw t refl in cc
  | inr f ↦ cc (f, (==_iff n 0).1 z)
]

nonzero_test : (n : ℕ) → n ≢ 0 → (n == 0) ≡ false
nonzero_test n h = elim (Bool-cases (n == 0)) [ inl t ↦ absurd (h ((==_iff n 0).0 t)) | inr f ↦ f ]

is_true : (b : Bool) (e : Error) {x : Unit {0}} → guard b e ≡ ok x → b ≡ true
is_true true e h = refl
is_true false e h = cc

module _ (bech32 : Bech32) {Coin : Type 0} (checks : Checks Coin) where
  -- What the comments of tx.go ask for.
  pub record IsValidMsg (m : MsgRegisterAccount Coin) : Type 0 where
    pub address : AccAddress
    pub sender : parse_address bech32 m.sender ≡ ok address
    pub code_id : m.code_id ≢ 0
    pub msg : checks.msg_validate_basic m.msg ≡ ok tt
    pub funds : checks.coins_is_valid m.funds ≡ true
    pub salt : checks.validate_salt m.salt ≡ ok tt

  -- The stateless check passes exactly the messages whose sender is an address, whose code ID is not
  -- 0, and whose message, funds and salt are valid.
  pub register_account_validate_basic_iff :
      (m : MsgRegisterAccount Coin)
      → (register_account_validate_basic bech32 checks m ≡ ok tt) ↔ IsValidMsg m
  unfolding register_account_validate_basic
  register_account_validate_basic_iff m = (
    (λ h.
        bind-elim (replace_error invalid_request (parse_address bech32 m.sender)) _ h λ addr e1 h1.
          bind-elim (guard (not (m.code_id == 0)) invalid_request) _ h1 λ u e2 h2.
            bind-elim (replace_error invalid_request (checks.msg_validate_basic m.msg)) _ h2
              λ v e3 h3.
                bind-elim (guard (checks.coins_is_valid m.funds) invalid_coins) _ h3 λ w e4 h4.
                  record {
                    address = addr;
                    sender = replaced-ok _ _ addr e1;
                    code_id = nonzero m.code_id e2;
                    msg = replaced-ok _ _ v e3;
                    funds = is_true _ _ e4;
                    salt = h4;
                  }),
    λ r. rw (r.sender, nonzero_test m.code_id r.code_id, r.msg, r.funds, r.salt) refl,
  )
