-- ===== src/App/Mock/Laws.antt =====
-- What the genesis state for tests has.
use abstract_account.Prelude.{
  ◌≡◌, ◌≢◌, refl, sym, ◌∙◌, Bytes, false, some, List, [], ◌∷◌, bytes_equal, bytes_equal_iff,
  Bool-cases, inl, inr,
}
use abstract_account.Result.{Result, ok, err, panicked, bind-elim, ◌>>=◌}
use abstract_account.Sdk.{AccAddress, Bech32}
use abstract_account.Types.Msgs.{parse_address}
use abstract_account.Keeper.{must}
use abstract_account.App.Keepers.{ModuleNames}
use abstract_account.App.Mock.{
  GenesisState, Balance, MockOps, gen_accts, add_all, make_mock_genesis_state,
}

module _ {Coins GenesisAccount : Type 0} (names : ModuleNames) (bech32 : Bech32)
    (ops : MockOps Coins GenesisAccount) where
  pub must-ok {ℓ} : {A : Type ℓ} (r : Result A) (a : A) → must r ≡ ok a → r ≡ ok a
  must-ok (ok b) a e = e
  must-ok (err x) a e = cc
  must-ok (panicked p) a e = cc

  there : (f gs : GenesisState) (name : Bytes) → ok f ≡ ok gs → gs name ≡ f name
  there f gs name e = cc

  differs : (a b : Bytes) → a ≢ b → bytes_equal a b ≡ false
  differs a b n = elim (Bool-cases (bytes_equal a b)) [
    | inl t ↦ absurd (n ((bytes_equal_iff a b).0 t))
    | inr f ↦ f
  ]

  -- The sum of the balances.
  abbrev pub total : List (Balance Coins) → Result Coins
  total [] = ok ops.new_coins
  total (balance ∷ rest) = do sum ← total rest; ops.add balance.coins sum

  -- Of valid coins, `Add` returns valid coins, is associative, and has no coins as its unit.
  pub record IsAdditive (IsValid : Coins → Type 0) : Type 0 where
    pub none-IsValid : IsValid ops.new_coins
    pub add-IsValid :
        (a b : Coins) → IsValid a → IsValid b → (c : Coins) × (ops.add a b ≡ ok c) × IsValid c
    pub assoc :
        (a b c ab bc : Coins)
        → IsValid a
        → IsValid b
        → IsValid c
        → ops.add a b ≡ ok ab
        → ops.add b c ≡ ok bc
        → ops.add ab c ≡ ops.add a bc
    pub left : (a : Coins) → IsValid a → ops.add ops.new_coins a ≡ ok a
    pub right : (a : Coins) → IsValid a → ops.add a ops.new_coins ≡ ok a

  module _ (IsValid : Coins → Type 0) (laws : IsAdditive IsValid) where
    -- The coins of every balance are valid.
    abbrev pub AllValid : List (Balance Coins) → Type 0
    AllValid [] = Unit
    AllValid (balance ∷ rest) = IsValid balance.coins × AllValid rest

    total-IsValid :
        (balances : List (Balance Coins))
        → AllValid balances
        → (t : Coins) × (total balances ≡ ok t) × IsValid t
    total-IsValid [] v = (ops.new_coins, refl, laws.none-IsValid)
    total-IsValid (balance ∷ rest) v =
        let (t, e, vt) = total-IsValid rest v.1 in
        let (c, ec, vc) = laws.add-IsValid balance.coins t v.0 vt in (c, rw e ec, vc)

    add_all-total :
        (supply : Coins) (balances : List (Balance Coins)) (t : Coins)
        → IsValid supply
        → AllValid balances
        → total balances ≡ ok t
        → add_all names bech32 ops supply balances ≡ ops.add supply t
    unfolding add_all
    add_all-total supply [] t vs v e =
        let same : ops.new_coins ≡ t = cc e in rw (← same) (sym (laws.right supply vs))
    add_all-total supply (balance ∷ rest) t vs v e =
        let (u, eu, vu) = total-IsValid rest v.1 in
        let (added, ea, va) = laws.add-IsValid supply balance.coins vs v.0 in
        let sum : ops.add balance.coins u ≡ ok t = rw eu at e in
        rw ea (
          add_all-total added rest u va v.1 eu
          ∙ laws.assoc supply balance.coins u added t vs v.0 vu ea sum)

    supply-total :
        (balances : List (Balance Coins)) (supply : Coins)
        → AllValid balances
        → add_all names bech32 ops ops.new_coins balances ≡ ok supply
        → total balances ≡ ok supply
    supply-total balances supply v e =
        let (t, et, vt) = total-IsValid balances v in
        let all = add_all-total ops.new_coins balances t laws.none-IsValid v et in
        let same : t ≡ supply = cc (all, laws.left t vt, e) in rw (← same) et

  -- One account for each balance, at its address and in the same order.
  abbrev pub Accounts : List (Balance Coins) → List GenesisAccount → Type 0
  Accounts [] [] = Unit
  Accounts [] (acct ∷ accts) = ⊥
  Accounts (balance ∷ rest) [] = ⊥
  Accounts (balance ∷ rest) (acct ∷ accts) =
      ((addr : AccAddress) × (parse_address bech32 balance.address ≡ ok addr)
        × (acct ≡ ops.new_base_account_with_address addr))
      × Accounts rest accts

  gen_accts-Accounts :
      (balances : List (Balance Coins)) (accts : List GenesisAccount)
      → gen_accts names bech32 ops balances ≡ ok accts
      → Accounts balances accts
  unfolding gen_accts
  gen_accts-Accounts [] [] h = tt
  gen_accts-Accounts [] (acct ∷ accts) h = cc
  gen_accts-Accounts (balance ∷ rest) all h =
      bind-elim (must (parse_address bech32 balance.address)) _ h λ addr e1 h1.
        bind-elim (gen_accts names bech32 ops rest) _ h1 λ accts e2 h2.
          let same : ops.new_base_account_with_address addr ∷ accts ≡ all = cc h2 in
          rw (← same) ((addr, must-ok _ addr e1, refl), gen_accts-Accounts rest accts e2)

  -- What the genesis state for the balances has.
  pub record IsMock (balances : List (Balance Coins)) (gs : GenesisState) : Type 0 where
    pub accts : List GenesisAccount
    pub supply : Coins
    pub auth : Bytes
    pub bank : Bytes
    pub accounts : Accounts balances accts
    pub supplied : total balances ≡ ok supply
    pub auth_made : ops.marshal_auth accts ≡ ok auth
    pub bank_made : ops.marshal_bank balances supply ≡ ok bank
    pub auth_stored : names.bank ≢ names.auth → names.poa ≢ names.auth → gs names.auth ≡ some auth
    pub bank_stored : names.poa ≢ names.bank → gs names.bank ≡ some bank
    pub kept :
        (name : Bytes)
        → names.auth ≢ name
        → names.bank ≢ name
        → names.poa ≢ name
        → gs name ≡ ops.default_genesis name

  -- When the genesis state can be made from valid balances, auth has one account for each balance,
  -- the bank's supply is the sum of the balances, and all modules but auth, bank and poa have their
  -- default genesis.
  pub make_mock_genesis_state-IsMock :
      (IsValid : Coins → Type 0) (laws : IsAdditive IsValid) (balances : List (Balance Coins))
      (gs : GenesisState)
      → AllValid IsValid laws balances
      → make_mock_genesis_state names bech32 ops balances ≡ ok gs
      → IsMock balances gs
  unfolding make_mock_genesis_state
  make_mock_genesis_state-IsMock IsValid laws balances gs v h =
      bind-elim (gen_accts names bech32 ops balances) _ h λ accts e1 h1.
        bind-elim (add_all names bech32 ops ops.new_coins balances) _ h1 λ supply e2 h2.
          bind-elim (must (ops.marshal_auth accts)) _ h2 λ auth e3 h3.
            bind-elim (must (ops.marshal_bank balances supply)) _ h3 λ bank e4 h4.
              bind-elim (must (ops.marshal_poa ops.random_consensus_pub_key)) _ h4 λ poa e5 h5.
                record {
                  accts = accts;
                  supply = supply;
                  auth = auth;
                  bank = bank;
                  accounts = gen_accts-Accounts balances accts e1;
                  supplied = supply-total IsValid laws balances supply v e2;
                  auth_made = must-ok _ auth e3;
                  bank_made = must-ok _ bank e4;
                  auth_stored = λ nb np.
                      there _ gs names.auth h5
                      ∙ rw
                          (
                            differs names.poa names.auth np,
                            differs names.bank names.auth nb,
                            (bytes_equal_iff names.auth names.auth).1 refl,
                          )
                          refl;
                  bank_stored = λ n.
                      there _ gs names.bank h5
                      ∙ rw
                          (
                            differs names.poa names.bank n,
                            (bytes_equal_iff names.bank names.bank).1 refl,
                          )
                          refl;
                  kept = λ name na nb np.
                      there _ gs name h5
                      ∙ rw
                          (
                            differs names.poa name np,
                            differs names.bank name nb,
                            differs names.auth name na,
                          )
                          refl;
                }
