-- ===== src/MsgServer/Register.antt =====
-- `RegisterAccount`: what a success has done, and which errors leave what behind.
use abstract_account.Prelude.{
  ◌≡◌, refl, sym, ap, subst, ◌∙◌, Bytes, Bool, true, false, Option, none, some, ◌∷◌,
}
use abstract_account.Result.{ok, guard, Error, not_allowed_code_id}
use abstract_account.Exec.{and_then-elim, lift-elim}
use abstract_account.Sdk.{AccAddress, KvStore, BigEndian, Bech32, ParamsCodec}
use abstract_account.Chain.{ContractOps, AccountKeeper, EventManager}
use abstract_account.Types.Params.{Params, is_allowed}
use abstract_account.Types.Account.{
  SdkAccount, Account, base_account, abs_account, account_address, get_address,
  new_abstract_account_from_account,
}
use abstract_account.Types.Msgs.{
  EventAccountRegistered, MsgRegisterAccount, MsgRegisterAccountResponse, parse_address,
}
use abstract_account.Keeper.{get_params, get_next_account_id, get_and_increment_next_account_id}
use abstract_account.Keeper.Laws.{get_and_increment_lem}
use abstract_account.MsgServer.{label, as_base_account, adopt, register_account}

module _ {S Coin : Type 0} (kv : KvStore S) (be : BigEndian) (cdc : ParamsCodec) (bech32 : Bech32)
    (ak : AccountKeeper S bech32) (ck : ContractOps S Coin) (em : EventManager S kv ak) where
  -- The abstract account that takes the place of a contract's base account.
  abbrev pub successor : AccAddress → SdkAccount → Account
  successor contract base = abs_account (record {
    address = bech32.to_string contract;
    account_number = base.get_account_number;
    sequence = base.get_sequence;
  })

  -- What `adopt` has done when it returns.
  pub record Adopted (sender contract : AccAddress) (s s' : S) : Type 0 where
    pub before : S
    pub base : SdkAccount
    pub admin : ck.update_contract_admin contract sender contract s ≡ (ok tt, before)
    pub found : ak.get_account before contract ≡ some (base_account base)
    pub becomes : ak.get_account s' contract ≡ some (successor contract base)

  as_base :
      (o : Option Account) (a : Account)
      → as_base_account o ≡ ok a
      → (b : SdkAccount) × (a ≡ base_account b) × (o ≡ some (base_account b))
  as_base none a e = cc
  as_base (some (base_account b)) a e = (b, cc, refl)
  as_base (some _) a e = cc

  abbrev event : MsgRegisterAccount Coin → AccAddress → EventAccountRegistered
  event req contract = record {
    creator = req.sender;
    code_id = req.code_id;
    contract_addr = bech32.to_string contract;
  }

  -- A base account that is found at its address is replaced there.
  replaced :
      (s : S) (contract : AccAddress) (base : SdkAccount) (e : EventAccountRegistered)
      → ak.get_account s contract ≡ some (base_account base)
      → ak.get_account
          (em.emit_typed_event e (
            ak.set_account s
              (abs_account (new_abstract_account_from_account bech32 (base_account base))))).1
          contract
        ≡ some (successor contract base)
  unfolding new_abstract_account_from_account get_address
  replaced s contract base e found =
      let (x, a, nonempty, own) = ak.get_account-address s contract (base_account base) found in
      let new : Account =
        abs_account (new_abstract_account_from_account bech32 (base_account base)) in
      let text : bech32.to_string base.get_address ≡ bech32.to_string (some (x ∷ a)) =
        ap bech32.to_string (own ∙ nonempty) in
      let addr : account_address bech32 new ≡ some (x ∷ a) =
        ap (λ t. (bech32.from_bech32 t).0) text ∙ ap (λ r. r.0) (bech32.from-to x a) in
      rw (em.emit-accounts e (ak.set_account s new) contract, nonempty)
        (ak.get-set_account s new x a addr
          ∙ ap
              (λ t. some (
                abs_account (record {
                  address = t;
                  account_number = base.get_account_number;
                  sequence = base.get_sequence;
                })))
              text)

  adopt-Adopted :
      (req : MsgRegisterAccount Coin) (sender contract : AccAddress) (bytes : Bytes) (s s' : S)
      (resp : MsgRegisterAccountResponse)
      → adopt kv be cdc bech32 ak ck em req sender contract bytes s ≡ (ok resp, s')
      → Adopted sender contract s s'
        × (resp ≡ record { address = bech32.to_string contract; bytes = bytes })
  unfolding adopt
  adopt-Adopted req sender contract bytes s s' resp h =
      and_then-elim (ck.update_contract_admin contract sender contract s) _ h λ x s1 admin h1.
        lift-elim (as_base_account (ak.get_account s1 contract)) s1 _ h1 λ acc checked h2.
          and_then-elim
            (em.emit_typed_event (event req contract)
              (ak.set_account s1 (abs_account (new_abstract_account_from_account bech32 acc))))
            _ h2
            λ y s2 emitted h3.
              let (base, is_base, found) = as_base (ak.get_account s1 contract) acc checked in
              (
                record {
                  before = s1;
                  base = base;
                  admin = admin;
                  found = found;
                  becomes =
                      subst (λ t. ak.get_account t contract ≡ some (successor contract base))
                        (ap
                            (λ a.
                              (em.emit_typed_event (event req contract) (
                                ak.set_account s1
                                  (abs_account (new_abstract_account_from_account bech32 a)))).1)
                            (sym is_base)
                          ∙ ap (λ r. r.1) emitted
                          ∙ cc h3)
                        (replaced s1 contract base (event req contract) found);
                },
                cc h3,
              )

  guard-ok : (b : Bool) (e : Error) {x : Unit {0}} → guard b e ≡ ok x → b ≡ true
  guard-ok true e h = refl
  guard-ok false e h = cc

  -- What a registration has done when it returns.
  pub record Registered (req : MsgRegisterAccount Coin) (s s' : S)
      (resp : MsgRegisterAccountResponse) : Type 0 where
    pub params : Params
    pub sender : AccAddress
    pub contract : AccAddress
    pub bytes : Bytes
    pub counted : S
    pub instantiated : S
    pub stored : get_params kv cdc s ≡ (ok params, s)
    pub allowed : is_allowed params req.code_id ≡ true
    pub parsed : parse_address bech32 req.sender ≡ ok sender
    pub moved :
        get_and_increment_next_account_id kv be s ≡ (ok (get_next_account_id kv be s), counted)
    pub instance_made :
        ck.instantiate2 req.code_id sender sender req.msg
          (label (get_next_account_id kv be s))
          req.funds
          req.salt
          false
          counted
        ≡ (ok (contract, bytes), instantiated)
    pub adopted : Adopted sender contract instantiated s'
    pub rest :
        adopt kv be cdc bech32 ak ck em req sender contract bytes instantiated ≡ (ok resp, s')
    pub response : resp ≡ record { address = bech32.to_string contract; bytes = bytes }

  -- A registration that returns has found the code ID allowed by the stored parameters, has taken
  -- the counter's value for the label and moved the counter before it called the contract, has
  -- instantiated the contract for the sender with the request's message, funds and salt, has made
  -- the contract its own admin, and has turned its base account into an abstract account with the
  -- same address, number and sequence. The response is the contract's address and its data.
  pub register_account-Registered :
      (req : MsgRegisterAccount Coin) (s s' : S) (resp : MsgRegisterAccountResponse)
      → register_account kv be cdc bech32 ak ck em req s ≡ (ok resp, s')
      → Registered req s s' resp
  unfolding register_account get_params
  register_account-Registered req s s' resp h =
      lift-elim (get_params kv cdc s).0 s _ h λ p stored h1.
        lift-elim (guard (is_allowed p req.code_id) not_allowed_code_id) s _ h1 λ x allowed h2.
          lift-elim (parse_address bech32 req.sender) s _ h2 λ sender parsed h3.
            and_then-elim (get_and_increment_next_account_id kv be s) _ h3 λ id s1 moved h4.
              and_then-elim
                (ck.instantiate2 req.code_id sender sender req.msg (label id) req.funds req.salt
                  false s1)
                _ h4
                λ made s2 instance_made h5.
                  let (t, e, next, rest) = get_and_increment_lem kv be s in
                  let same : id ≡ get_next_account_id kv be s = cc (moved, e) in
                  let (adopted, response) = adopt-Adopted req sender made.0 made.1 s2 s' resp h5 in
                  record {
                    params = p;
                    sender = sender;
                    contract = made.0;
                    bytes = made.1;
                    counted = s1;
                    instantiated = s2;
                    stored = ap (λ r. (r, s)) stored;
                    allowed = guard-ok _ _ allowed;
                    parsed = parsed;
                    moved = rw (← same) moved;
                    instance_made = rw (← same) instance_made;
                    adopted = adopted;
                    rest = h5;
                    response = response;
                  }
