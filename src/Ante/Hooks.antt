-- ===== src/Ante/Hooks.antt =====
-- What the two hooks do, and what the stored signer address carries from one to the other.
use abstract_account.Prelude.{
  Option, ℕ, ◌≡◌, ◌≢◌, refl, sym, subst, ap, ◌∙◌, Bytes, Bool, false, none, some, List, ◌==◌,
  ==_iff, Bool-cases, inl, inr,
}
use abstract_account.Result.{Result, ok, err, panicked, guard, Error, wrong_sequence}
use abstract_account.Exec.{Exec, and_then, lift-elim, and_then-elim}
use abstract_account.Sdk.{AccAddress, KvStore, Bech32, ParamsCodec}
use abstract_account.Chain.{ContractOps}
use abstract_account.Types.Params.{Params}
use abstract_account.Types.Genesis.{key_params, key_signer_address}
use abstract_account.Types.Account.{AbstractAccount, get_address}
use abstract_account.Types.SudoMsg.{Any, sdk_msgs_to_anys}
use abstract_account.Types.SudoMsg.Json.{json_marshal}
use abstract_account.Keeper.{
  get_params, get_signer_address, set_signer_address, delete_signer_address,
}
use abstract_account.Keeper.Laws.{get_params_frame, get-set_ne, get-delete_ne}
use abstract_account.Ante.{
  Signature, Tx, Handler, PostHandler, AnteOps, dispatch, as_single, signer_data,
  is_abstract_account_tx, sudo_with_gas_limit, prepare_credentials, before_tx_msg, after_tx_msg,
  authenticate, before_tx, call_after_tx, after_tx,
}
use abstract_account.Ante.Laws.{IsSignedBy, is_abstract_account_tx_iff}

module _ {S Coin : Type 0} (kv : KvStore S) (cdc : ParamsCodec) (bech32 : Bech32) (ops : AnteOps S)
    (ck : ContractOps S Coin) where
  pub dispatched :
      (acc : AbstractAccount) (sig : Signature) (next : Handler S) (tx : Tx) (simulate : Bool)
      (s : S)
      → IsSignedBy ops acc sig tx s
      → before_tx kv cdc bech32 ops ck next tx simulate s
        ≡ authenticate kv cdc bech32 ops ck acc sig next tx simulate s
  unfolding before_tx
  dispatched acc sig next tx simulate s r =
      rw ((is_abstract_account_tx_iff ops acc sig tx s).1 r) refl

  guard_sequence : (a b : ℕ) {x : Unit {0}} → guard (a == b) wrong_sequence ≡ ok x → a ≡ b
  guard_sequence a b e = elim (Bool-cases (a == b)) [ inl t ↦ (==_iff a b).0 t | inr f ↦ cc ]

  pub not_equal : (a b : ℕ) → a ≢ b → (a == b) ≡ false
  not_equal a b n = elim (Bool-cases (a == b)) [ inl t ↦ absurd (n ((==_iff a b).0 t)) | inr f ↦ f ]

  -- A transaction of an abstract account, whose own address parses, with another sequence number than
  -- the account's is refused before its contract is called; all that is written is the signer
  -- address.
  pub before_tx_wrong_sequence :
      (acc : AbstractAccount) (sig : Signature) (next : Handler S) (tx : Tx) (simulate : Bool)
      (s : S) (addr : Bytes)
      → IsSignedBy ops acc sig tx s
      → get_address bech32 acc ≡ some addr
      → sig.sequence ≢ acc.sequence
      → before_tx kv cdc bech32 ops ck next tx simulate s
        ≡ (err wrong_sequence, kv.set s key_signer_address addr)
  unfolding authenticate set_signer_address
  before_tx_wrong_sequence acc sig next tx simulate s addr r e n =
      rw
        (
          dispatched acc sig next tx simulate s r,
          authenticate,
          e,
          not_equal sig.sequence acc.sequence n,
        )
        refl

  signer_set :
      (addr : AccAddress) (s t : S)
      → set_signer_address kv addr s ≡ (ok tt, t)
      → (bz : Bytes) × (addr ≡ some bz) × (t ≡ kv.set s key_signer_address bz)
  unfolding set_signer_address
  signer_set none s t e = cc
  signer_set (some bz) s t e = (bz, refl, cc)

  -- What a success of the hook has done for an abstract account, from the state `s` to `s'`.
  pub record Authenticated (acc : AbstractAccount) (sig : Signature) (next : Handler S) (tx : Tx)
      (simulate : Bool) (s s' : S) : Type 0 where
    pub address : Bytes
    pub params : Params
    pub msgs : List Any
    pub sign_bytes : Option Bytes
    pub cred_bytes : Bytes
    pub message : Bytes
    pub signed : S
    pub called : S
    pub own : get_address bech32 acc ≡ some address
    pub in_sequence : sig.sequence ≡ acc.sequence
    pub recorded : signed ≡ kv.set s key_signer_address address
    pub converted : sdk_msgs_to_anys tx.msgs ≡ ok msgs
    pub credentials :
        prepare_credentials ops bech32 tx acc sig.sig_data signed
        ≡ (ok (sign_bytes, cred_bytes), signed)
    pub encoded : json_marshal (before_tx_msg msgs sign_bytes cred_bytes simulate) ≡ ok message
    pub stored : get_params kv cdc s ≡ (ok params, s)
    pub accepted :
        sudo_with_gas_limit ops ck (some address) message params.max_gas_before signed
        ≡ (ok tt, called)
    pub finished : next tx simulate called ≡ (ok tt, s')

  prepared :
      (tx : Tx) (acc : AbstractAccount) (sig : Signature) (s t : S) (c : Option Bytes × Bytes)
      → prepare_credentials ops bech32 tx acc sig.sig_data s ≡ (ok c, t)
      → t ≡ s
  unfolding prepare_credentials
  prepared tx acc sig s t c h = lift-elim (as_single sig.sig_data) s _ h λ mode e h1.
      lift-elim (ops.get_sign_bytes mode.0 (signer_data ops bech32 s acc) tx) s _ h1
        λ bytes e' h2. sym (ap (λ r. r.1) h2)

  params_before :
      (s : S) (bz : Bytes) (p : Params) (t : S)
      → get_params kv cdc (kv.set s key_signer_address bz) ≡ (ok p, t)
      → (get_params kv cdc s ≡ (ok p, s)) × (t ≡ kv.set s key_signer_address bz)
  unfolding get_params
  params_before s bz p t h =
      let same = get-set_ne kv s key_signer_address key_params bz (λ e. cc) in
      let e = get_params_frame kv cdc s (kv.set s key_signer_address bz) same in
      (ap (λ r. (r, s)) (ap (λ r. r.0) (sym e ∙ h)), sym (ap (λ r. r.1) h))

  -- When the hook before an abstract account's transaction returns, the signature has the account's
  -- sequence number, the account's address is recorded, the contract has accepted the message made
  -- of the transaction's messages, its sign bytes and its credential, under the gas limit of the
  -- stored parameters, and the rest of the chain has run on what the contract left.
  pub before_tx-Authenticated :
      (acc : AbstractAccount) (sig : Signature) (next : Handler S) (tx : Tx) (simulate : Bool)
      (s s' : S)
      → IsSignedBy ops acc sig tx s
      → before_tx kv cdc bech32 ops ck next tx simulate s ≡ (ok tt, s')
      → Authenticated acc sig next tx simulate s s'
  unfolding authenticate
  before_tx-Authenticated acc sig next tx simulate s s' r h =
      and_then-elim (set_signer_address kv (get_address bech32 acc) s) _
        (sym (dispatched acc sig next tx simulate s r) ∙ h)
        λ x s1 set h1.
          lift-elim (guard (sig.sequence == acc.sequence) wrong_sequence) s1 _ h1 λ y same h2.
            lift-elim (sdk_msgs_to_anys tx.msgs) s1 _ h2 λ msgs converted h3.
              and_then-elim (prepare_credentials ops bech32 tx acc sig.sig_data s1) _ h3
                λ cred s2 credentials h4.
                  lift-elim (json_marshal (before_tx_msg msgs cred.0 cred.1 simulate)) s2 _ h4
                    λ message encoded h5. and_then-elim (get_params kv cdc s2) _ h5 λ p s3 read h6.
                      and_then-elim
                        (sudo_with_gas_limit ops ck (get_address bech32 acc) message
                          p.max_gas_before s3)
                        _ h6
                        λ z s4 accepted h7.
                          let (bz, own, at) = signer_set (get_address bech32 acc) s s1 set in
                          let back = prepared tx acc sig s1 s2 cred credentials in
                          let (stored, kept) =
                            params_before s bz p s3 (rw (← at) (rw (← back) read)) in
                          record {
                            address = bz;
                            params = p;
                            msgs = msgs;
                            sign_bytes = cred.0;
                            cred_bytes = cred.1;
                            message = message;
                            signed = s1;
                            called = s4;
                            own = own;
                            in_sequence = guard_sequence _ _ same;
                            recorded = at;
                            converted = converted;
                            credentials = credentials ∙ ap (λ u. (ok cred, u)) back;
                            encoded = encoded;
                            stored = stored;
                            accepted = rw (← own, at, ← kept) accepted;
                            finished = h7;
                          }

  -- What a success of the second hook has done for the stored address `addr`.
  pub record Finished (addr : Bytes) (next : PostHandler S) (tx : Tx) (simulate success : Bool)
      (s s' : S) : Type 0 where
    pub params : Params
    pub message : Bytes
    pub called : S
    pub encoded : json_marshal (after_tx_msg simulate) ≡ ok message
    pub stored : get_params kv cdc s ≡ (ok params, s)
    pub accepted :
        sudo_with_gas_limit ops ck
          (some addr)
          message
          params.max_gas_after
          (kv.delete s key_signer_address)
        ≡ (ok tt, called)
    pub finished : next tx simulate success called ≡ (ok tt, s')

  pub params_after :
      (s : S)
      → get_params kv cdc (kv.delete s key_signer_address)
        ≡ ((get_params kv cdc s).0, kv.delete s key_signer_address)
  params_after s =
      get_params_frame kv cdc s (kv.delete s key_signer_address)
        (get-delete_ne kv s key_signer_address key_params (λ e. cc))

  -- When the hook after a transaction returns and a signer address was stored, the address was
  -- deleted before the call, that address's contract has accepted the message under the gas limit
  -- of the stored parameters, and the rest of the chain has run on what the contract left.
  pub after_tx-Finished :
      (addr : Bytes) (next : PostHandler S) (tx : Tx) (simulate success : Bool) (s s' : S)
      → get_signer_address kv s ≡ some addr
      → after_tx kv cdc bech32 ops ck next tx simulate success s ≡ (ok tt, s')
      → Finished addr next tx simulate success s s'
  unfolding after_tx call_after_tx delete_signer_address get_params
  after_tx-Finished addr next tx simulate success s s' e h =
      let t = kv.delete s key_signer_address in
      lift-elim (json_marshal (after_tx_msg simulate)) t _
        (subst (λ a. call_after_tx kv cdc bech32 ops ck a next tx simulate success s ≡ (ok tt, s'))
          e h)
        λ message encoded h1. and_then-elim (get_params kv cdc t) _ h1 λ p t1 read h2.
          and_then-elim (sudo_with_gas_limit ops ck (some addr) message p.max_gas_after t1) _ h2
            λ z called accepted h3. record {
              params = p;
              message = message;
              called = called;
              encoded = encoded;
              stored = ap (λ r. (r.0, s)) (sym (params_after s) ∙ read);
              accepted = rw (ap (λ r. r.1) read) accepted;
              finished = h3;
            }

  err_stops :
      (r : Result (Unit {0}) × S) (f : Unit {0} → Exec S (Unit {0})) (e : Error)
      → r.0 ≡ err e
      → (and_then r f).0 ≡ err e
  err_stops (ok x, s) f e h = cc
  err_stops (err x, s) f e h = h
  err_stops (panicked p, s) f e h = cc

  -- A signer address that is still stored when a transaction of no abstract account comes is not
  -- cleared by the hook before it, if the default verification leaves the store alone: the hook
  -- after that transaction calls the contract at the old address and fails with its error.
  pub stale_signer_called :
      (addr message : Bytes) (p : Params) (e : Error) (next : Handler S) (post : PostHandler S)
      (tx : Tx) (simulate success : Bool) (s s' : S)
      → get_signer_address kv s ≡ some addr
      → is_abstract_account_tx ops tx s ≡ (ok none, s)
      → get_signer_address kv (ops.sig_verification next tx simulate s).1 ≡ get_signer_address kv s
      → before_tx kv cdc bech32 ops ck next tx simulate s ≡ (ok tt, s')
      → json_marshal (after_tx_msg simulate) ≡ ok message
      → get_params kv cdc s' ≡ (ok p, s')
      → (sudo_with_gas_limit ops ck
          (some addr)
          message
          p.max_gas_after
          (kv.delete s' key_signer_address)).0
        ≡ err e
      → (after_tx kv cdc bech32 ops ck post tx simulate success s').0 ≡ err e
  unfolding before_tx after_tx call_after_tx delete_signer_address
  stale_signer_called addr message p e next post tx simulate success s s' stored other kept before
        encoded params refused =
      let ran : ops.sig_verification next tx simulate s ≡ (ok tt, s') =
        subst (λ r. and_then r (dispatch kv cdc bech32 ops ck next tx simulate) ≡ (ok tt, s')) other
          before in
      let here : get_signer_address kv s' ≡ some addr =
        sym (ap (λ r. get_signer_address kv r.1) ran) ∙ kept ∙ stored in
      rw (here, encoded, params_after s', params) (err_stops _ _ e refused)
