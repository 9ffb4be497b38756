-- ===== src/Delivery/Registered.antt =====
-- `RegisterAccount` of x/abstractaccount/keeper/msg_server.go and the hook of ante.go together: the
-- first transactions of an account that was just registered.
use abstract_account.Prelude.{◌≡◌, sym, ap, ◌∙◌, Bool, true, none, some, [], ◌∷◌}
use abstract_account.Result.{ok}
use abstract_account.Sdk.{AccAddress, KvStore, BigEndian, Bech32, ParamsCodec}
use abstract_account.Chain.{ContractOps, AccountKeeper, EventManager}
use abstract_account.Types.Account.{AbstractAccount, Account, base_account, abs_account}
use abstract_account.Types.Msgs.{MsgRegisterAccount, MsgRegisterAccountResponse}
use abstract_account.MsgServer.{register_account}
use abstract_account.MsgServer.Register.{Registered, register_account-Registered}
use abstract_account.Ante.{Signature, Tx, Handler, AnteOps, before_tx}
use abstract_account.Ante.Laws.{IsSignedBy}
use abstract_account.Ante.Hooks.{Authenticated, before_tx-Authenticated}

module _ {S Coin : Type 0} (kv : KvStore S) (be : BigEndian) (cdc : ParamsCodec) (bech32 : Bech32)
    (ak : AccountKeeper S bech32) (ck : ContractOps S Coin) (em : EventManager S kv ak)
    (ops : AnteOps S) where
  -- The address in the response is the registered contract's.
  answered_address :
      (req : MsgRegisterAccount Coin) (s s' : S) (resp : MsgRegisterAccountResponse)
      (addr : AccAddress)
      → (r : Registered kv be cdc bech32 ak ck em req s s' resp)
      → bech32.from_bech32 resp.address ≡ (addr, none)
      → r.contract ≡ addr
  answered_address req s s' resp addr r parsed =
      let (x, a, nonempty, own) =
        ak.get_account-address r.adopted.before r.contract (base_account r.adopted.base)
          r.adopted.found in
      let text : bech32.from_bech32 resp.address ≡ (some (x ∷ a), none) =
        ap (λ (m : MsgRegisterAccountResponse). bech32.from_bech32 m.address) r.response
        ∙ (ap (λ (t : AccAddress). bech32.from_bech32 (bech32.to_string t)) nonempty
            ∙ bech32.from-to x a) in
      nonempty ∙ ap (λ p. p.0) (sym text ∙ parsed)

  -- Let an account that the account keeper finds be the one that signs under its address. Then
  -- after a registration that returns, every transaction that is signed once, by the address in the
  -- response alone, and that passes the hook before it, was authenticated: an abstract account
  -- stands at that address, the signature has its sequence number, and its contract has accepted
  -- the transaction's messages under the gas limit of the stored parameters.
  pub registered_authenticates :
      (signs : (s : S) (addr : AccAddress) (acc : Account)
        → ak.get_account s addr ≡ some acc
        → ops.get_signer_acc s addr ≡ ok acc)
      (req : MsgRegisterAccount Coin) (resp : MsgRegisterAccountResponse) (addr : AccAddress)
      (sig : Signature) (next : Handler S) (tx : Tx) (simulate : Bool) (s s' s'' : S)
      → register_account kv be cdc bech32 ak ck em req s ≡ (ok resp, s')
      → bech32.from_bech32 resp.address ≡ (addr, none)
      → tx.sig_verifiable ≡ true
      → tx.signatures_v2 ≡ ok (sig ∷ [])
      → tx.signers ≡ addr ∷ []
      → before_tx kv cdc bech32 ops ck next tx simulate s' ≡ (ok tt, s'')
      → (acc : AbstractAccount) × (acc.address ≡ resp.address)
        × (ak.get_account s' addr ≡ some (abs_account acc))
        × Authenticated kv cdc bech32 ops ck acc sig next tx simulate s' s''
  registered_authenticates signs req resp addr sig next tx simulate s s' s'' h parsed v one only e =
      let r = register_account-Registered kv be cdc bech32 ak ck em req s s' resp h in
      let same = answered_address req s s' resp addr r parsed in
      let acc : AbstractAccount = record {
        address = bech32.to_string r.contract;
        account_number = r.adopted.base.get_account_number;
        sequence = r.adopted.base.get_sequence;
      } in
      let found : ak.get_account s' addr ≡ some (abs_account acc) =
        ap (ak.get_account s') (sym same) ∙ r.adopted.becomes in
      let signed : IsSignedBy ops acc sig tx s' = record {
        signer = addr;
        verifiable = v;
        one_signature = one;
        one_signer = only;
        account = signs s' addr (abs_account acc) found;
      } in
      (
        acc,
        sym (ap (λ (m : MsgRegisterAccountResponse). m.address) r.response),
        found,
        before_tx-Authenticated kv cdc bech32 ops ck acc sig next tx simulate s' s'' signed e,
      )
