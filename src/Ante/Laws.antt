-- ===== src/Ante/Laws.antt =====
-- Which transactions are an abstract account's, and what a failing contract call leaves behind.
use abstract_account.Prelude.{
  ℕ, ◌≡◌, ◌≢◌, ◌↔◌, refl, ap, ◌∙◌, Bytes, Bool, true, false, some, List, [], ◌∷◌,
}
use abstract_account.Result.{Result, ok, err, panicked, guard, tx_decode}
use abstract_account.Exec.{lift-elim}
use abstract_account.Sdk.{AccAddress}
use abstract_account.Chain.{ContractOps}
use abstract_account.Types.Account.{
  AbstractAccount, Account, base_account, other_account, abs_account,
}
use abstract_account.Ante.{
  Signature, Tx, AnteOps, one_of_each, found_account, look_up, is_abstract_account_tx, keep_cache,
  sudo_with_gas_limit,
}

module _ {S : Type 0} (ops : AnteOps S) where
  -- What makes a transaction an abstract account's: it has one signer, which is an abstract
  -- account, and one signature.
  pub record IsSignedBy (acc : AbstractAccount) (sig : Signature) (tx : Tx) (s : S) : Type 0 where
    pub signer : AccAddress
    pub verifiable : tx.sig_verifiable ≡ true
    pub one_signature : tx.signatures_v2 ≡ ok (sig ∷ [])
    pub one_signer : tx.signers ≡ signer ∷ []
    pub account : ops.get_signer_acc s signer ≡ ok (abs_account acc)

  found_abstract :
      (sig sig' : Signature) (acc : AbstractAccount) (r : Result Account)
      → found_account sig r ≡ ok (some (acc, sig'))
      → (r ≡ ok (abs_account acc)) × (sig ≡ sig')
  found_abstract sig sig' acc (ok (abs_account a)) e = (cc, cc)
  found_abstract sig sig' acc (ok (base_account a)) e = cc
  found_abstract sig sig' acc (ok (other_account a)) e = cc
  found_abstract sig sig' acc (err x) e = cc
  found_abstract sig sig' acc (panicked p) e = cc

  looked_up :
      (acc : AbstractAccount) (sig : Signature) (s : S) (addrs : List AccAddress)
      (sigs : List Signature)
      → look_up ops s (one_of_each addrs sigs) ≡ ok (some (acc, sig))
      → (addr : AccAddress) × (addrs ≡ addr ∷ [])
        × (sigs ≡ sig ∷ [])
        × (ops.get_signer_acc s addr ≡ ok (abs_account acc))
  looked_up acc sig s (addr ∷ []) (sig' ∷ []) e =
      let (account, same) = found_abstract sig' sig acc (ops.get_signer_acc s addr) e in
      (addr, refl, ap (λ x. x ∷ []) same, account)
  looked_up acc sig s [] sigs e = cc
  looked_up acc sig s (a ∷ (b ∷ r)) sigs e = cc
  looked_up acc sig s (a ∷ []) [] e = cc
  looked_up acc sig s (a ∷ []) (x ∷ (y ∷ r)) e = cc

  guarded : (b : Bool) {x : Unit {0}} → guard b tx_decode ≡ ok x → b ≡ true
  guarded true e = refl
  guarded false e = cc

  -- `IsAbstractAccountTx` answers with an account and a signature exactly for the transactions
  -- that have this account for their one signer and this signature for their only one.
  pub is_abstract_account_tx_iff :
      (acc : AbstractAccount) (sig : Signature) (tx : Tx) (s : S)
      → (is_abstract_account_tx ops tx s ≡ (ok (some (acc, sig)), s)) ↔ IsSignedBy acc sig tx s
  unfolding is_abstract_account_tx
  is_abstract_account_tx_iff acc sig tx s = (
    (λ h. lift-elim (guard tx.sig_verifiable tx_decode) s _ h λ x verifiable h1.
        lift-elim tx.signatures_v2 s _ h1 λ sigs signatures h2.
          let (addr, one, only, account) = looked_up acc sig s tx.signers sigs (ap (λ r. r.0) h2) in
          record {
            signer = addr;
            verifiable = guarded _ verifiable;
            one_signature = signatures ∙ ap ok only;
            one_signer = one;
            account = account;
          }),
    λ r. rw (r.verifiable, r.one_signature, r.one_signer, r.account) refl,
  )

module _ {S Coin : Type 0} (ops : AnteOps S) (ck : ContractOps S Coin) where
  kept :
      (s : S) (r : Result Bytes × S)
      → (keep_cache ops ck s r).0 ≢ ok tt
      → (keep_cache ops ck s r).1 ≡ s
  kept s (ok b, c) n = absurd (n refl)
  kept s (err e, c) n = refl
  kept s (panicked p, c) n = refl

  -- A contract call that fails or panics changes nothing: all that the contract wrote was in the
  -- cache.
  pub sudo_with_gas_limit_atomic :
      (addr : AccAddress) (msg : Bytes) (max_gas : ℕ) (s : S)
      → (sudo_with_gas_limit ops ck addr msg max_gas s).0 ≢ ok tt
      → (sudo_with_gas_limit ops ck addr msg max_gas s).1 ≡ s
  unfolding sudo_with_gas_limit
  sudo_with_gas_limit_atomic addr msg max_gas s n = kept s _ n
