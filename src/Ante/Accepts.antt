-- ===== src/Ante/Accepts.antt =====
-- Which transactions the hook before a transaction lets through.
use abstract_account.Prelude.{◌≡◌, ◌⊎◌, inl, inr, sym, ap, ◌∙◌, Bool, Option, none, some}
use abstract_account.Result.{ok, guard, tx_decode}
use abstract_account.Exec.{lift-elim, and_then-elim}
use abstract_account.Sdk.{KvStore, Bech32, ParamsCodec}
use abstract_account.Chain.{ContractOps}
use abstract_account.Types.Account.{AbstractAccount}
use abstract_account.Ante.{Signature, Tx, Handler, AnteOps, is_abstract_account_tx, before_tx}
use abstract_account.Ante.Laws.{IsSignedBy, is_abstract_account_tx_iff}
use abstract_account.Ante.Hooks.{Authenticated, before_tx-Authenticated}

module _ {S Coin : Type 0} (kv : KvStore S) (cdc : ParamsCodec) (bech32 : Bech32) (ops : AnteOps S)
    (ck : ContractOps S Coin) where
  -- Either the transaction is no abstract account's, and the default verification has let it
  -- through, or it is one's, and it was authenticated.
  abbrev pub Accepted : Handler S → Tx → Bool → S → S → Type 0
  Accepted next tx simulate s s' =
      ((is_abstract_account_tx ops tx s ≡ (ok none, s))
        × (ops.sig_verification next tx simulate s ≡ (ok tt, s')))
      ⊎ ((acc : AbstractAccount) × (sig : Signature) × IsSignedBy ops acc sig tx s
          × Authenticated kv cdc bech32 ops ck acc sig next tx simulate s s')

  unchanged :
      (tx : Tx) (s t : S) (found : Option (AbstractAccount × Signature))
      → is_abstract_account_tx ops tx s ≡ (ok found, t)
      → is_abstract_account_tx ops tx s ≡ (ok found, s)
  unfolding is_abstract_account_tx
  unchanged tx s t found h = lift-elim (guard tx.sig_verifiable tx_decode) s _ h λ x e1 h1.
      lift-elim tx.signatures_v2 s _ h1
        λ sigs e2 h2. h ∙ ap (λ u. (ok found, u)) (sym (ap (λ r. r.1) h2))

  accepted :
      (next : Handler S) (tx : Tx) (simulate : Bool) (s s' : S)
      (found : Option (AbstractAccount × Signature))
      → is_abstract_account_tx ops tx s ≡ (ok found, s)
      → before_tx kv cdc bech32 ops ck next tx simulate s ≡ (ok tt, s')
      → Accepted next tx simulate s s'
  unfolding before_tx
  accepted next tx simulate s s' none e h = inl (e, rw e at h)
  accepted next tx simulate s s' (some (acc, sig)) e h =
      let signed = (is_abstract_account_tx_iff ops acc sig tx s).0 e in
      inr (
        acc,
        sig,
        signed,
        before_tx-Authenticated kv cdc bech32 ops ck acc sig next tx simulate s s' signed h,
      )

  pub before_tx-Accepted :
      (next : Handler S) (tx : Tx) (simulate : Bool) (s s' : S)
      → before_tx kv cdc bech32 ops ck next tx simulate s ≡ (ok tt, s')
      → Accepted next tx simulate s s'
  unfolding before_tx
  before_tx-Accepted next tx simulate s s' h =
      and_then-elim (is_abstract_account_tx ops tx s) _ h
        λ found t e rest. accepted next tx simulate s s' found (unchanged tx s t found e) h
