-- ===== src/Delivery/Signer.antt =====
-- x/abstractaccount/ante.go: what becomes of the signer address from one transaction to the next.
use abstract_account.Prelude.{
  ℕ, ◌≡◌, refl, sym, ap, ◌∙◌, subst, Bytes, true, false, none, some, Option-cases, inl, inr,
  bytes_equal_iff,
}
use abstract_account.Result.{Result, ok, err, panicked}
use abstract_account.Exec.{Exec}
use abstract_account.Sdk.{AccAddress, KvStore, Bech32, ParamsCodec}
use abstract_account.Chain.{ContractOps}
use abstract_account.Types.Genesis.{key_signer_address}
use abstract_account.Types.Account.{AbstractAccount, get_address}
use abstract_account.Keeper.{get_signer_address}
use abstract_account.Ante.{
  Signature, Tx, Handler, PostHandler, AnteOps, keep_cache, sudo_with_gas_limit, before_tx,
  call_after_tx, after_tx,
}
use abstract_account.Ante.Laws.{IsSignedBy}
use abstract_account.Ante.Hooks.{before_tx-Authenticated, after_tx-Finished}
use abstract_account.Delivery.{Succeeds, Ordinary, Environment}

module _ {S Coin : Type 0} (kv : KvStore S) (cdc : ParamsCodec) (bech32 : Bech32) (ops : AnteOps S)
    (ck : ContractOps S Coin) (next : Handler S) (run_msgs : Tx → Exec S (Unit {0}))
    (post_next : PostHandler S) where
  set_same : (s : S) (bz : Bytes) → get_signer_address kv (kv.set s key_signer_address bz) ≡ some bz
  unfolding get_signer_address
  set_same s bz =
      rw
        (
          kv.get-set s key_signer_address key_signer_address bz,
          (bytes_equal_iff key_signer_address key_signer_address).1 refl,
        )
        refl

  delete_same : (s : S) → get_signer_address kv (kv.delete s key_signer_address) ≡ none
  unfolding get_signer_address
  delete_same s =
      rw
        (
          kv.get-delete s key_signer_address key_signer_address,
          (bytes_equal_iff key_signer_address key_signer_address).1 refl,
        )
        refl

  cache_kept :
      (s : S) (r : Result Bytes × S)
      → Environment kv ops ck next run_msgs post_next
      → get_signer_address kv r.1 ≡ get_signer_address kv s
      → get_signer_address kv (keep_cache ops ck s r).1 ≡ get_signer_address kv s
  cache_kept s (ok x, c) env e = env.emitted c _ ∙ env.written c s ∙ e
  cache_kept s (err x, c) env e = refl
  cache_kept s (panicked x, c) env e = refl

  sudo_keeps :
      (addr : AccAddress) (msg : Bytes) (g : ℕ) (s : S)
      → Environment kv ops ck next run_msgs post_next
      → get_signer_address kv (sudo_with_gas_limit ops ck addr msg g s).1 ≡ get_signer_address kv s
  unfolding sudo_with_gas_limit
  sudo_keeps addr msg g s env =
      cache_kept s _ env (env.contract_keeps addr msg _ ∙ env.metered g _ ∙ env.cached s)

  unrecorded :
      (tx : Tx) (s : S)
      → Ordinary ops s tx
      → before_tx kv cdc bech32 ops ck next tx false s ≡ ops.sig_verification next tx false s
  unfolding before_tx
  unrecorded tx s o = rw o refl

  -- The hook before an ordinary transaction keeps the signer address.
  pub kept_before :
      (tx : Tx) (s t : S) (r : Result (Unit {0}))
      → Environment kv ops ck next run_msgs post_next
      → Ordinary ops s tx
      → before_tx kv cdc bech32 ops ck next tx false s ≡ (r, t)
      → get_signer_address kv t ≡ get_signer_address kv s
  kept_before tx s t r env o e =
      ap (λ x. get_signer_address kv x.1) (sym (sym (unrecorded tx s o) ∙ e))
      ∙ env.verification_keeps tx false s

  nothing_stored :
      (tx : Tx) (s s' : S)
      → Environment kv ops ck next run_msgs post_next
      → get_signer_address kv s ≡ none
      → after_tx kv cdc bech32 ops ck post_next tx false true s ≡ (ok tt, s')
      → get_signer_address kv s' ≡ none
  unfolding after_tx call_after_tx
  nothing_stored tx s s' env e h =
      let plain : post_next tx false true s ≡ (ok tt, s') =
        subst (λ a. call_after_tx kv cdc bech32 ops ck a post_next tx false true s ≡ (ok tt, s')) e
          h in
      ap (λ x. get_signer_address kv x.1) (sym plain) ∙ env.post_keeps tx false true s ∙ e

  something_stored :
      (addr : Bytes) (tx : Tx) (s s' : S)
      → Environment kv ops ck next run_msgs post_next
      → get_signer_address kv s ≡ some addr
      → after_tx kv cdc bech32 ops ck post_next tx false true s ≡ (ok tt, s')
      → get_signer_address kv s' ≡ none
  something_stored addr tx s s' env e h =
      let f = after_tx-Finished kv cdc bech32 ops ck addr post_next tx false true s s' e h in
      ap (λ x. get_signer_address kv x.1) (sym f.finished)
      ∙ env.post_keeps tx false true f.called
      ∙ ap (λ x. get_signer_address kv x.1) (sym f.accepted)
      ∙ sudo_keeps (some addr) f.message f.params.max_gas_after _ env
      ∙ delete_same s

  -- In an environment in which only this module writes the signer address, no address is stored any
  -- more after a transaction that has succeeded with the two hooks around its messages, whosever it
  -- is and whatever was stored before.
  pub succeeded_clears :
      (tx : Tx) (s s' : S)
      → Environment kv ops ck next run_msgs post_next
      → Succeeds
          (before_tx kv cdc bech32 ops ck next)
          run_msgs
          (after_tx kv cdc bech32 ops ck post_next)
          s
          tx
          s'
      → get_signer_address kv s' ≡ none
  succeeded_clears tx s s' env d = elim (Option-cases (get_signer_address kv d.executed)) [
    | inl e ↦ nothing_stored tx d.executed s' env e d.post_ok
    | inr (addr, e) ↦ something_stored addr tx d.executed s' env e d.post_ok
  ]

  -- What the hook before an abstract account's transaction leaves stored.
  pub recorded :
      (acc : AbstractAccount) (sig : Signature) (tx : Tx) (s t : S)
      → Environment kv ops ck next run_msgs post_next
      → IsSignedBy ops acc sig tx s
      → before_tx kv cdc bech32 ops ck next tx false s ≡ (ok tt, t)
      → get_signer_address kv t ≡ get_address bech32 acc
  recorded acc sig tx s t env signed h =
      let a = before_tx-Authenticated kv cdc bech32 ops ck acc sig next tx false s t signed h in
      ap (λ x. get_signer_address kv x.1) (sym a.finished)
      ∙ env.next_keeps tx false a.called
      ∙ ap (λ x. get_signer_address kv x.1) (sym a.accepted)
      ∙ sudo_keeps (some a.address) a.message a.params.max_gas_before a.signed env
      ∙ ap (get_signer_address kv) a.recorded
      ∙ set_same s a.address
      ∙ sym a.own
