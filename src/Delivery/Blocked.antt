-- ===== src/Delivery/Blocked.antt =====
-- x/abstractaccount/ante.go: what a contract that refuses the end of a transaction does to the
-- transactions of others.
use abstract_account.Prelude.{ℕ, ◌≡◌, ◌≢◌, sym, ap, ◌∙◌, subst, Bytes, true, false, some}
use abstract_account.Result.{ok}
use abstract_account.Exec.{Exec}
use abstract_account.Sdk.{AccAddress, KvStore, Bech32, ParamsCodec}
use abstract_account.Chain.{ContractOps}
use abstract_account.Types.Account.{AbstractAccount, get_address}
use abstract_account.Types.SudoMsg.Json.{json_marshal}
use abstract_account.Keeper.{get_signer_address}
use abstract_account.Ante.{
  Signature, Tx, Handler, PostHandler, AnteOps, sudo_with_gas_limit, after_tx_msg, before_tx,
  after_tx,
}
use abstract_account.Ante.Laws.{IsSignedBy}
use abstract_account.Ante.Hooks.{before_tx-Authenticated, after_tx-Finished}
use abstract_account.Delivery.{
  Succeeds, Delivers, refused, failed, undone, succeeded, Ordinary, History, start, deliver,
  Environment,
}
use abstract_account.Delivery.Signer.{kept_before, recorded}

module _ {S Coin : Type 0} (kv : KvStore S) (cdc : ParamsCodec) (bech32 : Bech32) (ops : AnteOps S)
    (ck : ContractOps S Coin) (next : Handler S) (run_msgs : Tx → Exec S (Unit {0}))
    (post_next : PostHandler S) where
  -- The contract at `addr` accepts no message that a transaction has ended.
  abbrev pub Refuses : AccAddress → Type 0
  Refuses addr =
      (message : Bytes) (gas : ℕ) (s : S)
      → json_marshal (after_tx_msg false) ≡ ok message
      → (sudo_with_gas_limit ops ck addr message gas s).0 ≢ ok tt

  -- No transaction succeeds past a first hook that leaves the address of a contract that refuses.
  checked_blocked :
      (addr : Bytes) (tx : Tx) (s s' : S)
      → Environment kv ops ck next run_msgs post_next
      → Refuses (some addr)
      → (d : Succeeds
          (before_tx kv cdc bech32 ops ck next)
          run_msgs
          (after_tx kv cdc bech32 ops ck post_next)
          s
          tx
          s')
      → get_signer_address kv d.checked ≢ some addr
  checked_blocked addr tx s s' env refuses d e =
      let executed =
        ap (λ x. get_signer_address kv x.1) (sym d.msgs_ok) ∙ env.msgs_keep tx d.checked ∙ e in
      let f =
        after_tx-Finished kv cdc bech32 ops ck addr post_next tx false true d.executed s' executed
          d.post_ok in
      refuses f.message f.params.max_gas_after _ f.encoded (ap (λ r. r.0) f.accepted)

  blocked :
      (addr : Bytes) (tx : Tx) (s s' : S)
      → Environment kv ops ck next run_msgs post_next
      → Refuses (some addr)
      → get_signer_address kv s ≡ some addr
      → Ordinary ops s tx
      → ¬ Succeeds
          (before_tx kv cdc bech32 ops ck next)
          run_msgs
          (after_tx kv cdc bech32 ops ck post_next)
          s
          tx
          s'
  blocked addr tx s s' env refuses e o d = checked_blocked addr tx s s' env refuses d (
      kept_before kv cdc bech32 ops ck next run_msgs post_next tx s d.checked (ok tt) env o
        d.ante_ok
      ∙ e)

  delivered_keeps :
      (addr : Bytes) (tx : Tx) (s s' : S)
      → Environment kv ops ck next run_msgs post_next
      → Refuses (some addr)
      → get_signer_address kv s ≡ some addr
      → Ordinary ops s tx
      → Delivers
          (before_tx kv cdc bech32 ops ck next)
          run_msgs
          (after_tx kv cdc bech32 ops ck post_next)
          s
          tx
          s'
      → get_signer_address kv s' ≡ some addr
  delivered_keeps addr tx s s' env r e o (refused n same) = ap (get_signer_address kv) same ∙ e
  delivered_keeps addr tx s s' env r e o (failed t a n same) =
      ap (get_signer_address kv) same
      ∙ kept_before kv cdc bech32 ops ck next run_msgs post_next tx s t (ok tt) env o a
      ∙ e
  delivered_keeps addr tx s s' env r e o (undone t u a m n same) =
      ap (get_signer_address kv) same
      ∙ kept_before kv cdc bech32 ops ck next run_msgs post_next tx s t (ok tt) env o a
      ∙ e
  delivered_keeps addr tx s s' env r e o (succeeded d) = absurd (blocked addr tx s s' env r e o d)

  kept_throughout :
      (addr : Bytes) (s t : S)
      → Environment kv ops ck next run_msgs post_next
      → Refuses (some addr)
      → get_signer_address kv s ≡ some addr
      → History ops
          (before_tx kv cdc bech32 ops ck next)
          run_msgs
          (after_tx kv cdc bech32 ops ck post_next)
          s
          t
      → get_signer_address kv t ≡ some addr
  kept_throughout addr s t env r e start = e
  kept_throughout addr s t env r e (deliver {u} tx h o d) =
      delivered_keeps addr tx u t env r (kept_throughout addr s u env r e h) o d

  left :
      (acc : AbstractAccount) (sig : Signature) (tx : Tx) (s t : S) (addr : Bytes)
      → Environment kv ops ck next run_msgs post_next
      → IsSignedBy ops acc sig tx s
      → get_address bech32 acc ≡ some addr
      → Refuses (some addr)
      → (before_tx kv cdc bech32 ops ck next tx false s).0 ≡ ok tt
      → Delivers
          (before_tx kv cdc bech32 ops ck next)
          run_msgs
          (after_tx kv cdc bech32 ops ck post_next)
          s
          tx
          t
      → get_signer_address kv t ≡ some addr
  left acc sig tx s t addr env signed own r a (refused n same) = absurd (n a)
  left acc sig tx s t addr env signed own r a (failed u e n same) =
      ap (get_signer_address kv) same
      ∙ recorded kv cdc bech32 ops ck next run_msgs post_next acc sig tx s u env signed e
      ∙ own
  left acc sig tx s t addr env signed own r a (undone u v e m n same) =
      ap (get_signer_address kv) same
      ∙ recorded kv cdc bech32 ops ck next run_msgs post_next acc sig tx s u env signed e
      ∙ own
  left acc sig tx s t addr env signed own r a (succeeded d) = absurd (
      checked_blocked addr tx s t env r d (
        recorded kv cdc bech32 ops ck next run_msgs post_next acc sig tx s d.checked env signed
          d.ante_ok
        ∙ own))

  -- Suppose that only this module writes the signer address. Once an abstract account's transaction
  -- that the first hook accepted has been delivered, and the account's contract refuses the message
  -- that a transaction has ended, no ordinary transaction succeeds any more, after any number of
  -- other ordinary ones.
  pub refusal_blocks :
      (acc : AbstractAccount) (sig : Signature) (tx : Tx) (s t : S)
      → Environment kv ops ck next run_msgs post_next
      → IsSignedBy ops acc sig tx s
      → (before_tx kv cdc bech32 ops ck next tx false s).0 ≡ ok tt
      → Delivers
          (before_tx kv cdc bech32 ops ck next)
          run_msgs
          (after_tx kv cdc bech32 ops ck post_next)
          s
          tx
          t
      → Refuses (get_address bech32 acc)
      → (u v : S) (tx' : Tx)
      → History ops
          (before_tx kv cdc bech32 ops ck next)
          run_msgs
          (after_tx kv cdc bech32 ops ck post_next)
          t
          u
      → Ordinary ops u tx'
      → ¬ Succeeds
          (before_tx kv cdc bech32 ops ck next)
          run_msgs
          (after_tx kv cdc bech32 ops ck post_next)
          u
          tx'
          v
  refusal_blocks acc sig tx s t env signed accepted delivered refuses u v tx' h o =
      let a =
        before_tx-Authenticated kv cdc bech32 ops ck acc sig next tx false s _ signed
          (ap (λ r. (r, (before_tx kv cdc bech32 ops ck next tx false s).1)) accepted) in
      let r = subst Refuses a.own refuses in
      let e = left acc sig tx s t a.address env signed a.own r accepted delivered in
      blocked a.address tx' u v env r (kept_throughout a.address t u env r e h) o
