-- ===== src/Delivery.antt =====
-- Transactions one after another: the hooks of x/abstractaccount/ante.go around the messages. How
-- the base application runs a transaction is an assumption, that of the SDK's documentation and of
-- the comment in `PostHandle`: what the first handler writes is kept if it succeeds, the messages
-- and the second handler share a cache that is kept if both succeed, and the second handler runs
-- only after messages that succeeded.
pub mod Signer
pub mod Blocked
pub mod Registered
use abstract_account.Prelude.{
  ℕ, ◌≡◌, ◌≢◌, Bytes, Bool, true, false, Option, none, some, List, [], ◌∷◌,
}
use abstract_account.Result.{Result, ok}
use abstract_account.Exec.{Exec}
use abstract_account.Sdk.{AccAddress, KvStore, Bech32, ParamsCodec}
use abstract_account.Chain.{ContractOps}
use abstract_account.Keeper.{get_signer_address}
use abstract_account.Ante.{
  Tx, Handler, PostHandler, AnteOps, is_abstract_account_tx, before_tx, after_tx,
}

module _ {S : Type 0} (ante : Handler S) (run_msgs : Tx → Exec S (Unit {0}))
    (post : PostHandler S) where
  -- The transaction succeeds, and leaves `s'`.
  pub record Succeeds (s : S) (tx : Tx) (s' : S) : Type 0 where
    pub checked : S
    pub executed : S
    pub ante_ok : ante tx false s ≡ (ok tt, checked)
    pub msgs_ok : run_msgs tx checked ≡ (ok tt, executed)
    pub post_ok : post tx false true executed ≡ (ok tt, s')

  -- The transaction is run in `s`, with whatever result, and leaves `s'`.
  pub data Delivers (s : S) (tx : Tx) (s' : S) : Type 0 where
    refused : (ante tx false s).0 ≢ ok tt → s' ≡ s → Delivers s tx s'
    failed :
        (t : S)
        → ante tx false s ≡ (ok tt, t)
        → (run_msgs tx t).0 ≢ ok tt
        → s' ≡ t
        → Delivers s tx s'
    undone :
        (t u : S)
        → ante tx false s ≡ (ok tt, t)
        → run_msgs tx t ≡ (ok tt, u)
        → (post tx false true u).0 ≢ ok tt
        → s' ≡ t
        → Delivers s tx s'
    succeeded : Succeeds s tx s' → Delivers s tx s'

module _ {S : Type 0} (ops : AnteOps S) where
  -- A transaction of no abstract account.
  abbrev pub Ordinary : S → Tx → Type 0
  Ordinary s tx = is_abstract_account_tx ops tx s ≡ (ok none, s)

module _ {S : Type 0} (ops : AnteOps S) (ante : Handler S) (run_msgs : Tx → Exec S (Unit {0}))
    (post : PostHandler S) where
  -- Any number of ordinary transactions from `s` on.
  pub data History (s : S) : S → Type 0 where
    start : History s s
    deliver :
        {u t : S} (tx : Tx)
        → History s u
        → Ordinary ops u tx
        → Delivers ante run_msgs post u tx t
        → History s t

module _ {S Coin : Type 0} (kv : KvStore S) (ops : AnteOps S) (ck : ContractOps S Coin)
    (next : Handler S) (run_msgs : Tx → Exec S (Unit {0})) (post_next : PostHandler S) where
  -- Only this module writes the signer address: the rest of the handlers, the messages, and the
  -- contracts leave it alone, and a cache is a copy.
  pub record Environment : Type 0 where
    pub next_keeps :
        (tx : Tx) (simulate : Bool) (s : S)
        → get_signer_address kv (next tx simulate s).1 ≡ get_signer_address kv s
    pub verification_keeps :
        (tx : Tx) (simulate : Bool) (s : S)
        → get_signer_address kv (ops.sig_verification next tx simulate s).1
          ≡ get_signer_address kv s
    pub msgs_keep :
        (tx : Tx) (s : S) → get_signer_address kv (run_msgs tx s).1 ≡ get_signer_address kv s
    pub post_keeps :
        (tx : Tx) (simulate success : Bool) (s : S)
        → get_signer_address kv (post_next tx simulate success s).1 ≡ get_signer_address kv s
    pub contract_keeps :
        (addr : AccAddress) (msg : Bytes) (s : S)
        → get_signer_address kv (ck.sudo addr msg s).1 ≡ get_signer_address kv s
    pub cached : (s : S) → get_signer_address kv (ops.cache_context s) ≡ get_signer_address kv s
    pub metered :
        (g : ℕ) (s : S) → get_signer_address kv (ops.with_gas_meter g s) ≡ get_signer_address kv s
    pub written :
        (cache s : S) → get_signer_address kv (ops.write cache s) ≡ get_signer_address kv cache
    pub emitted :
        (cache s : S) → get_signer_address kv (ops.emit_events_of cache s) ≡ get_signer_address kv s
