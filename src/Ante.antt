-- ===== src/Ante.antt =====
-- x/abstractaccount/ante.go: the decorators that run before and after the messages of a transaction.
pub mod Laws
pub mod Decorators
pub mod Hooks
pub mod Accepts
use abstract_account.Prelude.{
  ℕ, Bytes, Bool, true, false, Option, none, some, List, [], ◌∷◌, ◌==◌, if◌then◌else◌,
}
use abstract_account.Result.{
  Result, ok, err, panicked, guard, wrong_sequence, tx_decode, not_single_signature,
}
use abstract_account.Exec.{Exec, ◌>>=◌, ◌>>◌, and_then, pure, throw, lift, gets, modify}
use abstract_account.Sdk.{AccAddress, KvStore, Bech32, ParamsCodec}
use abstract_account.Types.Params.{Params}
use abstract_account.Types.Account.{
  AbstractAccount, PubKey, nil_pub_key, other_key, Account, base_account, other_account,
  abs_account, get_address, get_pub_key,
}
use abstract_account.Types.SudoMsg.{Msg, Any, AccountSudoMsg, sdk_msgs_to_anys}
use abstract_account.Types.SudoMsg.Json.{json_marshal}
use abstract_account.Chain.{ContractOps}
use abstract_account.Keeper.{
  get_params, get_signer_address, set_signer_address, delete_signer_address,
}

-- `txsigning.SignatureData`: a single signature, or one of several keys.
pub data SignatureData : Type 0 where
  single : ℕ → Bytes → SignatureData
  multi : SignatureData

pub record Signature : Type 0 where
  pub pub_key : PubKey
  pub sig_data : SignatureData
  pub sequence : ℕ

-- An `sdk.Tx`, by what its methods return; `sig_verifiable` says that it is a `SigVerifiableTx`.
pub record Tx : Type 0 where
  pub sig_verifiable : Bool
  pub signatures_v2 : Result (List Signature)
  pub signers : List AccAddress
  pub msgs : List Msg

pub record SignerData : Type 0 where
  pub address : Bytes
  pub chain_id : Bytes
  pub account_number : ℕ
  pub sequence : ℕ
  pub pub_key : PubKey

-- `sdk.AnteHandler`: the rest of the chain; the new context is part of the state.
abbrev pub Handler : Type 0 → Type 0
Handler S = Tx → Bool → Exec S (Unit {0})

-- What the decorators take from the auth module and from the SDK's context. A cache context is a
-- copy, and `write` is the function that comes with it: its second argument is the copy as it
-- stands then.
pub record AnteOps (S : Type 0) : Type 0 where
  pub get_signer_acc : S → AccAddress → Result Account
  pub sig_verification : Handler S → Handler S
  pub sig_gas : Signature → Exec S (Unit {0})
  pub get_sign_bytes : ℕ → SignerData → Tx → Result (Option Bytes)
  pub chain_id : S → Bytes
  pub cache_context : S → S
  pub with_gas_meter : ℕ → S → S
  pub write : S → S → S
  pub emit_events_of : S → S → S

-- The account and the signature of an abstract account's transaction, or `none`.
abbrev the_abstract_account : Signature → Account → Option (AbstractAccount × Signature)
the_abstract_account sig (abs_account acc) = some (acc, sig)
the_abstract_account sig (base_account acc) = none
the_abstract_account sig (other_account acc) = none

-- `len(signerAddrs) != 1 || len(sigs) != 1`
abbrev one_of_each : List AccAddress → List Signature → Option (AccAddress × Signature)
one_of_each (addr ∷ []) (sig ∷ []) = some (addr, sig)
one_of_each _ _ = none

abbrev found_account : Signature → Result Account → Result (Option (AbstractAccount × Signature))
found_account sig (ok acc) = ok (the_abstract_account sig acc)
found_account sig (err e) = err e
found_account sig (panicked p) = panicked p

module _ {S : Type 0} (ops : AnteOps S) where
  -- A nil key uses no gas.
  unfoldable pub sig_verification_gas_consumer : Signature → Exec S (Unit {0})
  sig_verification_gas_consumer sig =
      let default = ops.sig_gas sig in
      elim sig.pub_key [ nil_pub_key pk ↦ pure tt | other_key bz ↦ default ]

  abbrev look_up :
      S → Option (AccAddress × Signature) → Result (Option (AbstractAccount × Signature))
  look_up s none = ok none
  look_up s (some (addr, sig)) = found_account sig (ops.get_signer_acc s addr)

  unfoldable pub is_abstract_account_tx : Tx → Exec S (Option (AbstractAccount × Signature))
  is_abstract_account_tx tx = do
    lift (guard tx.sig_verifiable tx_decode)
    sigs ← lift tx.signatures_v2
    (λ s. (look_up s (one_of_each tx.signers sigs), s))

module _ {S Coin : Type 0} (ops : AnteOps S) (ck : ContractOps S Coin) where
  abbrev pub keep_cache : S → Result Bytes × S → Result (Unit {0}) × S
  keep_cache s (ok r, cache) = (ok tt, ops.emit_events_of cache (ops.write cache s))
  keep_cache s (err e, cache) = (err e, s)
  keep_cache s (panicked p, cache) = (panicked p, s)

  -- The contract runs on a cache of the state with a gas meter of its own.
  unfoldable pub sudo_with_gas_limit : AccAddress → Bytes → ℕ → Exec S (Unit {0})
  sudo_with_gas_limit contract_addr msg max_gas s =
      keep_cache s (ck.sudo contract_addr msg (ops.with_gas_meter max_gas (ops.cache_context s)))

-- `sigData.(*SingleSignatureData)`
abbrev as_single : SignatureData → Result (ℕ × Bytes)
as_single (single sign_mode signature) = ok (sign_mode, signature)
as_single multi = err not_single_signature

module _ {S : Type 0} (ops : AnteOps S) (bech32 : Bech32) where
  abbrev signer_data : S → AbstractAccount → SignerData
  signer_data s acc = record {
    address = bech32.to_string (get_address bech32 acc);
    chain_id = ops.chain_id s;
    account_number = acc.account_number;
    sequence = acc.sequence;
    pub_key = get_pub_key bech32 acc;
  }

  -- The sign bytes, and the signature.
  unfoldable pub prepare_credentials :
      Tx → AbstractAccount → SignatureData → Exec S (Option Bytes × Bytes)
  prepare_credentials tx signer_acc sig_data = do
    (sign_mode, signature) ← lift (as_single sig_data)
    sign_bytes ← (λ s. (ops.get_sign_bytes sign_mode (signer_data s signer_acc) tx, s))
    pure (sign_bytes, signature)

-- `sdk.PostHandler`
abbrev pub PostHandler : Type 0 → Type 0
PostHandler S = Tx → Bool → Bool → Exec S (Unit {0})

-- The messages to the contract.
abbrev pub before_tx_msg : List Any → Option Bytes → Bytes → Bool → AccountSudoMsg
before_tx_msg msgs tx_bytes cred_bytes simulate = record {
  before_tx =
      some
        (record { msgs = msgs; tx_bytes = tx_bytes; cred_bytes = cred_bytes; simulate = simulate });
  after_tx = none;
}

abbrev pub after_tx_msg : Bool → AccountSudoMsg
after_tx_msg simulate = record {
  before_tx = none;
  after_tx = some (record { simulate = simulate });
}

module _ {S Coin : Type 0} (kv : KvStore S) (cdc : ParamsCodec) (bech32 : Bech32) (ops : AnteOps S)
    (ck : ContractOps S Coin) where
  -- `BeforeTxDecorator.AnteHandle` on an abstract account's transaction.
  unfoldable pub authenticate : AbstractAccount → Signature → Handler S → Handler S
  authenticate signer_acc sig next tx simulate = do
    set_signer_address kv (get_address bech32 signer_acc)
    lift (guard (sig.sequence == signer_acc.sequence) wrong_sequence)
    msg_anys ← lift (sdk_msgs_to_anys tx.msgs)
    (sign_bytes, sig_bytes) ← prepare_credentials ops bech32 tx signer_acc sig.sig_data
    sudo_msg_bytes ← lift (json_marshal (before_tx_msg msg_anys sign_bytes sig_bytes simulate))
    params ← get_params kv cdc
    sudo_with_gas_limit ops ck (get_address bech32 signer_acc) sudo_msg_bytes params.max_gas_before
    next tx simulate

  abbrev dispatch : Handler S → Tx → Bool → Option (AbstractAccount × Signature) → Exec S (Unit {0})
  dispatch next tx simulate none = ops.sig_verification next tx simulate
  dispatch next tx simulate (some (signer_acc, sig)) = authenticate signer_acc sig next tx simulate

  -- `BeforeTxDecorator.AnteHandle`
  unfoldable pub before_tx : Handler S → Handler S
  before_tx next tx simulate = do
    found ← is_abstract_account_tx ops tx
    dispatch next tx simulate found

  -- `AfterTxDecorator.PostHandle` on the signer address that was stored.
  unfoldable pub call_after_tx : AccAddress → PostHandler S → PostHandler S
  call_after_tx none next tx simulate success = next tx simulate success
  call_after_tx (some addr) next tx simulate success = do
    delete_signer_address kv
    sudo_msg_bytes ← lift (json_marshal (after_tx_msg simulate))
    params ← get_params kv cdc
    sudo_with_gas_limit ops ck (some addr) sudo_msg_bytes params.max_gas_after
    next tx simulate success

  unfoldable pub after_tx : PostHandler S → PostHandler S
  unfolding call_after_tx
  after_tx next tx simulate success = do
    signer_addr ← gets (get_signer_address kv)
    call_after_tx signer_addr next tx simulate success
