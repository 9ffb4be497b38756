-- ===== src/Runs/Delivery.antt =====
-- Whole transactions in the small chain.
use abstract_account.Prelude.{
  ◌≡◌, refl, ap, Bytes, true, false, none, [], ◌∷◌, if◌then◌else◌, bytes_equal, Bool-cases, inl,
  inr, codes,
}
use abstract_account.Result.{ok, err, external}
use abstract_account.Exec.{Exec, pure}
use abstract_account.Sdk.{AccAddress}
use abstract_account.Chain.{ContractOps}
use abstract_account.Types.Account.{get_address, account_address}
use abstract_account.Types.SudoMsg.{sdk_msgs_to_anys}
use abstract_account.Types.SudoMsg.Json.{json_marshal}
use abstract_account.Wire.Params.Codec.{params_codec}
use abstract_account.Keeper.{
  get_params, get_signer_address, set_signer_address, delete_signer_address,
}
use abstract_account.Ante.{
  Tx, sudo_with_gas_limit, is_abstract_account_tx, prepare_credentials, authenticate, before_tx,
  call_after_tx, after_tx,
}
use abstract_account.Delivery.{Succeeds, Delivers, undone, Ordinary, start, Environment}
use abstract_account.Delivery.Signer.{succeeded_clears}
use abstract_account.Delivery.Blocked.{Refuses, refusal_blocks}
use abstract_account.Runs.World.{World, world_store, plain, world_contracts, world_ante}
use abstract_account.Runs.Codec.{read_back}
use abstract_account.Runs.Hooks.{
  account, signature, tx_by, chain, signed_by, next, post, after_tx_bytes, other_tx, with_signer,
}

abbrev run_msgs : Tx → Exec World (Unit {0})
run_msgs tx = pure tt

abbrev tx : Tx
tx = tx_by signature

environment :
    (ck : ContractOps World Bytes)
    → ((addr : AccAddress) (msg : Bytes) (s : World)
        → get_signer_address world_store (ck.sudo addr msg s).1 ≡ get_signer_address world_store s)
    → Environment world_store world_ante ck next run_msgs post
unfolding get_signer_address
environment ck keeps = record {
  next_keeps = λ tx simulate s. refl;
  verification_keeps = λ tx simulate s. refl;
  msgs_keep = λ tx s. refl;
  post_keeps = λ tx simulate success s. refl;
  contract_keeps = keeps;
  cached = λ s. refl;
  metered = λ g s. refl;
  written = λ cache s. refl;
  emitted = λ cache s. refl;
}

-- A contract that accepts every transaction, and never that it has ended.
abbrev grudging : ContractOps World Bytes
grudging = record world_contracts {
  sudo = λ contract msg s.
      if bytes_equal msg (codes "{\"after_tx\":{\"simulate\":false}}")
      then (err (external 3), s)
      else (ok [], s);
}

abbrev content : ContractOps World Bytes
content = record world_contracts { sudo = λ contract msg s. (ok [], s) }

grudging_keeps :
    (addr : AccAddress) (msg : Bytes) (s : World)
    → get_signer_address world_store (grudging.sudo addr msg s).1 ≡ get_signer_address world_store s
grudging_keeps addr msg s =
    elim (Bool-cases (bytes_equal msg (codes "{\"after_tx\":{\"simulate\":false}}"))) [
      | inl e ↦ rw e refl
      | inr e ↦ rw e refl
    ]

abbrev checked : World
checked = with_signer (4 ∷ [])

abbrev ended : World
ended = (after_tx world_store params_codec plain world_ante content post tx false true checked).1

content_checked :
    before_tx world_store params_codec plain world_ante content next tx false chain
    ≡ (ok tt, checked)
unfolding before_tx is_abstract_account_tx authenticate set_signer_address sdk_msgs_to_anys
    prepare_credentials json_marshal get_params sudo_with_gas_limit account_address get_address
    bytes_equal
content_checked = rw read_back refl

content_ended :
    (after_tx world_store params_codec plain world_ante content post tx false true checked).0
    ≡ ok tt
unfolding after_tx call_after_tx get_signer_address delete_signer_address json_marshal get_params
    sudo_with_gas_limit bytes_equal
content_ended = rw read_back refl

succeeds :
    Succeeds
      (before_tx world_store params_codec plain world_ante content next)
      run_msgs
      (after_tx world_store params_codec plain world_ante content post)
      chain
      tx
      ended
succeeds = record {
  checked = checked;
  executed = checked;
  ante_ok = content_checked;
  msgs_ok = refl;
  post_ok = ap (λ r. (r, ended)) content_ended;
}

succeeded_clears_example : get_signer_address world_store ended ≡ none
succeeded_clears_example =
    succeeded_clears world_store params_codec plain world_ante content next run_msgs post tx chain
      ended (environment content (λ addr msg s. refl)) succeeds

grudging_checked :
    before_tx world_store params_codec plain world_ante grudging next tx false chain
    ≡ (ok tt, checked)
unfolding before_tx is_abstract_account_tx authenticate set_signer_address sdk_msgs_to_anys
    prepare_credentials json_marshal get_params sudo_with_gas_limit account_address get_address
    bytes_equal
grudging_checked = rw read_back refl

grudging_ended :
    (after_tx world_store params_codec plain world_ante grudging post tx false true checked).0
    ≡ err (external 3)
unfolding after_tx call_after_tx get_signer_address delete_signer_address json_marshal get_params
    sudo_with_gas_limit bytes_equal
grudging_ended = rw read_back refl

delivered :
    Delivers
      (before_tx world_store params_codec plain world_ante grudging next)
      run_msgs
      (after_tx world_store params_codec plain world_ante grudging post)
      chain
      tx
      checked
delivered = undone checked checked grudging_checked refl (λ e. cc (e, grudging_ended)) refl

refuses :
    Refuses world_store params_codec plain world_ante grudging next run_msgs post
      (get_address plain account)
unfolding sudo_with_gas_limit bytes_equal
refuses message gas s e =
    let same : message ≡ codes "{\"after_tx\":{\"simulate\":false}}" = cc (e, after_tx_bytes) in
    rw same (λ h. cc)

not_abstract : (s : World) → Ordinary world_ante s other_tx
unfolding is_abstract_account_tx
not_abstract s = refl

refusal_blocks_example :
    ¬ Succeeds
      (before_tx world_store params_codec plain world_ante grudging next)
      run_msgs
      (after_tx world_store params_codec plain world_ante grudging post)
      checked
      other_tx
      chain
refusal_blocks_example =
    refusal_blocks world_store params_codec plain world_ante grudging next run_msgs post account
      signature tx chain checked (environment grudging grudging_keeps) (signed_by signature)
      (ap (λ r. r.0) grudging_checked) delivered refuses checked chain other_tx start
      (not_abstract checked)
