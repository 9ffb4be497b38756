-- ===== src/Runs/Hooks.antt =====
-- The hooks in the small chain.
use abstract_account.Prelude.{
  ◌≡◌, ◌≢◌, ◌↔◌, refl, ap, Bytes, true, false, none, some, [], ◌∷◌, bytes_equal, codes,
}
use abstract_account.Result.{ok, err, wrong_sequence, external}
use abstract_account.Exec.{pure}
use abstract_account.Types.Genesis.{key_params, key_signer_address}
use abstract_account.Types.Account.{
  AbstractAccount, nil_pub_key, abs_account, account_address, get_address,
}
use abstract_account.Types.SudoMsg.{sdk_msgs_to_anys}
use abstract_account.Types.SudoMsg.Json.{json_marshal}
use abstract_account.Wire.Params.Codec.{params_codec}
use abstract_account.Keeper.{
  get_params, get_signer_address, set_signer_address, delete_signer_address,
}
use abstract_account.Ante.{
  Signature, Tx, Handler, PostHandler, single, is_abstract_account_tx, sudo_with_gas_limit,
  prepare_credentials, authenticate, before_tx, after_tx, call_after_tx, after_tx_msg,
}
use abstract_account.Ante.Laws.{IsSignedBy, is_abstract_account_tx_iff, sudo_with_gas_limit_atomic}
use abstract_account.Ante.Hooks.{
  Authenticated, Finished, before_tx_wrong_sequence, before_tx-Authenticated, after_tx-Finished,
  stale_signer_called,
}
use abstract_account.Runs.World.{
  World, empty_world, world_store, plain, world_contracts, world_ante,
}
use abstract_account.Runs.Codec.{some_params, some_bytes, read_back}

abbrev pub account : AbstractAccount
account = record { address = 4 ∷ []; account_number = 5; sequence = 2 }

abbrev pub signature : Signature
signature = record {
  pub_key = nil_pub_key (record { address_bytes = none });
  sig_data = single 1 (8 ∷ []);
  sequence = 2;
}

abbrev late_signature : Signature
late_signature = record signature { sequence = 1 }

abbrev pub tx_by : Signature → Tx
tx_by sig = record {
  sig_verifiable = true;
  signatures_v2 = ok (sig ∷ []);
  signers = some (4 ∷ []) ∷ [];
  msgs = [];
}

-- A chain with parameters, and the account at its address.
abbrev pub chain : World
chain =
    world_store.set (record empty_world { accounts = λ b. some (abs_account account) }) key_params
      some_bytes

pub signed_by : (sig : Signature) → IsSignedBy world_ante account sig (tx_by sig) chain
unfolding account_address get_address bytes_equal
signed_by sig = record {
  signer = some (4 ∷ []);
  verifiable = refl;
  one_signature = refl;
  one_signer = refl;
  account = refl;
}

is_abstract_account_tx_iff_example :
    (is_abstract_account_tx world_ante (tx_by signature) chain
      ≡ (ok (some (account, signature)), chain))
    ↔ IsSignedBy world_ante account signature (tx_by signature) chain
is_abstract_account_tx_iff_example =
    is_abstract_account_tx_iff world_ante account signature (tx_by signature) chain

refused : (sudo_with_gas_limit world_ante world_contracts (some (9 ∷ [])) [] 100 chain).0 ≢ ok tt
unfolding sudo_with_gas_limit
refused e = cc

sudo_with_gas_limit_atomic_example :
    (sudo_with_gas_limit world_ante world_contracts (some (9 ∷ [])) [] 100 chain).1 ≡ chain
sudo_with_gas_limit_atomic_example =
    sudo_with_gas_limit_atomic world_ante world_contracts (some (9 ∷ [])) [] 100 chain refused

abbrev pub next : Handler World
next tx simulate = pure tt

abbrev pub post : PostHandler World
post tx simulate success = pure tt

account_at : get_address plain account ≡ some (4 ∷ [])
unfolding get_address
account_at = refl

out_of_sequence : late_signature.sequence ≢ account.sequence
out_of_sequence e = cc

before_tx_wrong_sequence_example :
    before_tx world_store params_codec plain world_ante world_contracts next
      (tx_by late_signature)
      false
      chain
    ≡ (err wrong_sequence, world_store.set chain key_signer_address (4 ∷ []))
before_tx_wrong_sequence_example =
    before_tx_wrong_sequence world_store params_codec plain world_ante world_contracts account
      late_signature next (tx_by late_signature) false chain (4 ∷ []) (signed_by late_signature)
      account_at out_of_sequence

abbrev pub after_before : World
after_before =
    (before_tx world_store params_codec plain world_ante world_contracts next (tx_by signature)
      false chain).1

pub authenticated :
    (before_tx world_store params_codec plain world_ante world_contracts next
      (tx_by signature)
      false
      chain).0
    ≡ ok tt
unfolding before_tx is_abstract_account_tx authenticate set_signer_address sdk_msgs_to_anys
    prepare_credentials json_marshal get_params sudo_with_gas_limit account_address get_address
    bytes_equal
authenticated = rw read_back refl

before_tx-Authenticated_example :
    Authenticated world_store params_codec plain world_ante world_contracts account signature next
      (tx_by signature)
      false
      chain
      after_before
before_tx-Authenticated_example =
    before_tx-Authenticated world_store params_codec plain world_ante world_contracts account
      signature next (tx_by signature) false chain after_before (signed_by signature)
      (ap (λ r. (r, after_before)) authenticated)

-- The chain with a signer address.
abbrev pub with_signer : Bytes → World
with_signer addr = world_store.set chain key_signer_address addr

pub signer_at : (addr : Bytes) → get_signer_address world_store (with_signer addr) ≡ some addr
unfolding get_signer_address bytes_equal
signer_at addr = refl

abbrev after_after : World
after_after =
    (after_tx world_store params_codec plain world_ante world_contracts post (tx_by signature) false
      true (with_signer (4 ∷ []))).1

finished :
    (after_tx world_store params_codec plain world_ante world_contracts post
      (tx_by signature)
      false
      true
      (with_signer (4 ∷ []))).0
    ≡ ok tt
unfolding after_tx call_after_tx get_signer_address delete_signer_address json_marshal get_params
    sudo_with_gas_limit bytes_equal
finished = rw read_back refl

after_tx-Finished_example :
    Finished world_store params_codec plain world_ante world_contracts
      (4 ∷ [])
      post
      (tx_by signature)
      false
      true
      (with_signer (4 ∷ []))
      after_after
after_tx-Finished_example =
    after_tx-Finished world_store params_codec plain world_ante world_contracts (4 ∷ []) post
      (tx_by signature) false true (with_signer (4 ∷ [])) after_after (signer_at (4 ∷ []))
      (ap (λ r. (r, after_after)) finished)

-- A transaction with no signer, which is no abstract account's.
abbrev pub other_tx : Tx
other_tx = record (tx_by signature) { signers = [] }

abbrev stale : World
stale = with_signer (9 ∷ [])

not_abstract : is_abstract_account_tx world_ante other_tx stale ≡ (ok none, stale)
unfolding is_abstract_account_tx
not_abstract = refl

passes :
    before_tx world_store params_codec plain world_ante world_contracts next other_tx false stale
    ≡ (ok tt, stale)
unfolding before_tx is_abstract_account_tx
passes = refl

pub after_tx_bytes :
    json_marshal (after_tx_msg false) ≡ ok (codes "{\"after_tx\":{\"simulate\":false}}")
unfolding json_marshal
after_tx_bytes = refl

stale_params : get_params world_store params_codec stale ≡ (ok some_params, stale)
unfolding get_params bytes_equal
stale_params = rw read_back refl

refuses_old :
    (sudo_with_gas_limit world_ante world_contracts
      (some (9 ∷ []))
      (codes "{\"after_tx\":{\"simulate\":false}}")
      some_params.max_gas_after
      (world_store.delete stale key_signer_address)).0
    ≡ err (external 1)
unfolding sudo_with_gas_limit
refuses_old = refl

stale_signer_called_example :
    (after_tx world_store params_codec plain world_ante world_contracts post other_tx false true
      stale).0
    ≡ err (external 1)
stale_signer_called_example =
    stale_signer_called world_store params_codec plain world_ante world_contracts (9 ∷ [])
      (codes "{\"after_tx\":{\"simulate\":false}}") some_params (external 1) next post other_tx
      false true stale stale (signer_at (9 ∷ [])) not_abstract refl passes after_tx_bytes
      stale_params refuses_old
