-- ===== src/Runs/Registered.antt =====
-- The first transaction of a registered account in the small chain.
use abstract_account.Prelude.{◌≡◌, refl, ap, true, false, none, some, [], ◌∷◌, bytes_equal}
use abstract_account.Result.{ok}
use abstract_account.Sdk.{AccAddress}
use abstract_account.Types.Account.{
  AbstractAccount, Account, abs_account, account_address, get_address, nil_pub_key,
}
use abstract_account.Types.SudoMsg.{sdk_msgs_to_anys}
use abstract_account.Types.SudoMsg.Json.{json_marshal}
use abstract_account.Wire.Params.Codec.{params_codec}
use abstract_account.Keeper.{get_params, set_signer_address}
use abstract_account.Ante.{
  Signature, single, Tx, sudo_with_gas_limit, is_abstract_account_tx, prepare_credentials,
  authenticate, before_tx,
}
use abstract_account.Ante.Hooks.{Authenticated}
use abstract_account.Delivery.Registered.{registered_authenticates}
use abstract_account.Runs.World.{
  World, world_store, cells, plain, world_accounts, world_contracts, world_events, world_ante,
}
use abstract_account.Runs.Codec.{read_back}
use abstract_account.Runs.Messages.{register, ready, after_register, answer, registers}
use abstract_account.Runs.Hooks.{next}

world_signs :
    (s : World) (addr : AccAddress) (acc : Account)
    → world_accounts.get_account s addr ≡ some acc
    → world_ante.get_signer_acc s addr ≡ ok acc
world_signs s addr acc e = rw e refl

abbrev first_signature : Signature
first_signature = record {
  pub_key = nil_pub_key (record { address_bytes = none });
  sig_data = single 1 (8 ∷ []);
  sequence = 0;
}

abbrev first_tx : Tx
first_tx = record {
  sig_verifiable = true;
  signatures_v2 = ok (first_signature ∷ []);
  signers = some (7 ∷ (3 ∷ [])) ∷ [];
  msgs = [];
}

-- The chain after the registration.
abbrev new_account : AbstractAccount
new_account = record { address = 7 ∷ (3 ∷ []); account_number = 5; sequence = 0 }

abbrev after_first : World
after_first =
    (before_tx world_store params_codec plain world_ante world_contracts next first_tx false
      after_register).1

passes :
    (before_tx world_store params_codec plain world_ante world_contracts next first_tx false
      after_register).0
    ≡ ok tt
unfolding bytes_equal account_address before_tx is_abstract_account_tx authenticate
    set_signer_address sdk_msgs_to_anys prepare_credentials json_marshal get_params
    sudo_with_gas_limit get_address
passes = rw read_back refl

registered_authenticates_example :
    (acc : AbstractAccount) × (acc.address ≡ 7 ∷ (3 ∷ []))
    × (world_accounts.get_account after_register (some (7 ∷ (3 ∷ []))) ≡ some (abs_account acc))
    × Authenticated world_store params_codec plain world_ante world_contracts acc first_signature
        next first_tx false after_register after_first
registered_authenticates_example =
    registered_authenticates world_store cells params_codec plain world_accounts world_contracts
      world_events world_ante world_signs register answer (some (7 ∷ (3 ∷ []))) first_signature next
      first_tx false ready after_register after_first registers refl refl refl refl
      (ap (λ r. (r, after_first)) passes)
