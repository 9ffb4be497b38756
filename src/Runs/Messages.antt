-- ===== src/Runs/Messages.antt =====
-- The two messages in the small chain.
use abstract_account.Prelude.{
  ℕ, ◌+◌, bytes_equal, bytes_equal_iff, ◌≡◌, ◌≢◌, refl, ap, subst, Bytes, false, Option, some, List,
  [], ◌∷◌, codes, arith,
}
use abstract_account.Result.{ok, err, unauthorized}
use abstract_account.Types.Params.{Params, is_allowed}
use abstract_account.Types.Genesis.{key_params}
use abstract_account.Types.Account.{
  abs_account, account_address, get_address, new_abstract_account_from_account,
}
use abstract_account.Types.Msgs.{
  MsgUpdateParams, MsgRegisterAccount, MsgRegisterAccountResponse, parse_address,
}
use abstract_account.Wire.Params.Codec.{params_codec}
use abstract_account.Keeper.{get_params, get_next_account_id, get_and_increment_next_account_id}
use abstract_account.MsgServer.{update_params, register_account, adopt, label}
use abstract_account.MsgServer.Update.{
  update_params_unauthorized, StoresValid, update_params-StoresValid,
}
use abstract_account.MsgServer.Labels.{
  Entry, Differ, KeepsLabels, Registrations, done, registered, labels_distinct,
}
use abstract_account.MsgServer.Register.{Registered, register_account-Registered}
use abstract_account.Runs.World.{
  World, empty_world, text_of, world_store, cells, plain, world_accounts, world_contracts,
  world_events,
}
use abstract_account.Runs.Codec.{some_params, some_bytes, some_params-InRange, read_back}
use mathlib.Core.List.{Pairwise}

abbrev gov : Bytes
gov = 1 ∷ []

abbrev update : MsgUpdateParams
update = record { sender = gov; params = some some_params }

abbrev update_by_other : MsgUpdateParams
update_by_other = record update { sender = 2 ∷ [] }

not_gov : (2 ∷ []) ≢ gov
not_gov e = cc

update_params_unauthorized_example :
    update_params world_store params_codec gov update_by_other empty_world
    ≡ (err unauthorized, empty_world)
update_params_unauthorized_example =
    update_params_unauthorized world_store params_codec gov update_by_other empty_world not_gov

params_carried : (p : Params) → some some_params ≡ some p → params_codec.Fits p
params_carried p e = subst params_codec.Fits (cc) some_params-InRange

nothing_stored : StoresValid world_store params_codec gov empty_world
unfolding get_params
nothing_stored = tt

update_params-StoresValid_example :
    StoresValid world_store params_codec gov
      (update_params world_store params_codec gov update empty_world).1
update_params-StoresValid_example =
    update_params-StoresValid world_store params_codec gov update empty_world params_carried
      nothing_stored

abbrev counted : ℕ → World
counted n = world_store.set empty_world (1 ∷ []) (n ∷ [])

-- A chain with parameters and a counter.
abbrev pub ready : World
ready = world_store.set (counted 7) key_params some_bytes

abbrev pub register : MsgRegisterAccount Bytes
register = record { sender = 5 ∷ []; code_id = 300; msg = []; funds = []; salt = 3 ∷ [] }

pub ready_params : get_params world_store params_codec ready ≡ (ok some_params, ready)
unfolding get_params bytes_equal
ready_params = rw read_back refl

-- What a registration of the example leaves in `s`, where the counter is `id`.
abbrev pub after : World → Bytes → ℕ → World
after s salt id =
    (world_events.emit_typed_event
      (record { creator = 5 ∷ []; code_id = 300; contract_addr = 7 ∷ salt })
      (world_accounts.set_account
        (world_contracts.instantiate2 300 (some (5 ∷ [])) (some (5 ∷ [])) [] (label id) [] salt
          false (world_store.set s (1 ∷ []) ((id + 1) ∷ []))).1
        (abs_account (record { address = 7 ∷ salt; account_number = 5; sequence = 0 })))).1

abbrev pub after_register : World
after_register = after ready (3 ∷ []) 7

abbrev pub answer : MsgRegisterAccountResponse
answer = record { address = 7 ∷ (3 ∷ []); bytes = label 7 }

pub registers :
    register_account world_store cells params_codec plain world_accounts world_contracts
      world_events register ready
    ≡ (ok answer, after_register)
unfolding register_account adopt is_allowed get_and_increment_next_account_id bytes_equal
    parse_address account_address new_abstract_account_from_account get_address
registers = rw ready_params refl

register_account-Registered_example :
    Registered world_store cells params_codec plain world_accounts world_contracts world_events
      register ready after_register answer
register_account-Registered_example =
    register_account-Registered world_store cells params_codec plain world_accounts world_contracts
      world_events register ready after_register answer registers

-- A second account with other code.
abbrev register_next : MsgRegisterAccount Bytes
register_next = record register { salt = 4 ∷ []; msg = codes "{}" }

abbrev after_next : World
after_next = after after_register (4 ∷ []) 8

abbrev next_answer : MsgRegisterAccountResponse
next_answer = record { address = 7 ∷ (4 ∷ []); bytes = label 8 }

next_params : get_params world_store params_codec after_register ≡ (ok some_params, after_register)
unfolding get_params bytes_equal
next_params = rw read_back refl

registers_next :
    register_account world_store cells params_codec plain world_accounts world_contracts
      world_events register_next after_register
    ≡ (ok next_answer, after_next)
unfolding register_account adopt is_allowed get_and_increment_next_account_id bytes_equal
    parse_address account_address new_abstract_account_from_account get_address
registers_next = rw next_params refl

abbrev label_at : World → Bytes → Option Bytes
label_at s a = s.labels a

world_keeps :
    KeepsLabels world_store cells params_codec plain world_accounts world_contracts world_events
      label_at
unfolding get_next_account_id
world_keeps = record {
  instantiate2-label = λ code creator admin msg l funds salt fix_msg s t contract bytes e.
      let at : 7 ∷ salt ≡ text_of contract = cc e in
      let same : (world_contracts.instantiate2 code creator admin msg l funds salt fix_msg s).1
          ≡ t =
        ap (λ r. r.1) e in
      rw (← at, ← same) (rw ((bytes_equal_iff (7 ∷ salt) (7 ∷ salt)).1 refl) refl, omega arith);
  update_contract_admin-Same = λ contract caller admin s t e.
      let same : s ≡ t = ap (λ r. r.1) e in rw (← same) ((λ a. refl), omega arith);
  set_account-Same = λ s acc. ((λ a. refl), omega arith);
  emit-Same = λ e s. ((λ a. refl), omega arith);
}

abbrev entries : List Entry
entries = record { id = 7; text = label 7 } ∷ record { id = 8; text = label 8 } ∷ []

history :
    Registrations world_store cells params_codec plain world_accounts world_contracts world_events
      label_at ready entries
unfolding get_next_account_id bytes_equal
history =
    registered register answer registers refl refl
      (registered register_next next_answer registers_next refl refl done)

labels_distinct_example : Pairwise Differ entries
labels_distinct_example =
    labels_distinct world_store cells params_codec plain world_accounts world_contracts world_events
      label_at world_keeps history (omega arith, (omega arith, tt))
