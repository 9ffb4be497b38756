-- ===== src/Runs/Store.antt =====
-- The store's operations in the small chain.
use abstract_account.Prelude.{◌+◌, ◌%◌, ◌^◌, ◌≡◌, ◌≢◌, refl, Bytes, some, arith}
use abstract_account.Result.{ok, panicked, Panic}
use abstract_account.Types.Params.{Params, validate, validate_ptr}
use abstract_account.Types.Params.Laws.{IsValid, validate_iff}
use abstract_account.Types.Genesis.{key_params, key_next_account_id}
use abstract_account.Wire.Params.Codec.{params_codec}
use abstract_account.Keeper.{
  get_params, set_params, get_next_account_id, get_and_increment_next_account_id, init_genesis,
  export_genesis,
}
use abstract_account.Keeper.Laws.{
  get_params-set_params, get_and_increment_lem, export-init_genesis, init_genesis_panics,
}
use abstract_account.Runs.World.{World, empty_world, world_store, cells}
use abstract_account.Runs.Codec.{some_params, some_params-InRange}

pub some_params-IsValid : IsValid some_params
unfolding validate
some_params-IsValid = (validate_iff some_params).0 refl

get_params-set_params_example :
    (s' : World) × (set_params world_store params_codec (some some_params) empty_world
      ≡ (ok tt, s'))
    × (get_params world_store params_codec s' ≡ (ok some_params, s'))
    × ((j : Bytes) → j ≢ key_params → world_store.get s' j ≡ world_store.get empty_world j)
get_params-set_params_example =
    get_params-set_params world_store params_codec some_params empty_world some_params-IsValid
      some_params-InRange

abbrev no_gas : Params
no_gas = record some_params { max_gas_before = 0 }

no_gas_refused : validate_ptr (some no_gas) ≢ ok tt
unfolding validate_ptr validate
no_gas_refused e = cc

get_and_increment_lem_example :
    (s' : World) × (get_and_increment_next_account_id world_store cells empty_world
      ≡ (ok (get_next_account_id world_store cells empty_world), s'))
    × (get_next_account_id world_store cells s'
        ≡ (get_next_account_id world_store cells empty_world + 1) % 2 ^ 64)
    × ((j : Bytes) → j ≢ key_next_account_id → world_store.get s' j ≡ world_store.get empty_world j)
get_and_increment_lem_example = get_and_increment_lem world_store cells empty_world

export-init_genesis_example :
    (s' : World) × (init_genesis world_store cells params_codec
        (record { params = some some_params; next_account_id = 7 })
        empty_world
      ≡ (ok tt, s'))
    × (export_genesis world_store cells params_codec s'
        ≡ (ok (record { params = some some_params; next_account_id = 7 }), s'))
export-init_genesis_example =
    export-init_genesis world_store cells params_codec some_params 7 empty_world some_params-IsValid
      some_params-InRange (omega arith)

init_genesis_panics_example :
    (x : Panic) × (init_genesis world_store cells params_codec
        (record { params = some no_gas; next_account_id = 7 })
        empty_world
      ≡ (panicked x, empty_world))
init_genesis_panics_example =
    init_genesis_panics world_store cells params_codec
      (record { params = some no_gas; next_account_id = 7 }) empty_world no_gas_refused
