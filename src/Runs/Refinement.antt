-- ===== src/Runs/Refinement.antt =====
-- The keeper's operations on the store of the small chain, against their specification.
use abstract_account.Prelude.{◌≡◌, refl, none, some, [], ◌∷◌, List}
use abstract_account.Wire.Params.Codec.{params_codec}
use abstract_account.Keeper.{get_params, get_next_account_id, get_signer_address}
use abstract_account.Keeper.Refinement.{
  Contents, Op, put_params, take_id, put_signer, clear_signer, read_params, spec_all, run_all,
  Stores, run_all_refines,
}
use abstract_account.Runs.World.{empty_world, world_store, cells}
use abstract_account.Runs.Codec.{some_params, some_params-InRange}

abbrev nothing : Contents
nothing = record { params = none; next_id = 0; signer = none }

nothing_stored : Stores world_store cells params_codec empty_world nothing
unfolding get_params get_next_account_id get_signer_address
nothing_stored = record { params = refl; next_id = refl; signer = refl }

abbrev ops : List Op
ops =
    read_params
    ∷ put_params (some some_params)
    ∷ take_id
    ∷ put_signer (some (4 ∷ []))
    ∷ take_id
    ∷ put_params none
    ∷ clear_signer
    ∷ read_params
    ∷ []

run_all_refines_example :
    ((run_all world_store cells params_codec ops empty_world).0 ≡ (spec_all ops nothing).0)
    × Stores world_store cells params_codec
        (run_all world_store cells params_codec ops empty_world).1
        (spec_all ops nothing).1
run_all_refines_example =
    run_all_refines world_store cells params_codec ops empty_world nothing nothing_stored
      (tt, (some_params-InRange, (tt, (tt, (tt, (tt, (tt, (tt, tt))))))))
