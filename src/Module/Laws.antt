-- ===== src/Module/Laws.antt =====
-- The genesis of the module as JSON.
use abstract_account.Prelude.{ℕ, ◌≡◌, refl, Bytes, IsU64, some}
use abstract_account.Result.{ok}
use abstract_account.Sdk.{KvStore, BigEndian, ParamsCodec}
use abstract_account.Types.Params.{Params, validate, validate_ptr}
use abstract_account.Types.Params.Laws.{IsValid, validate_iff}
use abstract_account.Types.Genesis.{GenesisState}
use abstract_account.Keeper.{module_init_genesis}
use abstract_account.Keeper.Laws.{export-init_genesis}
use abstract_account.Module.{JsonCodec, validate_genesis, init_genesis_json, export_genesis_json}

module _ {S : Type 0} (kv : KvStore S) (be : BigEndian) (cdc : ParamsCodec) (json : JsonCodec) where
  -- A genesis file that the JSON codec reads as valid parameters that both codecs carry and a
  -- counter of 64 bits is accepted by `ValidateGenesis` and by `InitGenesis`, however it is written,
  -- and what `ExportGenesis` writes next is read as the same parameters and counter.
  pub export-init_genesis_json :
      (bz : Bytes) (p : Params) (id : ℕ) (s : S)
      → json.unmarshal bz ≡ ok (record { params = some p; next_account_id = id })
      → IsValid p
      → cdc.Fits p
      → IsU64 id
      → json.Fits (record { params = some p; next_account_id = id })
      → (bz' : Bytes) × (s' : S) × (validate_genesis json bz ≡ ok tt)
        × (init_genesis_json kv be cdc json bz s ≡ (ok tt, s'))
        × (export_genesis_json kv be cdc json s' ≡ (ok bz', s'))
        × (json.unmarshal bz' ≡ ok (record { params = some p; next_account_id = id }))
  unfolding validate_genesis init_genesis_json export_genesis_json module_init_genesis validate_ptr
  export-init_genesis_json bz p id s read v f h j =
      let gs : GenesisState = record { params = some p; next_account_id = id } in
      let (bz', written, again) = json.round_trip gs j in
      let valid : validate p ≡ ok tt = (validate_iff p).1 v in
      let (s', stored, exported) = export-init_genesis kv be cdc p id s v f h in
      (
        bz',
        s',
        rw (read, valid) refl,
        rw (read, valid, stored) refl,
        rw (exported, written) refl,
        again,
      )
