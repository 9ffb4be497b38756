-- ===== src/Keeper.antt =====
-- x/abstractaccount/keeper/keeper.go, genesis.go and query_server.go: the module's store.
pub mod Laws
pub mod New
pub mod Refinement
use abstract_account.Prelude.{ℕ, ◌+◌, ◌%◌, ◌^◌, Bytes, Option, none, some, List, [], ◌∷◌}
use abstract_account.Result.{
  Result, ok, err, panicked, not_found, parsing_params, nil_value, raised,
}
use abstract_account.Exec.{Exec, ◌>>=◌, ◌>>◌, and_then, pure, lift, gets, modify}
use abstract_account.Sdk.{AccAddress, KvStore, BigEndian, ParamsCodec}
use abstract_account.Types.Params.{Params, validate_ptr}
use abstract_account.Types.Genesis.{
  GenesisState, validate, key_params, key_next_account_id, key_signer_address,
}

-- `types.ErrParsingParams.Wrap(err.Error())`
abbrev pub wrap_parsing {ℓ} : {A : Type ℓ} → Result A → Result A
wrap_parsing (ok a) = ok a
wrap_parsing (err e) = err (parsing_params e)
wrap_parsing (panicked p) = panicked p

-- `panic(err)`
abbrev pub must {ℓ} : {A : Type ℓ} → Result A → Result A
must (ok a) = ok a
must (err e) = panicked (raised e)
must (panicked p) = panicked p

module _ {S : Type 0} (kv : KvStore S) where
  unfoldable pub get_signer_address : S → AccAddress
  get_signer_address s = kv.get s key_signer_address

  -- `Set` panics on a nil value.
  unfoldable pub set_signer_address : AccAddress → Exec S (Unit {0})
  set_signer_address none = lift (panicked nil_value)
  set_signer_address (some bz) = modify (λ s. kv.set s key_signer_address bz)

  unfoldable pub delete_signer_address : Exec S (Unit {0})
  delete_signer_address = modify (λ s. kv.delete s key_signer_address)

module _ {S : Type 0} (kv : KvStore S) (be : BigEndian) where
  unfoldable pub get_next_account_id : S → ℕ
  get_next_account_id s = be.decode (kv.get s key_next_account_id)

  unfoldable pub set_next_account_id : ℕ → Exec S (Unit {0})
  set_next_account_id id = modify (λ s. kv.set s key_next_account_id (be.encode id))

  -- `id+1` wraps at 64 bits.
  unfoldable pub get_and_increment_next_account_id : Exec S ℕ
  unfolding get_next_account_id set_next_account_id
  get_and_increment_next_account_id = do
    id ← gets get_next_account_id
    set_next_account_id ((id + 1) % 2 ^ 64)
    pure id

module _ {S : Type 0} (kv : KvStore S) (cdc : ParamsCodec) where
  parse_params : Option Bytes → Result Params
  parse_params none = err not_found
  parse_params (some bz) = wrap_parsing (cdc.unmarshal bz)

  unfoldable pub get_params : Exec S Params
  unfolding parse_params
  get_params s = (parse_params (kv.get s key_params), s)

  unfoldable pub set_params : Option Params → Exec S (Unit {0})
  unfolding validate_ptr
  set_params params = do
    lift (validate_ptr params)
    bz ← lift (wrap_parsing (cdc.marshal params))
    modify (λ s. kv.set s key_params bz)

  -- The query `Params`.
  unfoldable pub query_params : Exec S Params
  unfolding get_params
  query_params = do params ← get_params; pure params

module _ {S : Type 0} (kv : KvStore S) (be : BigEndian) (cdc : ParamsCodec) where
  unfoldable pub init_genesis : GenesisState → Exec S (Unit {0})
  unfolding set_next_account_id
  init_genesis gs = do
    (λ s. let (r, s') = set_params kv cdc gs.params s in (must r, s'))
    set_next_account_id kv be gs.next_account_id

  unfoldable pub export_genesis : Exec S GenesisState
  unfolding get_next_account_id
  export_genesis = do
    params ← (λ s. let (r, s') = get_params kv cdc s in (must r, s'))
    id ← gets (get_next_account_id kv be)
    pure (record { params = some params; next_account_id = id })

  -- `AppModule.InitGenesis` of module.go, from the decoded state on.
  unfoldable pub module_init_genesis : GenesisState → Exec S (Unit {0})
  unfolding validate init_genesis
  module_init_genesis gs = do lift (must (validate gs)); init_genesis gs
