-- ===== src/Keeper/Laws.antt =====
-- What the store's operations promise one another.
use abstract_account.Prelude.{
  ℕ, ◌+◌, ◌%◌, ◌^◌, ◌≡◌, ◌≢◌, refl, Bytes, IsU64, false, Option, some, bytes_equal, bytes_equal_iff,
  Bool-cases, inl, inr, sym, arith,
}
use abstract_account.Result.{Result, ok, err, panicked, raised, Panic}
use abstract_account.Exec.{Exec, and_then}
use abstract_account.Sdk.{KvStore, BigEndian, ParamsCodec}
use abstract_account.Types.Params.{Params, validate_ptr}
use abstract_account.Types.Params.Laws.{IsValid, validate_iff}
use abstract_account.Types.Genesis.{GenesisState, key_params, key_next_account_id}
use abstract_account.Keeper.{
  must, get_params, set_params, get_next_account_id, get_and_increment_next_account_id,
  init_genesis, export_genesis,
}

bytes_ne : (k j : Bytes) → j ≢ k → bytes_equal k j ≡ false
bytes_ne k j n = elim (Bool-cases (bytes_equal k j)) [
  | inl e ↦ absurd (n (sym ((bytes_equal_iff k j).0 e)))
  | inr e ↦ e
]

module _ {S : Type 0} (kv : KvStore S) where
  -- A write leaves every other key alone.
  pub get-set_ne : (s : S) (k j v : Bytes) → j ≢ k → kv.get (kv.set s k v) j ≡ kv.get s j
  get-set_ne s k j v n = rw (kv.get-set s k j v, bytes_ne k j n) refl

  pub get-delete_ne : (s : S) (k j : Bytes) → j ≢ k → kv.get (kv.delete s k) j ≡ kv.get s j
  get-delete_ne s k j n = rw (kv.get-delete s k j, bytes_ne k j n) refl

-- A step that does not return ends the block, with the state that it left.
stops :
    {S : Type 0} (r : Result (Unit {0})) (f : Unit {0} → Exec S (Unit {0})) (s : S)
    → r ≢ ok tt
    → and_then (r, s) f ≡ (r, s)
stops (ok x) f s n = absurd (n refl)
stops (err e) f s n = refl
stops (panicked p) f s n = refl

module _ {S : Type 0} (kv : KvStore S) (cdc : ParamsCodec) where
  -- Valid parameters that the codec carries are stored whole: they are what `GetParams` returns next,
  -- and no other key of the store changes.
  pub get_params-set_params :
      (p : Params) (s : S)
      → IsValid p
      → cdc.Fits p
      → (s' : S) × (set_params kv cdc (some p) s ≡ (ok tt, s'))
        × (get_params kv cdc s' ≡ (ok p, s'))
        × ((j : Bytes) → j ≢ key_params → kv.get s' j ≡ kv.get s j)
  unfolding set_params get_params bytes_equal
  get_params-set_params p s v f =
      let (bz, em, eu) = cdc.round_trip p f in
      let ev = (validate_iff p).1 v in
      (
        kv.set s key_params bz,
        rw (ev, em) refl,
        rw (kv.get-set s key_params key_params bz, eu) refl,
        λ j n. get-set_ne kv s key_params j bz n,
      )

  -- Parameters that `Validate` refuses, and a nil pointer, change nothing: the result is that of
  -- `Validate`.
  pub set_params_refused :
      (params : Option Params) (s : S)
      → validate_ptr params ≢ ok tt
      → set_params kv cdc params s ≡ (validate_ptr params, s)
  unfolding set_params
  set_params_refused params s n = stops (validate_ptr params) _ s n

  -- `GetParams` reads one key.
  pub get_params_frame :
      (s s' : S)
      → kv.get s' key_params ≡ kv.get s key_params
      → get_params kv cdc s' ≡ ((get_params kv cdc s).0, s')
  unfolding get_params
  get_params_frame s s' e = rw e refl

must_panics : (r : Result (Unit {0})) → r ≢ ok tt → (x : Panic) × (must r ≡ panicked x)
must_panics (ok x) n = absurd (n refl)
must_panics (err e) n = (raised e, refl)
must_panics (panicked p) n = (p, refl)

module _ {S : Type 0} (kv : KvStore S) (be : BigEndian) where
  -- The counter hands out its value and moves on by one, modulo 2 ^ 64; no other key changes.
  pub get_and_increment_lem :
      (s : S)
      → (s' : S) × (get_and_increment_next_account_id kv be s
          ≡ (ok (get_next_account_id kv be s), s'))
        × (get_next_account_id kv be s' ≡ (get_next_account_id kv be s + 1) % 2 ^ 64)
        × ((j : Bytes) → j ≢ key_next_account_id → kv.get s' j ≡ kv.get s j)
  unfolding get_and_increment_next_account_id get_next_account_id bytes_equal
  get_and_increment_lem s =
      let next : ℕ = (get_next_account_id kv be s + 1) % 2 ^ 64 in
      (
        kv.set s key_next_account_id (be.encode next),
        refl,
        rw
            (
              get_next_account_id,
              kv.get-set s key_next_account_id key_next_account_id (be.encode next),
            )
            (be.decode-encode next (omega arith)),
        λ j n. get-set_ne kv s key_next_account_id j _ n,
      )

  pub next_id-set :
      (id : ℕ) (s : S)
      → IsU64 id
      → get_next_account_id kv be (kv.set s key_next_account_id (be.encode id)) ≡ id
  unfolding get_next_account_id bytes_equal
  next_id-set id s h =
      rw (get_next_account_id, kv.get-set s key_next_account_id key_next_account_id (be.encode id))
        (be.decode-encode id h)

module _ {S : Type 0} (kv : KvStore S) (be : BigEndian) (cdc : ParamsCodec) where
  -- A genesis that is imported is exported as it was, if its parameters are valid, the codec carries
  -- them, and its counter is a `uint64`.
  pub export-init_genesis :
      (p : Params) (id : ℕ) (s : S)
      → IsValid p
      → cdc.Fits p
      → IsU64 id
      → (s' : S) × (init_genesis kv be cdc (record { params = some p; next_account_id = id }) s
          ≡ (ok tt, s'))
        × (export_genesis kv be cdc s'
            ≡ (ok (record { params = some p; next_account_id = id }), s'))
  unfolding init_genesis export_genesis
  export-init_genesis p id s v f h =
      let (s1, stored, read, rest) = get_params-set_params kv cdc p s v f in
      let s' = kv.set s1 key_next_account_id (be.encode id) in
      let kept =
        get_params_frame kv cdc s1 s'
          (get-set_ne kv s1 key_next_account_id key_params (be.encode id) (λ e. cc)) in
      (s', rw stored refl, rw (kept, read, next_id-set kv be id s1 h) refl)

  -- A genesis state that is not valid makes `InitGenesis` panic, and nothing is stored.
  pub init_genesis_panics :
      (gs : GenesisState) (s : S)
      → validate_ptr gs.params ≢ ok tt
      → (x : Panic) × (init_genesis kv be cdc gs s ≡ (panicked x, s))
  unfolding init_genesis
  init_genesis_panics gs s n =
      let (x, e) = must_panics (validate_ptr gs.params) n in
      (x, rw (set_params_refused kv cdc gs.params s n, e) refl)
