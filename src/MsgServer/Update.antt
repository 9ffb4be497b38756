-- ===== src/MsgServer/Update.antt =====
-- `UpdateParams`: who may call it, and what it stores.
use abstract_account.Prelude.{
  ◌≡◌, ◌≢◌, ◌⊎◌, refl, Bytes, Option, none, some, bytes_equal, bytes_equal_iff, Bool-cases, inl,
  inr,
}
use abstract_account.Result.{Result, ok, err, panicked, unauthorized}
use abstract_account.Sdk.{KvStore, ParamsCodec}
use abstract_account.Types.Params.{Params, validate, validate_ptr}
use abstract_account.Types.Params.Laws.{IsValid, validate_iff}
use abstract_account.Types.Msgs.{MsgUpdateParams}
use abstract_account.Keeper.{get_params, set_params}
use abstract_account.Keeper.Laws.{get_params-set_params, set_params_refused}
use abstract_account.MsgServer.{update_params}

accepted_or_not : (r : Result (Unit {0})) → (r ≡ ok tt) ⊎ (r ≢ ok tt)
accepted_or_not (ok x) = inl refl
accepted_or_not (err e) = inr (λ h. cc)
accepted_or_not (panicked p) = inr (λ h. cc)

-- Parameters that are read are valid.
abbrev pub ReadsValid : Result Params → Type 0
ReadsValid (ok p) = IsValid p
ReadsValid (err e) = Unit {0}
ReadsValid (panicked x) = Unit {0}

module _ {S : Type 0} (kv : KvStore S) (cdc : ParamsCodec) (authority : Bytes) where
  -- Anyone but the authority is refused, and nothing is stored.
  pub update_params_unauthorized :
      (req : MsgUpdateParams) (s : S)
      → req.sender ≢ authority
      → update_params kv cdc authority req s ≡ (err unauthorized, s)
  unfolding update_params
  update_params_unauthorized req s n = elim (Bool-cases (bytes_equal req.sender authority)) [
    | inl e ↦ absurd (n ((bytes_equal_iff _ _).0 e))
    | inr e ↦ rw e refl
  ]

  authorized :
      (req : MsgUpdateParams) (s : S)
      → req.sender ≡ authority
      → update_params kv cdc authority req s ≡ set_params kv cdc req.params s
  unfolding update_params
  authorized req s e = rw ((bytes_equal_iff req.sender authority).1 e) refl

  -- The stored parameters, if there are any, are valid.
  abbrev pub StoresValid : S → Type 0
  StoresValid s = ReadsValid (get_params kv cdc s).0

  set_params-StoresValid :
      (params : Option Params) (s : S)
      → ((p : Params) → params ≡ some p → cdc.Fits p)
      → StoresValid s
      → StoresValid (set_params kv cdc params s).1
  set_params-StoresValid none s fits inv =
      rw (set_params_refused kv cdc none s (unfold validate_ptr in λ e. cc)) inv
  set_params-StoresValid (some p) s fits inv = elim (accepted_or_not (validate p)) [
    | inl e ↦
        let (s', stored, read, rest) =
          get_params-set_params kv cdc p s ((validate_iff p).0 e) (fits p refl) in
        rw (stored, read) ((validate_iff p).0 e)
    | inr n ↦ rw (set_params_refused kv cdc (some p) s (unfold validate_ptr in n)) inv
  ]

  -- Whatever the request and its result, stored parameters that are valid, or absent, stay so, if the
  -- codec carries the request's parameters: an update by anyone else, of a nil pointer or of invalid
  -- parameters stores nothing.
  pub update_params-StoresValid :
      (req : MsgUpdateParams) (s : S)
      → ((p : Params) → req.params ≡ some p → cdc.Fits p)
      → StoresValid s
      → StoresValid (update_params kv cdc authority req s).1
  update_params-StoresValid req s fits inv = elim (Bool-cases (bytes_equal req.sender authority)) [
    | inl e ↦
        rw (authorized req s ((bytes_equal_iff _ _).0 e))
          (set_params-StoresValid req.params s fits inv)
    | inr e ↦ rw (update_params_unauthorized req s (λ k. cc (e, (bytes_equal_iff _ _).1 k))) inv
  ]
