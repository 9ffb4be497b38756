-- ===== src/Keeper/Refinement.antt =====
-- The store as a triple: what a sequence of the keeper's operations does, without keys and bytes.
use abstract_account.Prelude.{
  ℕ, ◌+◌, ◌%◌, ◌^◌, ◌≡◌, refl, ap, ◌∙◌, IsU64, All, Option, none, some, List, [], ◌∷◌, bytes_equal,
}
use abstract_account.Result.{Result, ok, err, panicked, not_found, nil_value}
use abstract_account.Sdk.{AccAddress, KvStore, BigEndian, ParamsCodec}
use abstract_account.Types.Params.{Params, validate_ptr}
use abstract_account.Types.Params.Laws.{validate_iff}
use abstract_account.Types.Genesis.{key_params, key_next_account_id, key_signer_address}
use abstract_account.Keeper.{
  get_params, set_params, get_next_account_id, set_next_account_id,
  get_and_increment_next_account_id, get_signer_address, set_signer_address, delete_signer_address,
}
use abstract_account.Keeper.Laws.{
  get-set_ne, get-delete_ne, get_params-set_params, set_params_refused, get_params_frame,
  get_and_increment_lem, next_id-set,
}

-- What the store holds.
pub record Contents : Type 0 where
  pub params : Option Params
  pub next_id : ℕ
  pub signer : AccAddress

pub data Op : Type 0 where
  put_params : Option Params → Op
  put_next_id : ℕ → Op
  take_id : Op
  put_signer : AccAddress → Op
  clear_signer : Op
  read_params : Op

-- What an operation returns.
pub data Reply : Type 0 where
  done : Reply
  id : ℕ → Reply
  params : Params → Reply

abbrev replied : {S A : Type 0} → (A → Reply) → Result A × S → Result Reply × S
replied f (ok a, s) = (ok (f a), s)
replied f (err e, s) = (err e, s)
replied f (panicked p, s) = (panicked p, s)

-- The specification.
abbrev spec_put_params : Contents → Option Params → Result (Unit {0}) → Result Reply × Contents
spec_put_params v p (ok x) = (ok done, record v { params = p })
spec_put_params v p (err e) = (err e, v)
spec_put_params v p (panicked x) = (panicked x, v)

abbrev spec_read : Option Params → Result Params
spec_read none = err not_found
spec_read (some p) = ok p

abbrev pub spec : Op → Contents → Result Reply × Contents
spec (put_params p) v = spec_put_params v p (validate_ptr p)
spec (put_next_id n) v = (ok done, record v { next_id = n })
spec take_id v = (ok (id v.next_id), record v { next_id = (v.next_id + 1) % 2 ^ 64 })
spec (put_signer none) v = (panicked nil_value, v)
spec (put_signer (some a)) v = (ok done, record v { signer = some a })
spec clear_signer v = (ok done, record v { signer = none })
spec read_params v = replied params (spec_read v.params, v)

-- A sequence of operations, each of which runs whatever the ones before returned.
abbrev pub spec_all : List Op → Contents → List (Result Reply) × Contents
spec_all [] v = ([], v)
spec_all (op ∷ ops) v = let (r, v') = spec op v in let (rs, v'') = spec_all ops v' in (r ∷ rs, v'')

module _ {S : Type 0} (kv : KvStore S) (be : BigEndian) (cdc : ParamsCodec) where
  abbrev pub run : Op → S → Result Reply × S
  run (put_params p) s = replied (λ x. done) (set_params kv cdc p s)
  run (put_next_id n) s = replied (λ x. done) (set_next_account_id kv be n s)
  run take_id s = replied id (get_and_increment_next_account_id kv be s)
  run (put_signer a) s = replied (λ x. done) (set_signer_address kv a s)
  run clear_signer s = replied (λ x. done) (delete_signer_address kv s)
  run read_params s = replied params (get_params kv cdc s)

  abbrev pub run_all : List Op → S → List (Result Reply) × S
  run_all [] s = ([], s)
  run_all (op ∷ ops) s = let (r, s') = run op s in let (rs, s'') = run_all ops s' in (r ∷ rs, s'')

  -- The state `s` stores the contents `v`.
  pub record Stores (s : S) (v : Contents) : Type 0 where
    pub params : get_params kv cdc s ≡ (spec_read v.params, s)
    pub next_id : get_next_account_id kv be s ≡ v.next_id
    pub signer : get_signer_address kv s ≡ v.signer

  -- The Go types of an operation's arguments.
  abbrev pub Fits : Op → Type 0
  Fits (put_params none) = Unit {0}
  Fits (put_params (some p)) = cdc.Fits p
  Fits (put_next_id n) = IsU64 n
  Fits take_id = Unit {0}
  Fits (put_signer a) = Unit {0}
  Fits clear_signer = Unit {0}
  Fits read_params = Unit {0}

  kept_params :
      (s t : S) (v : Contents)
      → kv.get t key_params ≡ kv.get s key_params
      → Stores s v
      → get_params kv cdc t ≡ (spec_read v.params, t)
  kept_params s t v e st = get_params_frame kv cdc s t e ∙ ap (λ r. (r.0, t)) st.params

  kept_id :
      (s t : S) (v : Contents)
      → kv.get t key_next_account_id ≡ kv.get s key_next_account_id
      → Stores s v
      → get_next_account_id kv be t ≡ v.next_id
  unfolding get_next_account_id
  kept_id s t v e st = rw (get_next_account_id, e) st.next_id

  kept_signer :
      (s t : S) (v : Contents)
      → kv.get t key_signer_address ≡ kv.get s key_signer_address
      → Stores s v
      → get_signer_address kv t ≡ v.signer
  unfolding get_signer_address
  kept_signer s t v e st = rw e st.signer

  put_params-Stores :
      (p : Params) (s : S) (v : Contents) (r : Result (Unit {0}))
      → validate_ptr (some p) ≡ r
      → Stores s v
      → cdc.Fits p
      → ((replied (λ x. done) (set_params kv cdc (some p) s)).0 ≡ (spec_put_params v (some p) r).0)
        × Stores
            (replied (λ x. done) (set_params kv cdc (some p) s)).1
            (spec_put_params v (some p) r).1
  unfolding validate_ptr
  put_params-Stores p s v (ok x) e st f =
      let (s', stored, read, rest) = get_params-set_params kv cdc p s ((validate_iff p).0 e) f in
      rw stored (
        refl,
        record {
          params = read;
          next_id = kept_id s s' v (rest key_next_account_id (λ h. cc)) st;
          signer = kept_signer s s' v (rest key_signer_address (λ h. cc)) st;
        },
      )
  put_params-Stores p s v (err x) e st f =
      rw (set_params_refused kv cdc (some p) s (λ h. cc), e) (refl, st)
  put_params-Stores p s v (panicked x) e st f =
      rw (set_params_refused kv cdc (some p) s (λ h. cc), e) (refl, st)

  -- One operation.
  step-Stores :
      (op : Op) (s : S) (v : Contents)
      → Stores s v
      → Fits op
      → ((run op s).0 ≡ (spec op v).0) × Stores (run op s).1 (spec op v).1
  unfolding set_next_account_id set_signer_address delete_signer_address get_signer_address
      get_next_account_id bytes_equal
  step-Stores (put_params none) s v st f =
      rw (set_params_refused kv cdc none s (unfold validate_ptr in λ h. cc))
        (unfold validate_ptr in (refl, st))
  step-Stores (put_params (some p)) s v st f =
      put_params-Stores p s v (validate_ptr (some p)) refl st f
  step-Stores (put_next_id n) s v st f =
      let t = kv.set s key_next_account_id (be.encode n) in
      (
        refl,
        record {
          params =
              kept_params s t v (get-set_ne kv s key_next_account_id key_params _ (λ h. cc)) st;
          next_id = next_id-set kv be n s f;
          signer =
              kept_signer s t v (get-set_ne kv s key_next_account_id key_signer_address _ (λ h. cc))
                st;
        },
      )
  step-Stores take_id s v st f =
      let (t, moved, next, rest) = get_and_increment_lem kv be s in
      rw (moved) (
        ap (λ n. ok (id n)) st.next_id,
        record {
          params = kept_params s t v (rest key_params (λ h. cc)) st;
          next_id = next ∙ ap (λ n. (n + 1) % 2 ^ 64) st.next_id;
          signer = kept_signer s t v (rest key_signer_address (λ h. cc)) st;
        },
      )
  step-Stores (put_signer none) s v st f = (refl, st)
  step-Stores (put_signer (some a)) s v st f =
      let t = kv.set s key_signer_address a in
      (
        refl,
        record {
          params = kept_params s t v (get-set_ne kv s key_signer_address key_params a (λ h. cc)) st;
          next_id =
              kept_id s t v (get-set_ne kv s key_signer_address key_next_account_id a (λ h. cc)) st;
          signer = kv.get-set s key_signer_address key_signer_address a;
        },
      )
  step-Stores clear_signer s v st f =
      let t = kv.delete s key_signer_address in
      (
        refl,
        record {
          params =
              kept_params s t v (get-delete_ne kv s key_signer_address key_params (λ h. cc)) st;
          next_id =
              kept_id s t v (get-delete_ne kv s key_signer_address key_next_account_id (λ h. cc))
                st;
          signer = kv.get-delete s key_signer_address key_signer_address;
        },
      )
  step-Stores read_params s v st f = rw st.params (read_back (spec_read v.params))
    where
      read_back :
          (r : Result Params)
          → ((replied params (r, s)).0 ≡ (replied params (r, v)).0)
            × Stores (replied params (r, s)).1 (replied params (r, v)).1
      read_back (ok p) = (refl, st)
      read_back (err e) = (refl, st)
      read_back (panicked x) = (refl, st)

  -- From contents that the store represents, any sequence of the keeper's operations returns what
  -- the specification says, errors and panics included, and leaves a store that represents the
  -- contents that the specification gives. The counters that are put fit 64 bits, and the codec
  -- carries the parameters.
  pub run_all_refines :
      (ops : List Op) (s : S) (v : Contents)
      → Stores s v
      → All Fits ops
      → ((run_all ops s).0 ≡ (spec_all ops v).0) × Stores (run_all ops s).1 (spec_all ops v).1
  run_all_refines [] s v st f = (refl, st)
  run_all_refines (op ∷ ops) s v st f =
      let (reply, next) = step-Stores op s v st f.0 in
      let (replies, last) = run_all_refines ops (run op s).1 (spec op v).1 next f.1 in
      (cc (reply, replies), last)
