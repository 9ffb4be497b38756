-- ===== src/Types/Params.antt =====
-- x/abstractaccount/types/params.go: the module's parameters and their validation.
pub mod Laws
pub mod Canonical
mod Runs
use abstract_account.Prelude.{
  ℕ, Bytes, Bool, true, false, ◌&&◌, not, Option, none, some, List, [], ◌∷◌, is_empty, ltb, leb,
  ◌==◌, if◌then◌else◌,
}
use abstract_account.Result.{
  Result, ok, err, panicked, Panic, nil_dereference, zero_max_gas, non_empty_allow_list,
  malformed_allow_list, ◌>>=◌,
}

-- `Params` of params.pb.go; gas limits and code IDs are `uint64`.
pub record Params : Type 0 where
  pub allow_all_code_ids : Bool
  pub allowed_code_ids : List ℕ
  pub max_gas_before : ℕ
  pub max_gas_after : ℕ

abbrev pub default_max_gas : ℕ
default_max_gas = 2_000_000

-- The loop over `AllowedCodeIDs`, with `prevCodeID`.
pub check_sorted : ℕ → List ℕ → Result (Unit {0})
check_sorted prev [] = ok tt
check_sorted prev (code_id ∷ rest) =
    if leb code_id prev then err malformed_allow_list else check_sorted code_id rest

unfoldable pub validate : Params → Result (Unit {0})
unfolding check_sorted
validate p =
    if leb p.max_gas_before 0
    then err zero_max_gas
    else if leb p.max_gas_after 0
    then err zero_max_gas
    else if p.allow_all_code_ids && not (is_empty p.allowed_code_ids)
    then err non_empty_allow_list
    else check_sorted 0 p.allowed_code_ids

-- `Validate` on a pointer: a nil `*Params` panics at its first field.
unfoldable pub validate_ptr : Option Params → Result (Unit {0})
validate_ptr none = panicked nil_dereference
validate_ptr (some p) = validate p

-- Go's pair of the params and `params.Validate()`.
unfoldable pub new_params : Bool → List ℕ → ℕ → ℕ → Params × Result (Unit {0})
new_params allow_all allowed before after =
    let p : Params = record {
      allow_all_code_ids = allow_all;
      allowed_code_ids = allowed;
      max_gas_before = before;
      max_gas_after = after;
    } in
    (p, validate p)

unfoldable pub default_params : Params
unfolding new_params
default_params = (new_params true [] default_max_gas default_max_gas).0

-- The loop of `IsAllowed`.
contains : List ℕ → ℕ → Bool
contains [] code_id = false
contains (allowed ∷ rest) code_id = if code_id == allowed then true else contains rest code_id

unfoldable pub is_allowed : Params → ℕ → Bool
unfolding contains
is_allowed p code_id = if p.allow_all_code_ids then true else contains p.allowed_code_ids code_id
