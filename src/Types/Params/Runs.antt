-- ===== src/Types/Params/Runs.antt =====
-- Runs of params.go, as in params_test.go, and its theorems at concrete parameters.
use abstract_account.Prelude.{◌<◌, ◌≡◌, ◌≢◌, ◌↔◌, ◌⊎◌, refl, true, false, [], ◌∷◌}
use abstract_account.Result.{ok, err, zero_max_gas, malformed_allow_list, non_empty_allow_list}
use abstract_account.Types.Params.Canonical.{valid_params_unique}
use abstract_account.Types.Params.{Params, new_params, validate, default_params, is_allowed}
use abstract_account.Types.Params.Laws.{IsValid, validate_iff, validate_errors, is_allowed_iff}
use mathlib.Core.Logic.{◌∨₁◌}
use mathlib.Core.List.{Mem, Pairwise}

abbrev listed : Params
listed = record {
  allow_all_code_ids = false;
  allowed_code_ids = 1 ∷ 69 ∷ 420 ∷ [];
  max_gas_before = 88888;
  max_gas_after = 99999;
}

abbrev doubled : Params
doubled = record listed { allowed_code_ids = 1 ∷ 2 ∷ 2 ∷ [] }

abbrev with_zero : Params
with_zero = record listed { allowed_code_ids = 0 ∷ 1 ∷ 2 ∷ [] }

default_is_valid : validate default_params ≡ ok tt
unfolding validate default_params
default_is_valid = refl

listed_is_valid : validate listed ≡ ok tt
unfolding validate
listed_is_valid = refl

refused :
    (validate doubled ≡ err malformed_allow_list)
    × (validate with_zero ≡ err malformed_allow_list)
    × (validate (record listed { allow_all_code_ids = true }) ≡ err non_empty_allow_list)
    × (validate (record listed { max_gas_after = 0 }) ≡ err zero_max_gas)
unfolding validate
refused = (refl, refl, refl, refl)

allowed_or_not : (is_allowed listed 69 ≡ true) × (is_allowed listed 70 ≡ false)
unfolding is_allowed
allowed_or_not = (refl, refl)

validate_iff_example : (validate listed ≡ ok tt) ↔ IsValid listed
validate_iff_example = validate_iff listed

validate_errors_example :
    ((validate doubled ≡ err zero_max_gas)
      ↔ ((doubled.max_gas_before ≡ 0) ⊎ (doubled.max_gas_after ≡ 0)))
    × ((validate doubled ≡ err non_empty_allow_list) ↔ (
        (0 < doubled.max_gas_before)
        × (0 < doubled.max_gas_after)
        × (doubled.allow_all_code_ids ≡ true)
        × (doubled.allowed_code_ids ≢ [])))
    × ((validate doubled ≡ err malformed_allow_list) ↔ (
        (0 < doubled.max_gas_before)
        × (0 < doubled.max_gas_after)
        × (doubled.allow_all_code_ids ≡ false)
        × ¬ Pairwise ◌<◌ (0 ∷ doubled.allowed_code_ids)))
    × ((validate doubled ≡ ok tt)
        ⊎ ((validate doubled ≡ err zero_max_gas)
            ⊎ ((validate doubled ≡ err non_empty_allow_list)
                ⊎ (validate doubled ≡ err malformed_allow_list))))
validate_errors_example = validate_errors doubled

is_allowed_iff_example :
    (is_allowed listed 69 ≡ true)
    ↔ ((listed.allow_all_code_ids ≡ true) ∨₁ Mem 69 listed.allowed_code_ids)
is_allowed_iff_example = is_allowed_iff listed 69

listed-IsValid : IsValid listed
listed-IsValid = (validate_iff listed).0 listed_is_valid

valid_params_unique_example : (new_params false (1 ∷ 69 ∷ 420 ∷ []) 88888 99999).0 ≡ listed
unfolding new_params
valid_params_unique_example =
    valid_params_unique (new_params false (1 ∷ 69 ∷ 420 ∷ []) 88888 99999).0 listed listed-IsValid
      listed-IsValid refl refl (λ c. refl)
