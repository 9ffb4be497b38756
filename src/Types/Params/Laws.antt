-- ===== src/Types/Params/Laws.antt =====
-- Which parameters are valid, which error the others get, and which code IDs are allowed.
use abstract_account.Prelude.{
  ℕ, ◌<◌, ◌≡◌, ◌↔◌, ◌⊎◌, inl, inr, ◌≢◌, refl, true, false, List, [], ◌∷◌, arith, ◌==◌, Bool-cases,
}
use abstract_account.Result.{ok, err, zero_max_gas, malformed_allow_list, non_empty_allow_list}
use abstract_account.Types.Params.{Params, check_sorted, validate, contains, is_allowed}
use mathlib.Core.Logic.{◌∨₁◌}
use mathlib.Core.Logic.Or
use mathlib.Core.List.{Mem, mem-cons, not-mem-nil, Pairwise, Pairwise-cons}
use mathlib.Core.Bool.{Bool-set}
use native.Mathlib.Bridge.{le_prop}

-- What the comments of params.go and params.proto ask for. The chain `0 < c₁ < c₂ < …` says that
-- the code IDs are non-zero, unique and sorted.
pub record IsValid (p : Params) : Type 0 where
  pub gas_before : 0 < p.max_gas_before
  pub gas_after : 0 < p.max_gas_after
  pub open_list : p.allow_all_code_ids ≡ true → p.allowed_code_ids ≡ []
  pub sorted : Pairwise ◌<◌ (0 ∷ p.allowed_code_ids)

lt_all : {x y z : ℕ} {l : List ℕ} → x < y → Pairwise ◌<◌ (y ∷ l) → Mem z (y ∷ l) → x < z
lt_all h s m =
    Or.elim le_prop (mem-cons.0 m) (λ e. omega arith)
      (λ k. let g = (Pairwise-cons.0 s).0 _ k in omega arith)

check_sorted→Pairwise :
    (prev : ℕ) (l : List ℕ) → check_sorted prev l ≡ ok tt → Pairwise ◌<◌ (prev ∷ l)
unfolding check_sorted
check_sorted→Pairwise prev [] h = Pairwise-cons.1 ((λ a m. absurd (not-mem-nil m)), Pairwise.nil)
check_sorted→Pairwise prev (c ∷ rest) h =
    let s = check_sorted→Pairwise c rest (ground arith) in
    Pairwise-cons.1 ((λ a m. lt_all (ground arith) s m), s)

pub Pairwise→check_sorted :
    (prev : ℕ) (l : List ℕ) → Pairwise ◌<◌ (prev ∷ l) → check_sorted prev l ≡ ok tt
unfolding check_sorted
Pairwise→check_sorted prev [] s = refl
Pairwise→check_sorted prev (c ∷ rest) s =
    let h = (Pairwise-cons.0 s).0 c (mem-cons.1 (Or.inl refl)) in
    ground (arith, Pairwise→check_sorted c rest (Pairwise-cons.0 s).1)

-- `validate` accepts exactly the parameters whose gas limits are positive, whose list is empty if
-- all code IDs are allowed, and whose code IDs are non-zero, unique and in ascending order.
pub validate_iff : (p : Params) → (validate p ≡ ok tt) ↔ IsValid p
unfolding validate
validate_iff p = (
  (λ h. record {
    gas_before = ground arith;
    gas_after = ground arith;
    open_list = λ e. ground arith;
    sorted = check_sorted→Pairwise 0 p.allowed_code_ids (ground arith);
  }),
  λ v. ground (arith, Pairwise→check_sorted 0 p.allowed_code_ids v.sorted, v.open_list),
)

check_sorted_cases :
    (prev : ℕ) (l : List ℕ)
    → (check_sorted prev l ≡ ok tt) ⊎ (check_sorted prev l ≡ err malformed_allow_list)
unfolding check_sorted
check_sorted_cases prev [] = inl refl
check_sorted_cases prev (c ∷ rest) = ground (arith, check_sorted_cases c rest)

check_sorted_refuses :
    (prev : ℕ) (l : List ℕ)
    → (check_sorted prev l ≡ err malformed_allow_list) ↔ ¬ Pairwise ◌<◌ (prev ∷ l)
check_sorted_refuses prev l = (
  (λ h s. cc (h, Pairwise→check_sorted prev l s)),
  λ n. elim (check_sorted_cases prev l) [
    | inl e ↦ absurd (n (check_sorted→Pairwise prev l e))
    | inr e ↦ e
  ],
)

-- A refused parameter set gets the error of the first rule that it breaks: a zero gas limit, then a
-- list beside `AllowAllCodeIDs`, then a list out of order. On every input, `validate` accepts the
-- set or returns one of these three errors.
pub validate_errors :
    (p : Params)
    → ((validate p ≡ err zero_max_gas) ↔ ((p.max_gas_before ≡ 0) ⊎ (p.max_gas_after ≡ 0)))
      × ((validate p ≡ err non_empty_allow_list) ↔ (
          (0 < p.max_gas_before)
          × (0 < p.max_gas_after)
          × (p.allow_all_code_ids ≡ true)
          × (p.allowed_code_ids ≢ [])))
      × ((validate p ≡ err malformed_allow_list) ↔ (
          (0 < p.max_gas_before)
          × (0 < p.max_gas_after)
          × (p.allow_all_code_ids ≡ false)
          × ¬ Pairwise ◌<◌ (0 ∷ p.allowed_code_ids)))
      × ((validate p ≡ ok tt)
          ⊎ ((validate p ≡ err zero_max_gas)
              ⊎ ((validate p ≡ err non_empty_allow_list)
                  ⊎ (validate p ≡ err malformed_allow_list))))
unfolding validate
validate_errors p = (
  (ground (arith, check_sorted_cases 0 p.allowed_code_ids), ground arith),
  (ground (arith, check_sorted_cases 0 p.allowed_code_ids), ground arith),
  (
    (λ h. (ground arith, ground arith, ground arith, (check_sorted_refuses _ _).0 (ground arith))),
    λ h. ground (arith, (check_sorted_refuses 0 p.allowed_code_ids).1 h.3),
  ),
  ground (arith, check_sorted_cases 0 p.allowed_code_ids),
)

contains_iff : (l : List ℕ) (c : ℕ) → (contains l c ≡ true) ↔ Mem c l
unfolding contains
contains_iff [] c = ((λ h. cc), λ m. absurd (not-mem-nil m))
contains_iff (x ∷ xs) c = elim (Bool-cases (c == x)) [
  | inl e ↦ rw e ((λ h. mem-cons.1 (Or.inl (ground arith))), λ m. refl)
  | inr e ↦ rw e (
    (λ h. mem-cons.1 (Or.inr ((contains_iff xs c).0 h))),
    λ m. Or.elim (Bool-set _ _) (mem-cons.0 m) (λ k. ground arith) (contains_iff xs c).1,
  )
]

-- A code ID is allowed exactly if every one is, or if the list holds it.
pub is_allowed_iff :
    (p : Params) (c : ℕ)
    → (is_allowed p c ≡ true) ↔ ((p.allow_all_code_ids ≡ true) ∨₁ Mem c p.allowed_code_ids)
unfolding is_allowed
is_allowed_iff p c = elim (Bool-cases p.allow_all_code_ids) [
  | inl e ↦ rw e ((λ h. Or.inl refl), λ m. refl)
  | inr e ↦ rw e (
    (λ h. Or.inr ((contains_iff _ c).0 h)),
    λ m. Or.elim (Bool-set _ _) m (λ k. cc) (contains_iff _ c).1,
  )
]
