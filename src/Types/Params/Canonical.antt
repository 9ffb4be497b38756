-- ===== src/Types/Params/Canonical.antt =====
-- Valid parameters say each thing in one way.
use abstract_account.Prelude.{
  ℕ, ◌<◌, ◌≤◌, ◌≡◌, inl, inr, refl, sym, ◌∙◌, true, false, List, [], ◌∷◌, leb, Bool-cases, arith,
}
use abstract_account.Result.{ok}
use abstract_account.Types.Params.{Params, check_sorted, contains, is_allowed}
use native.Mathlib.Decide.{dec_le}
use abstract_account.Types.Params.Laws.{IsValid, Pairwise→check_sorted}

-- The head of an ascending list is above `prev`, and the rest ascends from it.
ascends :
    (prev a : ℕ) (l : List ℕ)
    → check_sorted prev (a ∷ l) ≡ ok tt
    → (prev < a) × (check_sorted a l ≡ ok tt)
unfolding check_sorted
ascends prev a l h = elim (Bool-cases (leb a prev)) [
  | inl e ↦ ground arith
  | inr e ↦ (ground arith, ground arith)
]

-- No number up to `prev` is in a list that ascends from it.
not_below :
    (prev : ℕ) (l : List ℕ) (c : ℕ) → check_sorted prev l ≡ ok tt → c ≤ prev → contains l c ≡ false
unfolding contains
not_below prev [] c h k = refl
not_below prev (a ∷ l) c h k =
    let (up, rest) = ascends prev a l h in ground (arith, not_below a l c rest (omega arith))

head_found : (a : ℕ) (l : List ℕ) → contains (a ∷ l) a ≡ true
unfolding contains
head_found a l = ground arith

not_least : (a b : ℕ) (r : List ℕ) → check_sorted b r ≡ ok tt → contains (b ∷ r) a ≡ true → b ≤ a
unfolding contains
not_least a b r h k = ground (arith, not_below b r a h)

none_in_empty : (c : ℕ) → contains [] c ≡ false
unfolding contains
none_in_empty c = refl

past_head : (a c : ℕ) (l : List ℕ) → a < c → contains (a ∷ l) c ≡ contains l c
unfolding contains
past_head a c l h = ground arith

-- Two ascending lists with the same members are one list.
ascending_unique :
    (prev : ℕ) (l r : List ℕ)
    → check_sorted prev l ≡ ok tt
    → check_sorted prev r ≡ ok tt
    → ((c : ℕ) → contains l c ≡ contains r c)
    → l ≡ r
ascending_unique prev [] [] hl hr e = refl
ascending_unique prev [] (b ∷ r) hl hr e = cc (e b, head_found b r, none_in_empty b)
ascending_unique prev (a ∷ l) [] hl hr e = cc (e a, head_found a l, none_in_empty a)
ascending_unique prev (a ∷ l) (b ∷ r) hl hr e =
    let (ua, sl) = ascends prev a l hl in
    let (ub, sr) = ascends prev b r hr in
    let same : a ≡ b = omega (
      arith,
      not_least b a l sl (e b ∙ head_found b r),
      not_least a b r sr (sym (e a) ∙ head_found a l),
    ) in
    let sr' : check_sorted a r ≡ ok tt = cc (same, sr) in
    let tails : l ≡ r = ascending_unique a l r sl sr' (λ (c : ℕ). elim (dec_le c a) [
      | yes low ↦ not_below a l c sl low ∙ sym (not_below a r c sr' low)
      | no high ↦
          let up : a < c = omega arith in
          let up' : b < c = omega (arith, same) in
          sym (past_head a c l up) ∙ (e c ∙ past_head b c r up')
    ]) in
    cc (same, tails)

by_list :
    (p : Params) (c : ℕ)
    → p.allow_all_code_ids ≡ false
    → is_allowed p c ≡ contains p.allowed_code_ids c
unfolding is_allowed
by_list p c h = ground arith

-- The code ID 0 is allowed exactly if every one is.
zero_tells : (p : Params) → IsValid p → is_allowed p 0 ≡ p.allow_all_code_ids
unfolding is_allowed
zero_tells p v = ground (
  arith,
  not_below 0 p.allowed_code_ids 0 (Pairwise→check_sorted 0 p.allowed_code_ids v.sorted)
      (omega arith),
)

-- Valid parameters are determined by their two gas limits and by which code IDs they allow: the
-- list of a valid set has one order and no repetition, it is empty if all code IDs are allowed, and
-- no valid list holds 0.
pub valid_params_unique :
    (p q : Params)
    → IsValid p
    → IsValid q
    → p.max_gas_before ≡ q.max_gas_before
    → p.max_gas_after ≡ q.max_gas_after
    → ((c : ℕ) → is_allowed p c ≡ is_allowed q c)
    → p ≡ q
valid_params_unique p q vp vq before after e =
    let same_open : p.allow_all_code_ids ≡ q.allow_all_code_ids =
      cc (e 0, zero_tells p vp, zero_tells q vq) in
    let same_list : p.allowed_code_ids ≡ q.allowed_code_ids =
      elim (Bool-cases p.allow_all_code_ids) [
        | inl all ↦ vp.open_list all ∙ sym (vq.open_list (sym same_open ∙ all))
        | inr some_only ↦
            ascending_unique 0 p.allowed_code_ids q.allowed_code_ids
              (Pairwise→check_sorted 0 p.allowed_code_ids vp.sorted)
              (Pairwise→check_sorted 0 q.allowed_code_ids vq.sorted)
              (λ (c : ℕ).
                sym (by_list p c some_only) ∙ (e c ∙ by_list q c (sym same_open ∙ some_only)))
      ] in
    λ i. record {
      allow_all_code_ids = same_open i;
      allowed_code_ids = same_list i;
      max_gas_before = before i;
      max_gas_after = after i;
    }
