-- ===== src/Prelude/Decimal.antt =====
-- `%d` of `fmt.Sprintf` on a `uint64`.
pub mod Parse
use Prim.Native.Nat.{ℕ, zero, suc, ◌+◌, ◌-◌, ◌*◌, ◌/◌, ◌%◌, ◌^◌, ◌<◌}
use mathlib.Core.Path.{◌≡◌, ap, ◌∙◌, sym}
use mathlib.Core.Logic.{inl, inr}
use mathlib.Core.List.{List, [], ◌∷◌, ◌++◌, foldl, foldl-append}
use native.Mathlib.Nat.{pow-suc}
use native.Mathlib.Omega.{arith}
use abstract_account.Prelude.Tests.{ltb, if◌then◌else◌, Bool-cases}

-- The digits of `n`, for `n` below 10 ^ (fuel + 1).
decimal_upto : ℕ → ℕ → List ℕ
decimal_upto zero n = (48 + n % 10) ∷ []
decimal_upto (suc fuel) n =
    let front = decimal_upto fuel (n / 10) in
    if ltb n 10 then (48 + n) ∷ [] else front ++ (48 + n % 10) ∷ []

-- A `uint64` has at most 20 digits.
unfoldable pub decimal : ℕ → List ℕ
unfolding decimal_upto
decimal = decimal_upto 19

add_digit : ℕ → ℕ → ℕ
add_digit n c = n * 10 + (c - 48)

value : List ℕ → ℕ
value = foldl add_digit 0

value-decimal_upto : (fuel n : ℕ) → n < 10 * 10 ^ fuel → value (decimal_upto fuel n) ≡ n
unfolding value decimal_upto add_digit
value-decimal_upto zero n h = omega arith
value-decimal_upto (suc fuel) n h = elim (Bool-cases (ltb n 10)) [
  | inl e ↦ rw e (ground arith)
  | inr e ↦
      rw (e, foldl-append)
        (omega (arith, value-decimal_upto fuel (n / 10) (omega (arith, pow-suc 10 fuel))))
]

-- Different numbers print differently.
pub decimal-injective : (a b : ℕ) → a < 2 ^ 64 → b < 2 ^ 64 → decimal a ≡ decimal b → a ≡ b
unfolding decimal
decimal-injective a b ha hb e =
    sym (value-decimal_upto 19 a (omega arith)) ∙ ap value e ∙ value-decimal_upto 19 b (omega arith)
