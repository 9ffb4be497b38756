-- ===== src/Prelude/Decimal/Parse.antt =====
-- `strconv.ParseUint(s, 10, 64)`.
use abstract_account.Prelude.{
  ℕ, zero, suc, ◌+◌, ◌-◌, ◌*◌, ◌/◌, ◌%◌, ◌^◌, ◌<◌, ◌≡◌, refl, ◌∙◌, Bytes, IsU64, false, [], ◌∷◌,
  ◌++◌, is_empty, ltb, leb, ◌||◌, Bool-cases, inl, inr, if◌then◌else◌, arith,
}
use abstract_account.Prelude.Decimal.{decimal, decimal_upto}
use abstract_account.Result.{Result, ok, err, number_syntax, number_range, ◌>>=◌}
use native.Mathlib.Nat.{pow-suc}

parse_digits : ℕ → Bytes → Result ℕ
parse_digits n [] = ok n
parse_digits n (c ∷ rest) =
    let more = parse_digits (n * 10 + (c - 48)) rest in
    if ltb c 48 || ltb 57 c
    then err number_syntax
    else if leb (2 ^ 64) (n * 10 + (c - 48))
    then err number_range
    else more

unfoldable pub parse_uint : Bytes → Result ℕ
unfolding parse_digits
parse_uint s = let n = parse_digits 0 s in if is_empty s then err number_syntax else n

parse_digits-append :
    (n : ℕ) (xs ys : Bytes)
    → parse_digits n (xs ++ ys) ≡ (parse_digits n xs >>= (λ m. parse_digits m ys))
unfolding parse_digits
parse_digits-append n [] ys = refl
parse_digits-append n (c ∷ xs) ys = ground (arith, parse_digits-append (n * 10 + (c - 48)) xs ys)

one_digit :
    (n d : ℕ) → d < 10 → IsU64 (n * 10 + d) → parse_digits n ((48 + d) ∷ []) ≡ ok (n * 10 + d)
unfolding parse_digits
one_digit n d h k = ground arith

parse_digits-decimal_upto :
    (fuel n : ℕ) → n < 10 * 10 ^ fuel → IsU64 n → parse_digits 0 (decimal_upto fuel n) ≡ ok n
unfolding decimal_upto
parse_digits-decimal_upto zero n h k =
    one_digit 0 (n % 10) (omega arith) (omega arith) ∙ ground arith
parse_digits-decimal_upto (suc fuel) n h k = elim (Bool-cases (ltb n 10)) [
  | inl e ↦ rw e (one_digit 0 n (ground arith) (omega arith) ∙ ground arith)
  | inr e ↦ rw e (
      parse_digits-append 0 (decimal_upto fuel (n / 10)) ((48 + n % 10) ∷ [])
      ∙ rw (parse_digits-decimal_upto fuel (n / 10) (omega (arith, pow-suc 10 fuel)) (omega arith))
          (one_digit (n / 10) (n % 10) (omega arith) (omega arith) ∙ ground arith))
]

nonempty : (fuel n : ℕ) → is_empty (decimal_upto fuel n) ≡ false
unfolding decimal_upto
nonempty zero n = refl
nonempty (suc fuel) n = elim (Bool-cases (ltb n 10)) [
  | inl e ↦ rw e refl
  | inr e ↦ rw e (snoc (decimal_upto fuel (n / 10)) (48 + n % 10))
]
  where
    snoc : (xs : Bytes) (c : ℕ) → is_empty (xs ++ (c ∷ [])) ≡ false
    snoc [] c = refl
    snoc (x ∷ xs) c = refl

-- What `%d` prints for a `uint64`, `ParseUint` reads back.
pub parse_uint-decimal : (n : ℕ) → IsU64 n → parse_uint (decimal n) ≡ ok n
unfolding parse_uint decimal
parse_uint-decimal n h = rw (nonempty 19 n) (parse_digits-decimal_upto 19 n (omega arith) h)
