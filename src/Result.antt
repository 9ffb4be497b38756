-- ===== src/Result.antt =====
-- Go's results: a value, an `error` (types/errors.go, the SDK's and gogoproto's), or a panic.
use abstract_account.Prelude.{ℕ, ◌≡◌, refl, Bool, true, false}

-- The errors of a generated `Unmarshal`.
pub data ProtoError : Type 0 where
  int_overflow invalid_length unexpected_end_of_group unexpected_eof : ProtoError
  wrong_wire_type end_group illegal_tag illegal_wire_type : ProtoError

-- `external n` is an error that code outside the repository returns. What `Wrap` adds to a
-- message is left out.
pub data Error : Type 0 where
  malformed_allow_list non_empty_allow_list not_allowed_code_id not_base_account : Error
  not_single_signature zero_max_gas : Error
  parsing_params : Error → Error
  not_found unauthorized wrong_sequence tx_decode invalid_request invalid_coins : Error
  cannot_override_address cannot_set_pubkey logic : Error
  number_syntax number_range wrong_arguments : Error
  proto : ProtoError → Error
  external : ℕ → Error

pub data Panic : Type 0 where
  nil_dereference nil_value index_out_of_range verify_signature nil_keeper : Panic
  raised : Error → Panic
  out_of_gas out_of_fuel unimplemented : Panic
  -- `os.Exit`
  exited : ℕ → Panic
  foreign : ℕ → Panic

pub data Result {ℓ} (A : Type ℓ) : Type ℓ where
  ok : A → Result A
  err : Error → Result A
  panicked : Panic → Result A

infixl 5 ◌>>=◌
abbrev pub ◌>>=◌ {ℓ κ} : {A : Type ℓ} {B : Type κ} → Result A → (A → Result B) → Result B
ok a >>= f = f a
err e >>= f = err e
panicked p >>= f = panicked p

-- `if !test { return e }`
abbrev pub guard : Bool → Error → Result (Unit {0})
guard true e = ok tt
guard false e = err e

-- Inversion of a chain of results.
pub bind-elim {ℓ κ} :
    {A B : Type ℓ} {G : Type κ} (r : Result A) (f : A → Result B) {b : B}
    → (r >>= f) ≡ ok b
    → ((a : A) → r ≡ ok a → f a ≡ ok b → G)
    → G
bind-elim (ok a) f h k = k a refl h
bind-elim (err e) f h k = cc
bind-elim (panicked p) f h k = cc
