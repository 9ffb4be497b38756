-- ===== src/Exec.antt =====
-- Handlers that read and write the chain's state. What was written before an error or a panic stays
-- written, so the state comes back beside the result; the caller of a handler decides what is kept.
use abstract_account.Prelude.{◌≡◌, refl}
use abstract_account.Result.{Result, ok, err, panicked, Error}

abbrev pub Exec {ℓ} : Type ℓ → Type ℓ → Type ℓ
Exec S A = S → Result A × S

module _ {ℓ} {S A B : Type ℓ} where
  abbrev pub and_then : Result A × S → (A → Exec S B) → Result B × S
  and_then (ok a, s) f = f a s
  and_then (err e, s) f = (err e, s)
  and_then (panicked p, s) f = (panicked p, s)

  infixl 5 ◌>>=◌
  abbrev pub ◌>>=◌ : Exec S A → (A → Exec S B) → Exec S B
  ◌>>=◌ m f s = and_then (m s) f

  infixl 5 ◌>>◌
  abbrev pub ◌>>◌ : Exec S A → Exec S B → Exec S B
  ◌>>◌ m k s = and_then (m s) (λ _. k)

module _ {ℓ} {S A : Type ℓ} where
  abbrev pub pure : A → Exec S A
  pure a s = (ok a, s)

  abbrev pub throw : Error → Exec S A
  throw e s = (err e, s)

  abbrev pub lift : Result A → Exec S A
  lift r s = (r, s)

  abbrev pub gets : (S → A) → Exec S A
  gets f s = (ok (f s), s)

abbrev pub modify : {S : Type 0} → (S → S) → Exec S (Unit {0})
modify f s = (ok tt, f s)

-- Inversion of a block that returns: its first step returned, and so did the rest from there.
pub and_then-elim {ℓ κ} :
    {S A B : Type ℓ} {G : Type κ} (r : Result A × S) (f : A → Exec S B) {b : B} {s' : S}
    → and_then r f ≡ (ok b, s')
    → ((a : A) (s : S) → r ≡ (ok a, s) → f a s ≡ (ok b, s') → G)
    → G
and_then-elim (ok a, s) f h k = k a s refl h
and_then-elim (err e, s) f h k = cc
and_then-elim (panicked p, s) f h k = cc

-- The same for a step that does not touch the state.
pub lift-elim {ℓ κ} :
    {S A B : Type ℓ} {G : Type κ} (r : Result A) (s : S) (f : A → Exec S B) {b : B} {s' : S}
    → and_then (r, s) f ≡ (ok b, s')
    → ((a : A) → r ≡ ok a → f a s ≡ (ok b, s') → G)
    → G
lift-elim (ok a) s f h k = k a refl h
lift-elim (err e) s f h k = cc
lift-elim (panicked p) s f h k = cc
