-- ===== src/Wire/Safe.antt =====
-- Reads that end with a value or with an error.
use abstract_account.Prelude.{
  ℕ, ◌<◌, ◌≡◌, refl, Bool, true, false, if◌then◌else◌, arith, length, IsU64,
}
use abstract_account.Result.{Result, ok, err, panicked, ◌>>=◌}
use abstract_account.Wire.Varint.{Cursor, read_varint}
use abstract_account.Wire.Varint.Read.{Takes, read_varint-Takes, read_varint-ne-panicked}

-- The result is not a panic, and a value is `Good`.
abbrev pub Safe {ℓ} : {A : Type ℓ} → (A → Type 0) → Result A → Type 0
Safe Good (ok a) = Good a
Safe Good (err e) = Unit {0}
Safe Good (panicked p) = ⊥

pub bind-Safe {ℓ η} :
    {A : Type ℓ} {B : Type η} (G : A → Type 0) (H : B → Type 0) (r : Result A) (f : A → Result B)
    → Safe G r
    → ((a : A) → G a → Safe H (f a))
    → Safe H (r >>= f)
bind-Safe G H (ok a) f s k = k a s
bind-Safe G H (err e) f s k = tt
bind-Safe G H (panicked p) f s k = absurd s

pub if-Safe {ℓ} :
    {A : Type ℓ} (G : A → Type 0) (t : Bool) (r u : Result A)
    → Safe G r
    → Safe G u
    → Safe G (if t then r else u)
if-Safe G true r u s k = s
if-Safe G false r u s k = k

-- `d` is further on than `c`, with less left.
pub record Ahead (c d : Cursor) : Type 0 where
  pub index : c.index < d.index
  pub rest : length d.rest < length c.rest

-- What a read of a number gives.
pub record Reads (c : Cursor) (p : ℕ × Cursor) : Type 0 where
  pub fits : IsU64 p.0
  pub ahead : Ahead c p.1

read-Safe : (c : Cursor) (r : Result (ℕ × Cursor)) → read_varint c ≡ r → Safe (Reads c) r
read-Safe c (ok (v, d)) e =
    let t : Takes v c d = read_varint-Takes c v d e in
    record {
      fits = t.fits;
      ahead = record { index = t.forward; rest = omega (arith, t.forward, t.whole) };
    }
read-Safe c (err x) e = tt
read-Safe c (panicked p) e = read_varint-ne-panicked c p e

pub read_varint-Reads : (c : Cursor) → Safe (Reads c) (read_varint c)
read_varint-Reads c = read-Safe c (read_varint c) refl

pub weaken-Safe {ℓ} :
    {A : Type ℓ} (G H : A → Type 0) (r : Result A) → ((a : A) → G a → H a) → Safe G r → Safe H r
weaken-Safe G H (ok a) k s = k a s
weaken-Safe G H (err e) k s = tt
weaken-Safe G H (panicked p) k s = s

pub read_varint-Safe : (c : Cursor) → Safe (λ p. Ahead c p.1) (read_varint c)
read_varint-Safe c =
    weaken-Safe (Reads c) (λ p. Ahead c p.1) (read_varint c) (λ p r. r.ahead) (read_varint-Reads c)
