-- ===== src/Wire/Params/Total.antt =====
-- `Unmarshal` of `Params` ends on every input, with numbers of 64 bits.
use abstract_account.Prelude.{
  ℕ, zero, suc, ◌+◌, ◌<◌, ◌≢◌, Bytes, IsU64, All, List, [], ◌∷◌, ◌++◌, ltb, ltb→lt, ◌==◌, not,
  arith, Bool-cases, inl, inr,
}
use abstract_account.Result.{Result, ok, err, panicked, Panic}
use abstract_account.Types.Params.{Params}
use abstract_account.Wire.Varint.{Cursor, read_varint}
use abstract_account.Wire.Safe.{Safe, bind-Safe, if-Safe, weaken-Safe, read_varint-Reads}
use abstract_account.Wire.Message.{read_length}
use abstract_account.Wire.Message.Total.{
  Within, Case, Total, read_length-Safe, read_uint-Safe, unmarshal_into-Safe,
}
use abstract_account.Wire.Params.{zero_params, read_packed, read_codes, fields, unmarshal}

-- The Go types of the fields.
pub record HasTypes (m : Params) : Type 0 where
  pub codes : All IsU64 m.allowed_code_ids
  pub before : IsU64 m.max_gas_before
  pub after : IsU64 m.max_gas_after

pub zero_params-HasTypes : HasTypes zero_params
zero_params-HasTypes = record { codes = tt; before = omega arith; after = omega arith }

IsU64-snoc : (l : List ℕ) (v : ℕ) → All IsU64 l → IsU64 v → All IsU64 (l ++ (v ∷ []))
IsU64-snoc [] v h p = (p, tt)
IsU64-snoc (x ∷ l) v h p = (h.0, IsU64-snoc l v h.1 p)

-- Numbers of 64 bits where `m₀` has the types, and what is left.
module _ (m₀ : Params) where
  abbrev Packed : Cursor → List ℕ × Cursor → Type 0
  Packed c r = (HasTypes m₀ → All IsU64 r.0) × Within c r.1

  -- The types of the message that is read into are kept.
  abbrev pub Keeps : Params → Type 0
  Keeps m = HasTypes m₀ → HasTypes m

  read_packed-Safe :
      (fuel post : ℕ) (codes : List ℕ) (c : Cursor)
      → 0 < fuel
      → post < c.index + fuel
      → (HasTypes m₀ → All IsU64 codes)
      → Safe (Packed c) (read_packed fuel post codes c)
  unfolding read_packed
  read_packed-Safe zero post codes c h k t = elim h [ ]
  read_packed-Safe (suc fuel) post codes c h k t = elim (Bool-cases (ltb c.index post)) [
    | inl e ↦ rw e (
        bind-Safe _ _ (read_varint c) _ (read_varint-Reads c) λ r a.
          weaken-Safe (Packed r.1) (Packed c) _ (λ s q. (q.0, omega (arith, q.1, a.ahead.rest)))
            (read_packed-Safe fuel post (codes ++ (r.0 ∷ [])) r.1
              (omega (arith, ltb→lt c.index post e)) (omega (arith, a.ahead.index))
              (λ t₀. IsU64-snoc codes r.0 (t t₀) a.fits)))
    | inr e ↦ rw e (t, omega arith)
  ]

  read_codes-Safe :
      (w : ℕ) (m : Params) (c : Cursor) → Keeps m → Safe (Case Keeps c) (read_codes w m c)
  unfolding read_codes
  read_codes-Safe w m c t =
      if-Safe _ (w == 0) _ _
        (read_uint-Safe Keeps (λ v. record m { allowed_code_ids = m.allowed_code_ids ++ (v ∷ []) })
          c
          λ v h t₀. record {
            codes = IsU64-snoc m.allowed_code_ids v (t t₀).codes h;
            before = (t t₀).before;
            after = (t t₀).after;
          })
        (if-Safe _ (w == 2) _ _
          (bind-Safe _ _ (read_length c) _ (read_length-Safe c) λ r a.
            bind-Safe _ _ (read_packed (suc r.0) (r.1.index + r.0) m.allowed_code_ids r.1) _
              (read_packed-Safe (suc r.0) (r.1.index + r.0) m.allowed_code_ids r.1 (omega arith)
                (omega arith) (λ t₀. (t t₀).codes))
              λ s k. (
                λ t₀. record { codes = k.0 t₀; before = (t t₀).before; after = (t t₀).after },
                omega (arith, a.rest, k.1),
              ))
          tt)

  fields-Total : Total Keeps fields
  unfolding fields
  fields-Total = record {
    at = λ n w m c t.
        if-Safe _ (n == 1) _ _
          (if-Safe _ (w == 0) _ _
            (read_uint-Safe Keeps (λ v. record m { allow_all_code_ids = not (v == 0) }) c
              λ v h t₀. record {
                codes = (t t₀).codes;
                before = (t t₀).before;
                after = (t t₀).after;
              })
            tt)
          (if-Safe _ (n == 2) _ _ (read_codes-Safe w m c t) (
            if-Safe _ (n == 3) _ _
              (if-Safe _ (w == 0) _ _
                (read_uint-Safe Keeps (λ v. record m { max_gas_before = v }) c
                  λ v h t₀. record { codes = (t t₀).codes; before = h; after = (t t₀).after })
                tt)
              (if-Safe _ (n == 4) _ _
                (if-Safe _ (w == 0) _ _
                  (read_uint-Safe Keeps (λ v. record m { max_gas_after = v }) c
                    λ v h t₀. record { codes = (t t₀).codes; before = (t t₀).before; after = h })
                  tt)
                tt)));
  }

-- `Unmarshal` ends, without a panic, and keeps the types of the message that it reads into.
pub unmarshal-Safe : (m : Params) (bz : Bytes) → Safe (Keeps m) (unmarshal m bz)
unfolding unmarshal
unmarshal-Safe m bz = unmarshal_into-Safe (Keeps m) fields (fields-Total m) m bz (λ t. t)

pub Safe-ne-panicked {ℓ} :
    {A : Type ℓ} (G : A → Type 0) (r : Result A) (p : Panic) → Safe G r → r ≢ panicked p
Safe-ne-panicked G (ok m) p s e = cc
Safe-ne-panicked G (err x) p s e = cc
Safe-ne-panicked G (panicked q) p s e = s

-- On every input, `Unmarshal` of parameters ends with a value or with an error: it does not panic,
-- and its loops end within the fuel that they are given.
pub unmarshal-ne-panicked : (m : Params) (bz : Bytes) (p : Panic) → unmarshal m bz ≢ panicked p
unmarshal-ne-panicked m bz p = Safe-ne-panicked (Keeps m) _ p (unmarshal-Safe m bz)
