-- ===== src/Wire/Message/Total.antt =====
-- The frame of `Unmarshal` ends on every input, if the switch does.
use abstract_account.Result.{Result}
use abstract_account.Prelude.{
  IsU64, ℕ, zero, suc, ◌+◌, ◌/◌, ◌%◌, ◌^◌, ◌<◌, ◌≤◌, ◌||◌, Bytes, Option, none, some, leb, ltb,
  ◌==◌, bit_and, length, length-drop, is_empty, arith,
}
use abstract_account.Wire.Varint.{Cursor, read_varint}
use abstract_account.Wire.Skip.{int_limit, skip}
use abstract_account.Wire.Skip.Total.{skip-Safe}
use abstract_account.Wire.Safe.{
  Safe, bind-Safe, if-Safe, Ahead, read_varint-Safe, read_varint-Reads,
}
use abstract_account.Wire.Message.{
  read_length, read_bytes, skip_field, Fields, read_uint, read_slice, read_message, or_skip,
  read_field, read_fields, unmarshal_into,
}

-- No more is left in `d` than in `c`.
abbrev pub Within : Cursor → Cursor → Type 0
Within c d = length d.rest ≤ length c.rest

pub read_length-Safe : (c : Cursor) → Safe (λ r. Ahead c r.1) (read_length c)
unfolding read_length
read_length-Safe c = bind-Safe _ _ (read_varint c) _ (read_varint-Safe c) λ r a.
    if-Safe _ (leb int_limit r.0) _ _ tt (
      if-Safe _ (leb int_limit (r.1.index + r.0)) _ _ tt
        (if-Safe _ (ltb (length r.1.rest) r.0) _ _ tt a))

pub read_bytes-Safe : (c : Cursor) → Safe (λ r. Within c r.1) (read_bytes c)
unfolding read_bytes
read_bytes-Safe c =
    bind-Safe _ _ (read_length c) _ (read_length-Safe c)
      λ r a. omega (arith, a.rest, length-drop r.0 r.1.rest)

skip_field-Safe :
    (c : Cursor) → 0 < length c.rest → Safe (λ d. length d.rest < length c.rest) (skip_field c)
unfolding skip_field
skip_field-Safe c h = bind-Safe _ _ (skip c.rest) _ (skip-Safe c.rest) λ n pos.
    if-Safe _ (leb int_limit (c.index + n)) _ _ tt
      (if-Safe _ (ltb (length c.rest) n) _ _ tt (omega (arith, length-drop n c.rest)))

module _ {M : Type 0} (T : M → Type 0) where
  -- A case of the switch leaves no more than there was, and a message of the right types.
  abbrev pub Case : Cursor → Option (M × Cursor) → Type 0
  Case c none = Unit {0}
  Case c (some (m, d)) = T m × Within c d

  pub read_uint-Safe :
      (set : ℕ → M) (c : Cursor) → ((v : ℕ) → IsU64 v → T (set v)) → Safe (Case c) (read_uint set c)
  read_uint-Safe set c t =
      bind-Safe _ _ (read_varint c) _ (read_varint-Reads c)
        λ r a. (t r.0 a.fits, omega (arith, a.ahead.rest))

  pub read_slice-Safe :
      (set : Bytes → M) (c : Cursor)
      → ((xs : Bytes) → T (set xs))
      → Safe (Case c) (read_slice set c)
  read_slice-Safe set c t = bind-Safe _ _ (read_bytes c) _ (read_bytes-Safe c) λ r w. (t r.0, w)

  -- An embedded message.
  pub read_message-Safe :
      (set : Bytes → Result M) (c : Cursor)
      → ((xs : Bytes) → Safe T (set xs))
      → Safe (Case c) (read_message set c)
  read_message-Safe set c t =
      bind-Safe _ _ (read_bytes c) _ (read_bytes-Safe c)
        λ r w. bind-Safe _ _ (set r.0) _ (t r.0) λ m k. (k, w)

module _ {M : Type 0} (T : M → Type 0) (fields : Fields M) where
  -- Every case of the switch ends with a value or an error, and keeps the types.
  pub record Total : Type 0 where
    pub at : (n w : ℕ) (m : M) (c : Cursor) → T m → Safe (Case T c) (fields n w m c)

  -- What a round leaves of a cursor.
  abbrev Round : Cursor → M × Cursor → Type 0
  Round c r = T r.0 × (length r.1.rest < length c.rest)

  or_skip-Safe :
      (m : M) (c d : Cursor) (o : Option (M × Cursor))
      → T m
      → Ahead c d
      → Case T d o
      → Safe (Round c) (or_skip fields m c o)
  unfolding or_skip
  or_skip-Safe m c d none t a k =
      bind-Safe _ _ (skip_field c) _ (skip_field-Safe c (omega (arith, a.rest))) λ e h. (t, h)
  or_skip-Safe m c d (some (m', e)) t a k = (k.0, omega (arith, a.rest, k.1))

  read_field-Safe : Total → (m : M) (c : Cursor) → T m → Safe (Round c) (read_field fields m c)
  unfolding read_field
  read_field-Safe total m c t = bind-Safe _ _ (read_varint c) _ (read_varint-Safe c) λ r a.
      if-Safe _ (bit_and r.0 7 == 4) _ _ tt (
        if-Safe _ ((r.0 / 8 % 2 ^ 32 == 0) || leb (2 ^ 31) (r.0 / 8 % 2 ^ 32)) _ _ tt (
          bind-Safe _ _ (fields (r.0 / 8 % 2 ^ 32) (bit_and r.0 7) m r.1) _
            (total.at (r.0 / 8 % 2 ^ 32) (bit_and r.0 7) m r.1 t)
            λ o k. or_skip-Safe m c r.1 o t a k))

  read_fields-Safe :
      Total
      → (fuel : ℕ) (m : M) (c : Cursor) → length c.rest < fuel
      → T m
      → Safe T (read_fields fields fuel m c)
  unfolding read_fields
  read_fields-Safe total zero m c h t = elim h [ ]
  read_fields-Safe total (suc fuel) m c h t = if-Safe _ (is_empty c.rest) _ _ t (
      bind-Safe _ _ (read_field fields m c) _ (read_field-Safe total m c t)
        λ r k. read_fields-Safe total fuel r.0 r.1 (omega (arith, k.1)) k.0)

  pub unmarshal_into-Safe : Total → (m : M) (bz : Bytes) → T m → Safe T (unmarshal_into fields m bz)
  unfolding unmarshal_into
  unmarshal_into-Safe total m bz t = read_fields-Safe total (suc (length bz)) m _ (omega arith) t
