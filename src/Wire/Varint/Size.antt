-- ===== src/Wire/Varint/Size.antt =====
-- `sov` is the number of bytes that `encodeVarint` writes.
use abstract_account.Prelude.{
  ℕ, zero, suc, ◌+◌, ◌*◌, ◌/◌, ◌%◌, ◌^◌, ◌≤◌, ◌<◌, ◌≡◌, refl, ap, Bytes, IsByte, IsU64, [], ◌∷◌,
  ltb, if◌then◌else◌, length, All, arith,
}
use abstract_account.Prelude.Bits.{or_one, mask_127, set_top_bit}
use abstract_account.Wire.Varint.{len, sov, write_groups, groups}
use native.Mathlib.Nat.{pow-suc}

-- The groups of seven bits of `v`, lowest first, for `v` below 128 ^ (k + 1).
unfoldable pub varint : ℕ → ℕ → Bytes
varint zero v = v ∷ []
varint (suc k) v =
    let rest = varint k (v / 128) in if ltb v 128 then v ∷ [] else (v % 128 + 128) ∷ rest

-- The bytes of a `uint64`.
abbrev pub uvarint : ℕ → Bytes
uvarint = varint 9

write_groups_lem : (k v : ℕ) → v < 128 * 128 ^ k → write_groups k v ≡ varint k v
unfolding write_groups varint
write_groups_lem zero v h = ground arith
write_groups_lem (suc k) v h = ground (
  arith,
  mask_127 v,
  set_top_bit (v % 128) (omega arith),
  pow-suc 128 k,
  write_groups_lem k (v / 128) (omega (arith, pow-suc 128 k)),
)

varint-IsByte : (k v : ℕ) → v < 128 * 128 ^ k → All IsByte (varint k v)
unfolding varint
varint-IsByte zero v h = ground arith
varint-IsByte (suc k) v h =
    ground (arith, pow-suc 128 k, varint-IsByte k (v / 128) (omega (arith, pow-suc 128 k)))

len-le : (f j x : ℕ) → x < 2 ^ j → len f x ≤ j
unfolding len
len-le zero j x h = omega arith
len-le (suc f) zero x h = ground arith
len-le (suc f) (suc j) x h = ground (arith, len-le f j (x / 2) (omega (arith, pow-suc 2 j)))

len-suc : (f x : ℕ) → 0 < x → len (suc f) x ≡ suc (len f (x / 2))
unfolding len
len-suc f x h = ground arith

abbrev sevens : ℕ → ℕ
sevens zero = 0
sevens (suc k) = suc (suc (suc (suc (suc (suc (suc (sevens k)))))))

eighth : (x : ℕ) → x / 2 / 2 / 2 / 2 / 2 / 2 / 2 / 2 ≡ x / 128 / 2
eighth x = omega arith

len_group :
    (f v : ℕ)
    → 128 ≤ v
    → len (suc (suc (suc (suc (suc (suc (suc f))))))) (v / 2) ≡ 7 + len f (v / 128 / 2)
len_group f v h = omega (
  arith,
  len-suc (suc (suc (suc (suc (suc (suc f)))))) (v / 2) (omega arith),
  len-suc (suc (suc (suc (suc (suc f))))) (v / 2 / 2) (omega arith),
  len-suc (suc (suc (suc (suc f)))) (v / 2 / 2 / 2) (omega arith),
  len-suc (suc (suc (suc f))) (v / 2 / 2 / 2 / 2) (omega arith),
  len-suc (suc (suc f)) (v / 2 / 2 / 2 / 2 / 2) (omega arith),
  len-suc (suc f) (v / 2 / 2 / 2 / 2 / 2 / 2) (omega arith),
  len-suc f (v / 2 / 2 / 2 / 2 / 2 / 2 / 2) (omega arith),
  ap (len f) (eighth v),
)

length-varint : (k v : ℕ) → v < 2 * 128 ^ k → length (varint k v) ≡ len (sevens k) (v / 2) / 7 + 1
unfolding varint
length-varint zero v h = unfold len in refl
length-varint (suc k) v h = ground (
  arith,
  len-le (sevens (suc k)) 6 (v / 2),
  len_group (sevens k) v,
  length-varint k (v / 128) (omega (arith, pow-suc 128 k)),
)

-- `sov` of a number of 64 bits is the length of the number's encoding.
pub sov-eq-length : (v : ℕ) → IsU64 v → sov v ≡ length (uvarint v)
unfolding sov
sov-eq-length v h = omega (
  arith,
  ap (len 64) (or_one v),
  len-suc 63 (v / 2 * 2 + 1) (omega arith),
  ap (len 63) (halved v),
  length-varint 9 v h,
)
  where
    halved : (x : ℕ) → (x / 2 * 2 + 1) / 2 ≡ x / 2
    halved x = omega arith

pub groups-eq : (v : ℕ) → IsU64 v → groups v ≡ uvarint v
unfolding groups
groups-eq v h = write_groups_lem 9 v (omega arith)
