-- ===== src/Wire/Varint/Read.antt =====
-- What `read_varint` answers: on any input, and on the encoding of a number.
use abstract_account.Prelude.{
  ℕ, zero, suc, ◌+◌, ◌*◌, ◌/◌, ◌%◌, ◌^◌, ◌≤◌, ◌<◌, ◌≡◌, refl, ap, Bytes, IsU64, Bool-cases, inl,
  inr, ltb, [], ◌∷◌, ◌++◌, bit_and, length, arith,
}
use abstract_account.Prelude.Bits.{or_shifted, or-lt, mask_127}
use abstract_account.Result.{ok, panicked, Panic}
use abstract_account.Wire.Varint.{Cursor, add_group, read_groups, read_varint}
use abstract_account.Wire.Varint.Size.{varint, uvarint}
use mathlib.Core.Logic.{◌≢◌}
use native.Mathlib.Nat.{div-add-mod, pow-suc}
use native.Mathlib.Numerals.{towards_suc}

-- A read of `v` from `c` to `d`, with the bytes that it takes.
pub record Takes (v : ℕ) (c d : Cursor) : Type 0 where
  pub fits : IsU64 v
  pub forward : c.index < d.index
  pub whole : d.index + length d.rest ≡ c.index + length c.rest
  pub short : d.index ≤ c.index + 10
  pub taken : Bytes
  pub front : c.rest ≡ taken ++ d.rest
  pub moved : d.index ≡ c.index + length taken

read_groups_takes :
    (rounds shift v i : ℕ) (rest : Bytes) (w : ℕ) (d : Cursor)
    → IsU64 v
    → read_groups rounds shift v i rest ≡ ok (w, d)
    → IsU64 w × (i < d.index) × (d.index + length d.rest ≡ i + length rest) × (d.index ≤ i + rounds)
unfolding read_groups
read_groups_takes zero shift v i rest w d h e = cc
read_groups_takes (suc rounds) shift v i [] w d h e = cc
read_groups_takes (suc rounds) shift v i (b ∷ rest) w d h e = ground (
  arith,
  or-lt 64 v (bit_and b 0x7f * 2 ^ shift % 2 ^ 64) h (omega arith),
  read_groups_takes rounds (shift + 7) (add_group v b shift) (i + 1) rest w d,
)

read_groups_front :
    (rounds shift v i : ℕ) (rest : Bytes) (w : ℕ) (d : Cursor)
    → read_groups rounds shift v i rest ≡ ok (w, d)
    → (taken : Bytes) × (rest ≡ taken ++ d.rest) × (d.index ≡ i + length taken)
unfolding read_groups
read_groups_front zero shift v i rest w d e = cc
read_groups_front (suc rounds) shift v i [] w d e = cc
read_groups_front (suc rounds) shift v i (b ∷ rest) w d e = elim (Bool-cases (ltb b 0x80)) [
  | inl t ↦
      let last : record { index = i + 1; rest = rest } ≡ d = cc (rw t at e) in
      (b ∷ [], rw (← last) refl, rw (← last) refl)
  | inr f ↦
      let (taken, front, moved) =
        read_groups_front rounds (shift + 7) (add_group v b shift) (i + 1) rest w d (rw f at e) in
      (b ∷ taken, ap (λ l. b ∷ l) front, omega (arith, moved))
]

-- A read that returns has a number of 64 bits and takes at least one byte and at most ten. What it
-- takes is the front of what was left, the rest stays as it is, and the index moves on by the
-- number of bytes taken.
pub read_varint-Takes : (c : Cursor) (v : ℕ) (d : Cursor) → read_varint c ≡ ok (v, d) → Takes v c d
unfolding read_varint
read_varint-Takes c v d e =
    let (fits, forward, whole, short) =
      read_groups_takes 10 0 0 c.index c.rest v d (omega arith) e in
    let (taken, front, moved) = read_groups_front 10 0 0 c.index c.rest v d e in
    record {
      fits = fits;
      forward = forward;
      whole = whole;
      short = short;
      taken = taken;
      front = front;
      moved = moved;
    }

read_groups-ne-panicked :
    (rounds shift v i : ℕ) (rest : Bytes) (p : Panic)
    → read_groups rounds shift v i rest ≢ panicked p
unfolding read_groups
read_groups-ne-panicked zero shift v i rest p e = cc
read_groups-ne-panicked (suc rounds) shift v i [] p e = cc
read_groups-ne-panicked (suc rounds) shift v i (b ∷ rest) p e =
    ground (arith, read_groups-ne-panicked rounds (shift + 7) (add_group v b shift) (i + 1) rest p)

-- A read never panics.
pub read_varint-ne-panicked : (c : Cursor) (p : Panic) → read_varint c ≢ panicked p
unfolding read_varint
read_varint-ne-panicked c p = read_groups-ne-panicked 10 0 0 c.index c.rest p

shift_seven : (s : ℕ) → 2 ^ (s + 7) ≡ 128 * 2 ^ s
shift_seven s = simp towards_suc (omega arith)

-- One byte `b` with the group `g`, at a shift above all bits of `acc`.
add_group_lem :
    (acc b g shift : ℕ)
    → bit_and b 0x7f ≡ g
    → acc < 2 ^ shift
    → IsU64 (acc + g * 2 ^ shift)
    → add_group acc b shift ≡ acc + g * 2 ^ shift
add_group_lem acc b g shift e low fits =
    let same : bit_and b 0x7f * 2 ^ shift % 2 ^ 64 ≡ g * 2 ^ shift = rw e (omega arith) in
    rw same (or_shifted shift acc g low)

-- A number shifted by `shift`, from its lowest seven bits and the rest.
shifted_parts : (shift v : ℕ) → v % 128 * 2 ^ shift + v / 128 * 2 ^ (shift + 7) ≡ v * 2 ^ shift
shifted_parts shift v =
    rw (shift_seven shift) (omega (arith, ap (λ n. n * 2 ^ shift) (div-add-mod v 128)))

low_part : (acc g s : ℕ) → acc < 2 ^ s → g < 128 → acc + g * 2 ^ s < 2 ^ (s + 7)
low_part acc g s h k = rw (shift_seven s) (grind arith)

last_byte :
    (rounds w acc shift i : ℕ) (more : Bytes)
    → w < 128
    → acc < 2 ^ shift
    → IsU64 (acc + w * 2 ^ shift)
    → read_groups (suc rounds) shift acc i (w ∷ more)
      ≡ ok (acc + w * 2 ^ shift, record { index = i + 1; rest = more })
unfolding read_groups
last_byte rounds w acc shift i more hw low fits =
    ground (arith, mask_127 w, add_group_lem acc w w shift)

inner_byte :
    (rounds g acc shift i : ℕ) (more : Bytes)
    → g < 128
    → acc < 2 ^ shift
    → IsU64 (acc + g * 2 ^ shift)
    → read_groups (suc rounds) shift acc i ((g + 128) ∷ more)
      ≡ read_groups rounds (shift + 7) (acc + g * 2 ^ shift) (i + 1) more
unfolding read_groups
inner_byte rounds g acc shift i more hg low fits =
    ground (arith, mask_127 (g + 128), add_group_lem acc (g + 128) g shift)

-- `w` is what is still to be read, from bit `shift` on.
read_groups-varint :
    (k w acc shift i : ℕ) (more : Bytes)
    → w < 128 * 128 ^ k
    → acc < 2 ^ shift
    → IsU64 (acc + w * 2 ^ shift)
    → read_groups (suc k) shift acc i (varint k w ++ more)
      ≡ ok (acc + w * 2 ^ shift, record { index = i + length (varint k w); rest = more })
unfolding varint
read_groups-varint zero w acc shift i more hw low fits =
    last_byte zero w acc shift i more (omega arith) low fits
read_groups-varint (suc k) w acc shift i more hw low fits = ground (
  arith,
  last_byte (suc k) w acc shift i more,
  shifted_parts shift w,
  pow-suc 128 k,
  low_part acc (w % 128) shift,
  inner_byte (suc k) (w % 128) acc shift i (varint k (w / 128) ++ more),
  read_groups-varint k (w / 128) (acc + w % 128 * 2 ^ shift) (shift + 7) (i + 1) more,
)

-- `read_varint` reads back a `uint64` and leaves what follows it.
pub read_varint-uvarint :
    (v i : ℕ) (more : Bytes)
    → IsU64 v
    → read_varint (record { index = i; rest = uvarint v ++ more })
      ≡ ok (v, record { index = i + length (uvarint v); rest = more })
unfolding read_varint
read_varint-uvarint v i more h = ground (arith, read_groups-varint 9 v 0 0 i more)

-- An encoding has at least one byte.
pub length-uvarint : (v : ℕ) → 0 < length (uvarint v)
unfolding varint
length-uvarint v = ground arith
