-- ===== src/Wire/Varint.antt =====
-- Varints of the generated code: `sov…`, `encodeVarint…` and the loop that reads a varint. The
-- generated files repeat these functions with the same text; the lines are those of params.pb.go.
pub mod Size
pub mod Read
pub mod Write
use abstract_account.Prelude.{
  ℕ, zero, suc, ◌+◌, ◌-◌, ◌*◌, ◌/◌, ◌%◌, ◌^◌, Bytes, List, [], ◌∷◌, ◌++◌, ltb, leb, ◌==◌, bit_and,
  bit_or, replicate, length, if◌then◌else◌,
}
use abstract_account.Result.{
  Result, ok, err, panicked, index_out_of_range, proto, int_overflow, unexpected_eof,
}

-- `math/bits.Len64`: the number of bits of `x`, for `x` below `2 ^ fuel`.
len : ℕ → ℕ → ℕ
len zero x = 0
len (suc fuel) x = let rest = len fuel (x / 2) in if x == 0 then 0 else suc rest

unfoldable pub len_64 : ℕ → ℕ
unfolding len
len_64 = len 64

unfoldable pub sov : ℕ → ℕ
unfolding len_64
sov x = (len_64 (bit_or x 1) + 6) / 7

-- The bytes that the loop of `encodeVarint…` writes; a `uint64` has at most 10 groups of 7 bits.
write_groups : ℕ → ℕ → Bytes
write_groups zero v = v % 256 ∷ []
write_groups (suc fuel) v =
    let rest = write_groups fuel (v / 128) in
    if ltb v 128 then v % 256 ∷ [] else bit_or (bit_and v 0x7f) 0x80 % 256 ∷ rest

unfoldable pub groups : ℕ → Bytes
unfolding write_groups
groups = write_groups 9

-- A buffer that is filled from its end: `room` is the index `i`, and `written` is `dAtA[i:]`.
pub record Buffer : Type 0 where
  pub room : ℕ
  pub written : Bytes

-- Bytes written over the front of others.
abbrev pub overlay : Bytes → Bytes → Bytes
overlay [] below = below
overlay (x ∷ xs) [] = x ∷ overlay xs []
overlay (x ∷ xs) (y ∷ below) = x ∷ overlay xs below

-- `i -= n` and a write of `bytes` from there on, into the `n` zero bytes that this opens. An index
-- below 0 panics.
unfoldable pub place : ℕ → Bytes → Buffer → Result Buffer
place n bytes b =
    if ltb b.room n
    then panicked index_out_of_range
    else ok (record { room = b.room - n; written = overlay bytes (replicate n 0 ++ b.written) })

unfoldable pub encode_varint : ℕ → Buffer → Result Buffer
unfolding groups sov place
encode_varint v b = place (sov v) (groups v) b

-- `i--; dAtA[i] = x`
unfoldable pub put_byte : ℕ → Buffer → Result Buffer
unfolding place
put_byte x b = place 1 (x ∷ []) b

-- `i -= len(bytes); copy(dAtA[i:], bytes)`
unfoldable pub put_bytes : Bytes → Buffer → Result Buffer
unfolding place
put_bytes bytes b = place (length bytes) bytes b

-- What is left to read: the index `iNdEx`, and the bytes from there on.
pub record Cursor : Type 0 where
  pub index : ℕ
  pub rest : Bytes

-- `v |= uint64(b&0x7F) << shift`
abbrev add_group : ℕ → ℕ → ℕ → ℕ
add_group v b shift = bit_or v (bit_and b 0x7f * 2 ^ shift % 2 ^ 64)

-- The loop that reads a varint, with `rounds` rounds before `shift >= 64`.
read_groups : ℕ → ℕ → ℕ → ℕ → Bytes → Result (ℕ × Cursor)
read_groups zero shift v i rest = err (proto int_overflow)
read_groups (suc rounds) shift v i [] = err (proto unexpected_eof)
read_groups (suc rounds) shift v i (b ∷ rest) =
    let v' = add_group v b shift in
    let more = read_groups rounds (shift + 7) v' (i + 1) rest in
    if ltb b 0x80 then ok (v', record { index = i + 1; rest = rest }) else more

-- `shift` is 0, 7, …, 63 in ten rounds.
unfoldable pub read_varint : Cursor → Result (ℕ × Cursor)
unfolding read_groups
read_varint c = read_groups 10 0 0 c.index c.rest
