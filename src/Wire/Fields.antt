-- ===== src/Wire/Fields.antt =====
-- The pieces of a generated `MarshalToSizedBuffer` and `Size`: a number, and delimited bytes; each
-- is left out at its zero value. The lines are those of account.pb.go.
pub mod Laws
pub mod Embedded
use abstract_account.Prelude.{
  ℕ, ◌+◌, ◌-◌, ◌*◌, Bytes, List, [], ◌∷◌, ◌++◌, is_empty, length, replicate, take, ◌==◌,
  if◌then◌else◌,
}
use abstract_account.Result.{Result, ok, ◌>>=◌}
use abstract_account.Wire.Varint.{Buffer, encode_varint, put_byte, put_bytes, sov}

-- `if v != 0 { i = encodeVarint(dAtA, i, v); i--; dAtA[i] = tag }`
unfoldable pub put_uint : ℕ → ℕ → Buffer → Result Buffer
put_uint tag v b =
    let field = (do c ← encode_varint v b; put_byte tag c) in if v == 0 then ok b else field

-- `i -= len(xs); copy(dAtA[i:], xs); i = encodeVarint(dAtA, i, len(xs)); i--; dAtA[i] = tag`
unfoldable pub put_delimited : ℕ → Bytes → Buffer → Result Buffer
put_delimited tag xs b = do c ← put_bytes xs b; d ← encode_varint (length xs) c; put_byte tag d

-- `if len(xs) > 0 { … }`
unfoldable pub put_slice : ℕ → Bytes → Buffer → Result Buffer
unfolding put_delimited
put_slice tag xs b = let field = put_delimited tag xs b in if is_empty xs then ok b else field

unfoldable pub size_uint : ℕ → ℕ
size_uint v = if v == 0 then 0 else 1 + sov v

-- `1 + l + sov(l)`
abbrev pub size_delimited : ℕ → ℕ
size_delimited l = 1 + l + sov l

unfoldable pub size_slice : Bytes → ℕ
size_slice xs = if is_empty xs then 0 else size_delimited (length xs)

-- `Marshal`: a buffer of `size` zero bytes is filled, and the first `n` bytes of it come back, for
-- `n` the number that was written.
unfoldable pub marshal_sized : ℕ → (Buffer → Result Buffer) → Result Bytes
marshal_sized size fill = do
  b ← fill (record { room = size; written = [] })
  ok (take (length b.written) (replicate b.room 0 ++ b.written))

-- `size, err := m.MarshalToSizedBuffer(dAtA[:i]); i -= size; i = encodeVarint(dAtA, i, size)`, and
-- the tag.
unfoldable pub put_message : ℕ → (Buffer → Result Buffer) → Buffer → Result Buffer
put_message tag fill b = do c ← fill b; d ← encode_varint (b.room - c.room) c; put_byte tag d
