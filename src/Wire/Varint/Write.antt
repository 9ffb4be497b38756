-- ===== src/Wire/Varint/Write.antt =====
-- Writers that fill a buffer from its end: what they write, if there is room.
use abstract_account.Prelude.{
  ℕ, ◌+◌, ◌-◌, ◌≤◌, ◌≡◌, refl, ap, Bytes, IsU64, [], ◌∷◌, ◌++◌, replicate, length, length-append,
  arith,
}
use abstract_account.Result.{Result, ok, ◌>>=◌}
use abstract_account.Wire.Varint.{Buffer, overlay, place, encode_varint, put_byte, put_bytes}
use abstract_account.Wire.Varint.Size.{uvarint, sov-eq-length, groups-eq}
use mathlib.Core.List.{append_assoc}

abbrev pub push : Bytes → Buffer → Buffer
push e b = record { room = b.room - length e; written = e ++ b.written }

-- `m` puts `e` before what is written, wherever there is room for it.
pub record Writes (m : Buffer → Result Buffer) (e : Bytes) : Type 0 where
  pub at : (b : Buffer) → length e ≤ b.room → m b ≡ ok (push e b)

overlay_zeros : (xs below : Bytes) → overlay xs (replicate (length xs) 0 ++ below) ≡ xs ++ below
overlay_zeros [] below = refl
overlay_zeros (x ∷ xs) below = ap (λ l. x ∷ l) (overlay_zeros xs below)

place_lem : (xs : Bytes) → Writes (place (length xs) xs) xs
unfolding place
place_lem xs = record { at = λ b h. ground (arith, overlay_zeros xs b.written) }

pub put_byte-Writes : (x : ℕ) → Writes (put_byte x) (x ∷ [])
unfolding put_byte
put_byte-Writes x = place_lem (x ∷ [])

pub put_bytes-Writes : (xs : Bytes) → Writes (put_bytes xs) xs
unfolding put_bytes
put_bytes-Writes xs = place_lem xs

pub encode_varint-Writes : (v : ℕ) → IsU64 v → Writes (encode_varint v) (uvarint v)
unfolding encode_varint
encode_varint-Writes v h = record {
  at = λ b k. rw (sov-eq-length v h, groups-eq v h) ((place_lem (uvarint v)).at b k);
}

pub skip-Writes : Writes ok []
skip-Writes = record { at = λ b h. ground arith }

-- What is written first ends up last.
pub bind-Writes :
    (m n : Buffer → Result Buffer) (e f : Bytes)
    → Writes m e
    → Writes n f
    → Writes (λ b. m b >>= n) (f ++ e)
bind-Writes m n e f hm hn = record {
  at = λ b h.
      let room : length f + length e ≤ b.room = omega (arith, length-append f e) in
      rw (hm.at b (omega arith), hn.at (push e b) (omega arith))
        (ground (arith, append_assoc f e b.written, length-append f e));
}

pub Writes-cast : (m : Buffer → Result Buffer) (e f : Bytes) → e ≡ f → Writes m e → Writes m f
Writes-cast m e f p w = rw (← p) w
