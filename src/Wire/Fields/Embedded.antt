-- ===== src/Wire/Fields/Embedded.antt =====
-- A message inside a message: what is written for it, and how it is read.
use abstract_account.Prelude.{
  ℕ, ◌+◌, ◌-◌, ◌*◌, ◌<◌, ◌≤◌, ◌≡◌, refl, ◌∙◌, Bytes, IsU64, ◌++◌, length, length-append, arith,
}
use abstract_account.Result.{Result, ok}
use abstract_account.Wire.Varint.{Buffer, Cursor}
use abstract_account.Wire.Varint.Size.{uvarint}
use abstract_account.Wire.Varint.Write.{Writes, put_bytes-Writes}
use abstract_account.Wire.Skip.{int_limit}
use abstract_account.Wire.Message.{Fields, read_message}
use abstract_account.Wire.Message.Frame.{at_index, Parses}
use abstract_account.Wire.Fields.{put_message, put_delimited}
use abstract_account.Wire.Fields.Laws.{delimited, put_delimited-Writes, Parses-delimited}

-- The room that the inner writer has used is the length of what it wrote.
pub put_message-Writes :
    (tag : ℕ) (fill : Buffer → Result Buffer) (e : Bytes)
    → Writes fill e
    → IsU64 (length e)
    → Writes (put_message tag fill) (delimited tag e)
unfolding put_message put_delimited
put_message-Writes tag fill e w h = record {
  at = λ b k.
      let fit : length e ≤ b.room = omega (arith, length-append (uvarint (length e)) e) in
      let used : b.room - (b.room - length e) ≡ length e = omega arith in
      let written = (put_delimited-Writes tag e h).at b k in
      rw (w.at b fit, used) (rw ((put_bytes-Writes e).at b fit) at written);
}

module _ {M : Type 0} (fields : Fields M) where
  -- A field of number `n` that `set` reads with the inner `Unmarshal`.
  pub Parses-message :
      (n i : ℕ) (e : Bytes) (m m' m'' : M) (set : Bytes → Result M) (more : Bytes)
      → 0 < n
      → n < 16
      → i + length (delimited (n * 8 + 2) e) < int_limit
      → ((c : Cursor) → fields n 2 m c ≡ read_message set c)
      → set e ≡ ok m'
      → Parses fields m' (at_index (i + length (delimited (n * 8 + 2) e)) more) m''
      → Parses fields m (at_index i (delimited (n * 8 + 2) e ++ more)) m''
  Parses-message n i e m m' m'' set more hn hn' fit case read p =
      Parses-delimited fields n i e m m' m'' more hn hn' fit (λ c d r. case c ∙ rw (r, read) refl) p
