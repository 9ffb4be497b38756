-- ===== src/Types/SudoMsg/Json.antt =====
-- `json.Marshal` on an `AccountSudoMsg` of wasmbinding.go, by its field tags. A byte slice is written
-- in base64, and a nil one as null. A text is escaped byte by byte: bytes from 0x80 on stay as they are, which is right for
-- the type URLs that there are, since protobuf names are ASCII.
use abstract_account.Prelude.{
  ℕ, ◌+◌, ◌-◌, ◌*◌, ◌/◌, ◌%◌, Bytes, Bool, true, false, ◌||◌, Option, none, some, List, [], ◌∷◌,
  ◌++◌, ◌≡◌, refl, ltb, ◌==◌, is_empty, map, codes, if◌then◌else◌,
}
use abstract_account.Result.{Result, ok}
use abstract_account.Types.SudoMsg.{Any, BeforeTx, AfterTx, AccountSudoMsg}

-- A character of the standard alphabet.
sextet : ℕ → ℕ
sextet n =
    if ltb n 26
    then b'A' + n
    else if ltb n 52
    then b'a' + (n - 26)
    else if ltb n 62
    then b'0' + (n - 52)
    else if n == 62
    then b'+'
    else b'/'

unfoldable pub base64 : Bytes → Bytes
unfolding sextet
base64 [] = []
base64 (a ∷ []) = sextet (a / 4) ∷ sextet (a % 4 * 16) ∷ b'=' ∷ b'=' ∷ []
base64 (a ∷ b ∷ []) =
    sextet (a / 4) ∷ sextet (a % 4 * 16 + b / 16) ∷ sextet (b % 16 * 4) ∷ b'=' ∷ []
base64 (a ∷ b ∷ c ∷ rest) =
    sextet (a / 4)
    ∷ sextet (a % 4 * 16 + b / 16)
    ∷ sextet (b % 16 * 4 + c / 64)
    ∷ sextet (c % 64)
    ∷ base64 rest

hex_digit : ℕ → ℕ
hex_digit n = if ltb n 10 then b'0' + n else b'a' + (n - 10)

escape : ℕ → Bytes
unfolding hex_digit
escape c =
    if (c == 34) || (c == 92)
    then 92 ∷ c ∷ []
    else if c == 10
    then 92 ∷ b'n' ∷ []
    else if c == 13
    then 92 ∷ b'r' ∷ []
    else if c == 9
    then 92 ∷ b't' ∷ []
    else if ltb c 32 || (c == b'<') || (c == b'>') || (c == b'&')
    then codes "\\u00" ++ (hex_digit (c / 16) ∷ hex_digit (c % 16) ∷ [])
    else c ∷ []

escaped : Bytes → Bytes
unfolding escape
escaped [] = []
escaped (c ∷ rest) = escape c ++ escaped rest

quoted : Bytes → Bytes
quoted text = 34 ∷ (text ++ (34 ∷ []))

member : Bytes → Bytes → Bytes
member name value = quoted name ++ (b':' ∷ value)

separated : List Bytes → Bytes
separated [] = []
separated (x ∷ []) = x
separated (x ∷ (y ∷ rest)) = x ++ (b',' ∷ separated (y ∷ rest))

object : List Bytes → Bytes
object members = b'{' ∷ (separated members ++ (b'}' ∷ []))

boolean : Bool → Bytes
boolean true = codes "true"
boolean false = codes "false"

slice : Option Bytes → Bytes
slice none = codes "null"
slice (some bz) = quoted (base64 bz)

any_json : Any → Bytes
any_json a = object (
    member (codes "type_url") (quoted (escaped a.type_url))
    ∷ member (codes "value") (quoted (base64 a.value))
    ∷ [])

before_tx_json : BeforeTx → Bytes
before_tx_json m = object (
    member (codes "msgs") (b'[' ∷ (separated (map any_json m.msgs) ++ (b']' ∷ [])))
    ∷ member (codes "tx_bytes") (slice m.tx_bytes)
    ∷ ((if is_empty m.cred_bytes
          then []
          else member (codes "cred_bytes") (quoted (base64 m.cred_bytes)) ∷ [])
        ++ (member (codes "simulate") (boolean m.simulate) ∷ [])))

after_tx_json : AfterTx → Bytes
after_tx_json m = object (member (codes "simulate") (boolean m.simulate) ∷ [])

-- `omitempty` on a pointer.
optional : {A : Type 0} → Bytes → (A → Bytes) → Option A → List Bytes
optional name write none = []
optional name write (some a) = member name (write a) ∷ []

unfoldable pub json_marshal : AccountSudoMsg → Result Bytes
unfolding optional before_tx_json after_tx_json any_json boolean object separated member quoted
    escaped base64 slice
json_marshal m = ok (
    object (
      optional (codes "before_tx") before_tx_json m.before_tx
      ++ optional (codes "after_tx") after_tx_json m.after_tx))

json_run :
    json_marshal (record {
      before_tx = some (record {
        msgs = record { type_url = codes "/a.B"; value = codes "light w" } ∷ [];
        tx_bytes = some (codes "hi");
        cred_bytes = [];
        simulate = true;
      });
      after_tx = none;
    })
    ≡ ok (
        codes
          "{\"before_tx\":{\"msgs\":[{\"type_url\":\"/a.B\",\"value\":\"bGlnaHQgdw==\"}],\"tx_bytes\":\"aGk=\",\"simulate\":true}}")
unfolding json_marshal
json_run = refl

json_nil :
    json_marshal (record {
      before_tx = some (record { msgs = []; tx_bytes = none; cred_bytes = []; simulate = false });
      after_tx = none;
    })
    ≡ ok (codes "{\"before_tx\":{\"msgs\":[],\"tx_bytes\":null,\"simulate\":false}}")
unfolding json_marshal
json_nil = refl
