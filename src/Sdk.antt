-- ===== src/Sdk.antt =====
-- What the module takes from the Cosmos SDK and from wasmd, as interfaces: operations, and the laws
-- that their documentation gives. `S` is a context with all the state that is reached through it.
use abstract_account.Prelude.{
  ℕ, ◌≡◌, Bytes, IsU64, Option, none, some, ◌∷◌, bytes_equal, if◌then◌else◌,
}
use abstract_account.Result.{Result, ok, Error}
use abstract_account.Types.Params.{Params}

-- `sdk.AccAddress`, a byte slice; `none` is nil.
abbrev pub AccAddress : Type 0
AccAddress = Option Bytes

-- `ctx.KVStore(storeKey)` of this module. Gas for reads and writes is not counted.
pub record KvStore (S : Type 0) : Type 0 where
  pub get : S → Bytes → Option Bytes
  pub set : S → Bytes → Bytes → S
  pub delete : S → Bytes → S
  pub get-set :
      (s : S) (k j v : Bytes) → get (set s k v) j ≡ (if bytes_equal k j then some v else get s j)
  pub get-delete :
      (s : S) (k j : Bytes) → get (delete s k) j ≡ (if bytes_equal k j then none else get s j)

-- `sdk.Uint64ToBigEndian` and `sdk.BigEndianToUint64`, which reads nil as 0.
pub record BigEndian : Type 0 where
  pub encode : ℕ → Bytes
  pub decode : Option Bytes → ℕ
  pub decode-encode : (n : ℕ) → IsU64 n → decode (some (encode n)) ≡ n
  pub decode-nil : decode none ≡ 0

-- `AccAddress.String` and `sdk.AccAddressFromBech32`: a text that an address prints is parsed to it.
pub record Bech32 : Type 0 where
  pub to_string : AccAddress → Bytes
  pub from_bech32 : Bytes → AccAddress × Option Error
  pub from-to : (x : ℕ) (a : Bytes) → from_bech32 (to_string (some (x ∷ a))) ≡ (some (x ∷ a), none)

-- `codec.BinaryCodec` on `*Params`, where `none` is the nil pointer. `Fits` says which values the
-- codec carries: those within the Go types.
pub record ParamsCodec : Type 1 where
  pub marshal : Option Params → Result Bytes
  pub unmarshal : Bytes → Result Params
  pub Fits : Params → Type 0
  pub round_trip :
      (p : Params) → Fits p → (bz : Bytes) × (marshal (some p) ≡ ok bz) × (unmarshal bz ≡ ok p)
