-- ===== src/Types/Account.antt =====
-- x/abstractaccount/types/account.go: the account type of a contract, and the public key that it
-- shows to the SDK.
use abstract_account.Prelude.{
  ℕ, Bytes, Bool, false, none, some, [], is_empty, bytes_equal, if◌then◌else◌,
}
use abstract_account.Result.{
  Result, ok, err, panicked, verify_signature, cannot_override_address, cannot_set_pubkey,
}
use abstract_account.Sdk.{AccAddress, Bech32}

-- `AbstractAccount` of account.pb.go.
pub record AbstractAccount : Type 0 where
  pub address : Bytes
  pub account_number : ℕ
  pub sequence : ℕ

-- `NilPubKey` of account.pb.go; `address_bytes` is a slice, `none` for nil.
pub record NilPubKey : Type 0 where
  pub address_bytes : AccAddress

-- `cryptotypes.PubKey`: this module's key, or one of the SDK's, by its bytes.
pub data PubKey : Type 0 where
  nil_pub_key : NilPubKey → PubKey
  other_key : Bytes → PubKey

-- An `authtypes.AccountI` of another package, by what its getters return.
pub record SdkAccount : Type 0 where
  pub get_address : AccAddress
  pub get_account_number : ℕ
  pub get_sequence : ℕ

-- `authtypes.AccountI`, by its dynamic type.
pub data Account : Type 0 where
  base_account : SdkAccount → Account
  other_account : SdkAccount → Account
  abs_account : AbstractAccount → Account

unfoldable pub new_abstract_account : Bytes → ℕ → ℕ → AbstractAccount
new_abstract_account address account_num seq = record {
  address = address;
  account_number = account_num;
  sequence = seq;
}

unfoldable pub new_nil_pub_key : AccAddress → NilPubKey
new_nil_pub_key bz = record { address_bytes = bz }

-- `bytes.Equal` takes nil for the empty slice.
abbrev pub content : AccAddress → Bytes
content none = []
content (some bz) = bz

unfoldable pub account_number_of : Account → ℕ
account_number_of (base_account acc) = acc.get_account_number
account_number_of (other_account acc) = acc.get_account_number
account_number_of (abs_account acc) = acc.account_number

unfoldable pub sequence_of : Account → ℕ
sequence_of (base_account acc) = acc.get_sequence
sequence_of (other_account acc) = acc.get_sequence
sequence_of (abs_account acc) = acc.sequence

unfoldable pub set_pub_key : AbstractAccount → PubKey → Result AbstractAccount
set_pub_key acc pk = err cannot_set_pubkey

unfoldable pub set_account_number : AbstractAccount → ℕ → Result AbstractAccount
set_account_number acc acc_number = ok (record acc { account_number = acc_number })

unfoldable pub set_sequence : AbstractAccount → ℕ → Result AbstractAccount
set_sequence acc seq = ok (record acc { sequence = seq })

unfoldable pub key_equals : NilPubKey → PubKey → Bool
key_equals pk (nil_pub_key other_pk) =
    bytes_equal (content pk.address_bytes) (content other_pk.address_bytes)
key_equals pk (other_key bz) = false

-- `NilPubKey.Address` and `NilPubKey.Bytes`, which is nil.
unfoldable pub key_address : NilPubKey → AccAddress
key_address pk = pk.address_bytes

unfoldable pub key_bytes : NilPubKey → AccAddress
key_bytes pk = none

unfoldable pub verify : NilPubKey → Bytes → Bytes → Result Bool
verify pk msg sig = panicked verify_signature

module _ (bech32 : Bech32) where
  -- The error of `AccAddressFromBech32` is dropped.
  unfoldable pub get_address : AbstractAccount → AccAddress
  get_address acc = (bech32.from_bech32 acc.address).0

  unfoldable pub set_address : AbstractAccount → AccAddress → Result AbstractAccount
  set_address acc addr =
      if is_empty acc.address
      then ok (record acc { address = bech32.to_string addr })
      else err cannot_override_address

  unfoldable pub get_pub_key : AbstractAccount → PubKey
  unfolding get_address new_nil_pub_key
  get_pub_key acc = nil_pub_key (new_nil_pub_key (get_address acc))

  -- The getters of `AccountI`, by dynamic dispatch.
  unfoldable pub account_address : Account → AccAddress
  unfolding get_address
  account_address (base_account acc) = acc.get_address
  account_address (other_account acc) = acc.get_address
  account_address (abs_account acc) = get_address acc

  unfoldable pub new_abstract_account_from_account : Account → AbstractAccount
  unfolding account_address new_abstract_account account_number_of sequence_of
  new_abstract_account_from_account acc =
      new_abstract_account (bech32.to_string (account_address acc)) (account_number_of acc)
        (sequence_of acc)

  -- `NilPubKey.String`
  unfoldable pub key_to_string : NilPubKey → Bytes
  key_to_string pk = bech32.to_string pk.address_bytes
