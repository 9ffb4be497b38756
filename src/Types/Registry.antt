-- ===== src/Types/Registry.antt =====
-- x/abstractaccount/types/codec.go: the types that the module registers with the SDK's interface
-- registry, and the names under which the generated files know them.
pub mod Laws
use abstract_account.Prelude.{◌≡◌, Bytes, ◌∷◌, codes}
use abstract_account.Result.{ok}
use abstract_account.Exec.{Exec, ◌>>◌}

-- `authtypes.AccountI`, `cryptotypes.PubKey` and `sdk.Msg`.
pub data GoInterface : Type 0 where
  account_i pub_key_i msg_i : GoInterface

-- `codectypes.InterfaceRegistry` and `msgservice.RegisterMsgServiceDesc`. A registry is a pointer;
-- `W` is the memory that it points into. A type is given by its URL: what an implementation was
-- registered under resolves to it, and no registration takes another back.
pub record RegistryOps (W Registry : Type 0) : Type 1 where
  pub register_implementations : Registry → GoInterface → Bytes → Exec W (Unit {0})
  pub register_msg_service_desc : Registry → Bytes → Exec W (Unit {0})
  pub Resolves : Registry → W → GoInterface → Bytes → Type 0
  pub registers :
      (r : Registry) (i : GoInterface) (url : Bytes) (w w' : W)
      → register_implementations r i url w ≡ (ok tt, w')
      → Resolves r w' i url
  pub registration_keeps :
      (r : Registry) (i : GoInterface) (url : Bytes) (w w' : W)
      → register_implementations r i url w ≡ (ok tt, w')
      → (j : GoInterface) (other : Bytes) → Resolves r w j other
      → Resolves r w' j other
  pub service_keeps :
      (r : Registry) (service : Bytes) (w w' : W)
      → register_msg_service_desc r service w ≡ (ok tt, w')
      → (j : GoInterface) (other : Bytes) → Resolves r w j other
      → Resolves r w' j other

-- `"/" + proto.MessageName(…)` of the types that are registered.
abbrev pub url_of : Bytes → Bytes
url_of message_name = b'/' ∷ message_name

abbrev pub abstract_account_name : Bytes
abstract_account_name = codes "abstractaccount.v1.AbstractAccount"

abbrev pub nil_pub_key_name : Bytes
nil_pub_key_name = codes "abstractaccount.v1.NilPubKey"

abbrev pub msg_register_account_name : Bytes
msg_register_account_name = codes "abstractaccount.v1.MsgRegisterAccount"

abbrev pub msg_update_params_name : Bytes
msg_update_params_name = codes "abstractaccount.v1.MsgUpdateParams"

abbrev pub msg_service_name : Bytes
msg_service_name = codes "abstractaccount.v1.Msg"

-- `NilPubKey.Type`
abbrev pub key_type : Bytes
key_type = url_of nil_pub_key_name

module _ {W Registry : Type 0} (ops : RegistryOps W Registry) where
  unfoldable pub register_interfaces : Registry → Exec W (Unit {0})
  register_interfaces registry = do
    ops.register_implementations registry account_i (url_of abstract_account_name)
    ops.register_implementations registry pub_key_i (url_of nil_pub_key_name)
    ops.register_implementations registry msg_i (url_of msg_register_account_name)
    ops.register_implementations registry msg_i (url_of msg_update_params_name)
    ops.register_msg_service_desc registry msg_service_name
