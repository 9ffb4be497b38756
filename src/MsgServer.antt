-- ===== src/MsgServer.antt =====
-- x/abstractaccount/keeper/msg_server.go: the two messages.
pub mod Update
pub mod Register
pub mod Labels
use abstract_account.Prelude.{
  ℕ, Bytes, Bool, true, false, Option, none, some, List, [], ◌∷◌, ◌++◌, codes, bytes_equal,
}
use abstract_account.Prelude.Decimal.{decimal}
use abstract_account.Result.{
  Result, ok, err, guard, unauthorized, not_allowed_code_id, not_base_account,
}
use abstract_account.Exec.{Exec, ◌>>=◌, ◌>>◌, and_then, pure, lift, gets, modify}
use abstract_account.Sdk.{AccAddress, KvStore, BigEndian, Bech32, ParamsCodec}
use abstract_account.Chain.{ContractOps, AccountKeeper, EventManager}
use abstract_account.Types.Params.{Params, is_allowed}
use abstract_account.Types.Account.{
  SdkAccount, Account, base_account, other_account, abs_account, new_abstract_account_from_account,
}
use abstract_account.Types.Msgs.{
  MsgUpdateParams, MsgRegisterAccount, MsgRegisterAccountResponse, EventAccountRegistered,
  parse_address,
}
use abstract_account.Keeper.{get_params, set_params, get_and_increment_next_account_id}

-- `types.ModuleName`
abbrev pub module_name : Bytes
module_name = codes "abstractaccount"

-- `fmt.Sprintf("%s/%d", types.ModuleName, id)`
unfoldable pub label : ℕ → Bytes
label id = module_name ++ (b'/' ∷ decimal id)

-- `acc.(*authtypes.BaseAccount)`; `none` is the nil interface.
abbrev pub as_base_account : Option Account → Result Account
as_base_account none = err not_base_account
as_base_account (some (base_account acc)) = ok (base_account acc)
as_base_account (some (other_account acc)) = err not_base_account
as_base_account (some (abs_account acc)) = err not_base_account

module _ {S : Type 0} (kv : KvStore S) (cdc : ParamsCodec) (authority : Bytes) where
  unfoldable pub update_params : MsgUpdateParams → Exec S (Unit {0})
  update_params req = do
    lift (guard (bytes_equal req.sender authority) unauthorized)
    set_params kv cdc req.params

module _ {S Coin : Type 0} (kv : KvStore S) (be : BigEndian) (cdc : ParamsCodec) (bech32 : Bech32)
    (ak : AccountKeeper S bech32) (ck : ContractOps S Coin) (em : EventManager S kv ak) where
  -- From the result of the instantiation on.
  unfoldable pub adopt :
      MsgRegisterAccount Coin → AccAddress → AccAddress → Bytes → Exec S MsgRegisterAccountResponse
  adopt req sender_addr contract_addr bytes = do
    ck.update_contract_admin contract_addr sender_addr contract_addr
    found ← gets (λ s. ak.get_account s contract_addr)
    acc ← lift (as_base_account found)
    modify (λ s. ak.set_account s (abs_account (new_abstract_account_from_account bech32 acc)))
    em.emit_typed_event (record {
      creator = req.sender;
      code_id = req.code_id;
      contract_addr = bech32.to_string contract_addr;
    })
    pure (record { address = bech32.to_string contract_addr; bytes = bytes })

  -- The arguments of `Instantiate2` are evaluated first: the counter moves before the call.
  unfoldable pub register_account : MsgRegisterAccount Coin → Exec S MsgRegisterAccountResponse
  register_account req = do
    params ← get_params kv cdc
    lift (guard (is_allowed params req.code_id) not_allowed_code_id)
    sender_addr ← lift (parse_address bech32 req.sender)
    id ← get_and_increment_next_account_id kv be
    (contract_addr, bytes) ←
        ck.instantiate2 req.code_id sender_addr sender_addr req.msg (label id) req.funds req.salt
          false
    adopt req sender_addr contract_addr bytes
