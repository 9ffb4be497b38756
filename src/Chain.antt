-- ===== src/Chain.antt =====
-- What the module takes from other keepers: accounts, contracts, events. The laws are those of the
-- operations' documentation.
use abstract_account.Prelude.{ℕ, ◌≡◌, ◌≢◌, Bytes, Bool, Option, some, List, ◌∷◌}
use abstract_account.Exec.{Exec}
use abstract_account.Sdk.{AccAddress, KvStore, Bech32}
use abstract_account.Types.Account.{Account, account_address}
use abstract_account.Types.Msgs.{EventAccountRegistered}

-- `authkeeper.AccountKeeperI`. An account is found under its own address, which is not empty.
pub record AccountKeeper (S : Type 0) (bech32 : Bech32) : Type 0 where
  pub get_account : S → AccAddress → Option Account
  pub set_account : S → Account → S
  pub get-set_account :
      (s : S) (acc : Account) (x : ℕ) (a : Bytes)
      → account_address bech32 acc ≡ some (x ∷ a)
      → get_account (set_account s acc) (some (x ∷ a)) ≡ some acc
  pub get-set_account_ne :
      (s : S) (acc : Account) (addr : AccAddress)
      → addr ≢ account_address bech32 acc
      → get_account (set_account s acc) addr ≡ get_account s addr
  pub get_account-address :
      (s : S) (addr : AccAddress) (acc : Account)
      → get_account s addr ≡ some acc
      → (x : ℕ) × (a : Bytes) × (addr ≡ some (x ∷ a)) × (account_address bech32 acc ≡ addr)

-- `wasmtypes.ContractOpsKeeper`. A contract may call back into any module: no law says what it
-- leaves alone.
pub record ContractOps (S Coin : Type 0) : Type 0 where
  pub instantiate2 :
      ℕ
      → AccAddress
      → AccAddress
      → Bytes
      → Bytes
      → List Coin
      → Bytes
      → Bool
      → Exec S (AccAddress × Bytes)
  pub update_contract_admin : AccAddress → AccAddress → AccAddress → Exec S (Unit {0})
  pub sudo : AccAddress → Bytes → Exec S Bytes

-- `ctx.EventManager()`. An event changes no account and no store.
pub record EventManager (S : Type 0) {bech32 : Bech32} (kv : KvStore S)
    (ak : AccountKeeper S bech32) : Type 0 where
  pub emit_typed_event : EventAccountRegistered → Exec S (Unit {0})
  pub emit-accounts :
      (e : EventAccountRegistered) (s : S) (addr : AccAddress)
      → ak.get_account (emit_typed_event e s).1 addr ≡ ak.get_account s addr
  pub emit-store :
      (e : EventAccountRegistered) (s : S) (k : Bytes)
      → kv.get (emit_typed_event e s).1 k ≡ kv.get s k
