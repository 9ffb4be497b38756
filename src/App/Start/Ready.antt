-- ===== src/App/Start/Ready.antt =====
-- The application starts.
use abstract_account.Prelude.{◌≡◌, ◌≢◌, Bytes, List, [], ◌∷◌, All}
use abstract_account.Result.{ok}
use abstract_account.Exec.{Exec}
use abstract_account.Sdk.{KvStore, Bech32, ParamsCodec}
use abstract_account.Ante.{Handler, PostHandler, AnteOps}
use abstract_account.App.Sdk.{AnteSdk}
use abstract_account.App.Keepers.{ModuleNames, Keepers}
use abstract_account.App.Encoding.{In}
use abstract_account.App.SimApp.{
  SimApp, modules, store_keys, begin_blockers, end_blockers, genesis_module_order,
}
use abstract_account.App.Start.{
  Call, Node, install_ante_handler, install_post_handler, set_param_store, new_manager,
  set_order_begin_blockers, set_order_end_blockers, set_order_init_genesis,
  set_order_export_genesis, register_services, mount_kv_stores, set_init_chainer, set_begin_blocker,
  set_end_blocker, installed_ante_handler, installed_post_handler,
}
use abstract_account.App.Start.Laws.{set_up}
use mathlib.Core.List.{Perm}

-- No text stands twice in the list.
abbrev pub Distinct : List Bytes → Type 0
Distinct [] = Unit
Distinct (x ∷ xs) = All (λ y. x ≢ y) xs × Distinct xs

-- The documented behaviour of the base application and the module manager: an order that lists every
-- module is accepted, and stores can be mounted under different keys.
pub record Accepts (node : Node) : Type 0 where
  pub begin_blockers-ok :
      (ms order : List Bytes) → Perm order ms → node.order_begin_blockers ms order ≡ ok tt
  pub end_blockers-ok :
      (ms order : List Bytes) → Perm order ms → node.order_end_blockers ms order ≡ ok tt
  pub init_genesis-ok :
      (ms order : List Bytes) → Perm order ms → node.order_init_genesis ms order ≡ ok tt
  pub export_genesis-ok :
      (ms order : List Bytes) → Perm order ms → node.order_export_genesis ms order ≡ ok tt
  pub mount-ok : (keys : List Bytes) → Distinct keys → node.mount keys ≡ ok tt

-- The application was set up with its modules, their orders, its stores and its functions of a block.
pub record IsSetUp {S : Type 0} (names : ModuleNames) (calls : List (Call S)) : Type 0 where
  pub ends_blocks : In set_end_blocker calls
  pub begins_blocks : In set_begin_blocker calls
  pub starts_chain : In set_init_chainer calls
  pub stores : In (mount_kv_stores (store_keys names)) calls
  pub services : In register_services calls
  pub export_order : In (set_order_export_genesis (genesis_module_order names)) calls
  pub init_order : In (set_order_init_genesis (genesis_module_order names)) calls
  pub end_order : In (set_order_end_blockers (end_blockers names)) calls
  pub begin_order : In (set_order_begin_blockers (begin_blockers names)) calls
  pub manager : In (new_manager (modules names)) calls
  pub param_store : In set_param_store calls

module _ {S Coin : Type 0} (names : ModuleNames) (sdk : AnteSdk S) (ks : Keepers S Coin sdk)
    (kv : KvStore S) (pc : ParamsCodec) (bech32 : Bech32) (ops : AnteOps S) (node : Node) where
  -- The step succeeds, keeps the calls and leaves the handlers as they are.
  abbrev Leaves : Exec (List (Call S)) (Unit {0}) → List (Call S) → Type 0
  Leaves step calls =
      (calls' : List (Call S)) × (step calls ≡ (ok tt, calls'))
      × (installed_ante_handler calls' ≡ installed_ante_handler calls)
      × (installed_post_handler calls' ≡ installed_post_handler calls)
      × ((c : Call S) → In c calls → In c calls')

  installed : Handler S → PostHandler S → List (Call S)
  installed h p =
      install_post_handler p ∷ install_ante_handler h ∷ set_up names sdk ks kv pc bech32 ops node
