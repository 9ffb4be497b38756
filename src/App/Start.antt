-- ===== src/App/Start.antt =====
-- simapp/app.go: `NewSimApp`. What it does to the base application and to the module manager is a
-- list of calls, the newest first.
pub mod Laws
pub mod Ready
use abstract_account.Prelude.{
  ℕ, Bytes, Bool, true, false, Option, none, some, not, ◌&&◌, ◌||◌, List, [], ◌∷◌,
}
use abstract_account.Result.{Result, ok, err, panicked, exited}
use abstract_account.Exec.{Exec, ◌>>=◌, ◌>>◌, and_then, pure, lift, modify}
use abstract_account.Sdk.{KvStore, Bech32, ParamsCodec}
use abstract_account.Keeper.{must}
use abstract_account.Ante.{Handler, PostHandler, AnteOps}
use abstract_account.App.Sdk.{AnteSdk}
use abstract_account.App.Keepers.{ModuleNames, Keepers, AppOptions}
use abstract_account.App.Encoding.{EncodingParts, encoding_config}
use abstract_account.App.SimApp.{
  SimApp, app_name, authority, modules, store_keys, begin_blockers, end_blockers,
  genesis_module_order, new_keepers, set_ante_handler, set_post_handler,
}

-- The methods of the base application and of the module manager that are called. A method that is
-- given a handler of simapp/ante.go has it as its argument.
pub data Call (S : Type 0) : Type 0 where
  new_base_app : Bytes → Call S
  set_commit_multi_store_tracer set_version set_interface_registry set_tx_encoder : Call S
  set_param_store : Call S
  new_manager : List Bytes → Call S
  set_order_begin_blockers set_order_end_blockers : List Bytes → Call S
  set_order_init_genesis set_order_export_genesis : List Bytes → Call S
  register_services : Call S
  mount_kv_stores mount_transient_stores mount_memory_stores : List Bytes → Call S
  set_init_chainer set_begin_blocker set_end_blocker : Call S
  install_ante_handler : Handler S → Call S
  install_post_handler : PostHandler S → Call S
  register_extensions load_latest_version initialize_pinned_codes : Call S

-- What the base application and the module manager answer: whether there is a snapshot manager, and
-- the results of the calls that can panic or fail. An order is set for a list of modules, and stores
-- are mounted under their keys.
pub record Node : Type 0 where
  pub order_begin_blockers : List Bytes → List Bytes → Result (Unit {0})
  pub order_end_blockers : List Bytes → List Bytes → Result (Unit {0})
  pub order_init_genesis : List Bytes → List Bytes → Result (Unit {0})
  pub order_export_genesis : List Bytes → List Bytes → Result (Unit {0})
  pub services : Result (Unit {0})
  pub mount : List Bytes → Result (Unit {0})
  pub snapshot_manager : Bool
  pub registered : Result (Unit {0})
  pub loaded : Result (Unit {0})
  pub pinned : Result (Unit {0})

abbrev call : {S : Type 0} → Call S → Exec (List (Call S)) (Unit {0})
call c = modify (λ calls. c ∷ calls)

-- `os.Exit(1)`, and `tmos.Exit`.
abbrev pub or_exit : Result (Unit {0}) → Result (Unit {0})
or_exit (ok x) = ok x
or_exit (err e) = panicked (exited 1)
or_exit (panicked p) = panicked p

module _ {S : Type 0} (node : Node) where
  abbrev pub register_snapshotter : Bool → Exec (List (Call S)) (Unit {0})
  register_snapshotter false = pure tt
  register_snapshotter true = do call register_extensions; lift (must node.registered)

  abbrev pub load : Bool → Exec (List (Call S)) (Unit {0})
  load false = pure tt
  load true = do
    call load_latest_version
    lift (or_exit node.loaded)
    call initialize_pinned_codes
    lift (or_exit node.pinned)

-- The base application with its codecs and its parameter store.
abbrev pub set_codecs : {S : Type 0} → Exec (List (Call S)) (Unit {0})
set_codecs = do
  call (new_base_app app_name)
  call set_commit_multi_store_tracer
  call set_version
  call set_interface_registry
  call set_tx_encoder
  call set_param_store

-- The module manager, the stores and the functions of a block.
abbrev pub set_modules : {S : Type 0} → Node → ModuleNames → Exec (List (Call S)) (Unit {0})
set_modules node names = do
  call (new_manager (modules names))
  call (set_order_begin_blockers (begin_blockers names))
  lift (node.order_begin_blockers (modules names) (begin_blockers names))
  call (set_order_end_blockers (end_blockers names))
  lift (node.order_end_blockers (modules names) (end_blockers names))
  call (set_order_init_genesis (genesis_module_order names))
  lift (node.order_init_genesis (modules names) (genesis_module_order names))
  call (set_order_export_genesis (genesis_module_order names))
  lift (node.order_export_genesis (modules names) (genesis_module_order names))
  call register_services
  lift node.services
  call (mount_kv_stores (store_keys names))
  lift (node.mount (store_keys names))
  call (mount_transient_stores [])
  lift (node.mount [])
  call (mount_memory_stores [])
  lift (node.mount [])
  call set_init_chainer
  call set_begin_blocker
  call set_end_blocker

-- A step in the memory of the process, and one that calls the base application.
abbrev pub on_memory : {W L A : Type 0} → Exec W A → Exec (W × L) A
on_memory m s = ((m s.0).0, ((m s.0).1, s.1))

abbrev on_calls : {W L A : Type 0} → Exec L A → Exec (W × L) A
on_calls m s = ((m s.1).0, (s.0, (m s.1).1))

module _ {S Coin : Type 0} (names : ModuleNames) (sdk : AnteSdk S) (ks : Keepers S Coin sdk)
    (kv : KvStore S) (pc : ParamsCodec) (bech32 : Bech32) (ops : AnteOps S) (node : Node) where
  -- From the encoding configuration on, of which the codec and the transaction configuration are
  -- used.
  unfoldable pub start_app :
      ks.Codec
      → ks.TxConfig
      → Bool
      → AppOptions ks.WasmConfig
      → List ks.WasmOption
      → Exec (List (Call S)) (SimApp names sdk ks)
  start_app cdc tx_cfg load_latest app_opts wasm_opts = do
    set_codecs
    app ← lift (new_keepers names sdk ks cdc app_opts wasm_opts)
    set_modules node names
    ante_handler ←
        lift (set_ante_handler names sdk ks kv pc bech32 app tx_cfg (ks.store_key names.wasm))
    call (install_ante_handler ante_handler)
    post_handler ← lift (set_post_handler names sdk ks kv pc bech32 ops app)
    call (install_post_handler post_handler)
    register_snapshotter node node.snapshot_manager
    load node load_latest
    pure app

  -- `W` is the memory of the process.
  unfoldable pub new_sim_app :
      {W : Type 0}
      → EncodingParts W ks.Codec ks.TxConfig
      → Bool
      → AppOptions ks.WasmConfig
      → List ks.WasmOption
      → Exec (W × List (Call S)) (SimApp names sdk ks)
  new_sim_app parts load_latest app_opts wasm_opts = do
    enc_cfg ← on_memory (encoding_config bech32 parts)
    on_calls (start_app enc_cfg.codec enc_cfg.tx_config load_latest app_opts wasm_opts)

-- A call that sets something up.
abbrev is_setting : {S : Type 0} → Call S → Bool
is_setting load_latest_version = false
is_setting initialize_pinned_codes = false
is_setting c = true

abbrev is_load : {S : Type 0} → Call S → Bool
is_load load_latest_version = true
is_load c = false

abbrev has_load : {S : Type 0} → List (Call S) → Bool
has_load [] = false
has_load (c ∷ calls) = is_load c || has_load calls

-- Nothing is set up after the version was loaded, which seals the base application.
abbrev pub set_up_first : {S : Type 0} → List (Call S) → Bool
set_up_first [] = true
set_up_first (c ∷ calls) = (not (is_setting c && has_load calls)) && set_up_first calls

-- The handlers that the base application was given last.
abbrev pub installed_ante_handler : {S : Type 0} → List (Call S) → Option (Handler S)
installed_ante_handler [] = none
installed_ante_handler (install_ante_handler h ∷ calls) = some h
installed_ante_handler (c ∷ calls) = installed_ante_handler calls

abbrev pub installed_post_handler : {S : Type 0} → List (Call S) → Option (PostHandler S)
installed_post_handler [] = none
installed_post_handler (install_post_handler h ∷ calls) = some h
installed_post_handler (c ∷ calls) = installed_post_handler calls
