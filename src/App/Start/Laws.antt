-- ===== src/App/Start/Laws.antt =====
-- The application is set up before its version is loaded, and what it is set up with.
use abstract_account.Prelude.{◌≡◌, ◌⊎◌, inl, inr, refl, sym, ap, Bool, true, false, List, [], ◌∷◌}
use abstract_account.Result.{Result, ok, err, panicked, Error, Panic}
use abstract_account.Exec.{Exec, and_then, lift-elim, pure, ◌>>◌}
use abstract_account.Keeper.{must}
use abstract_account.Sdk.{KvStore, Bech32, ParamsCodec}
use abstract_account.Ante.{Handler, PostHandler, AnteOps}
use abstract_account.App.Sdk.{AnteSdk}
use abstract_account.App.Keepers.{ModuleNames, Keepers, AppOptions}
use abstract_account.App.Encoding.{EncodingParts, encoding_config}
use abstract_account.App.SimApp.{
  modules, store_keys, begin_blockers, end_blockers, genesis_module_order, new_keepers,
  set_ante_handler, set_post_handler,
}
use abstract_account.App.Start.{
  Call, Node, load, register_snapshotter, set_modules, set_codecs, install_ante_handler,
  install_post_handler, new_manager, set_order_begin_blockers, set_order_end_blockers,
  set_order_init_genesis, set_order_export_genesis, register_services, mount_kv_stores,
  mount_transient_stores, mount_memory_stores, set_init_chainer, set_begin_blocker, set_end_blocker,
  start_app, new_sim_app, set_up_first,
}

cases {ℓ} :
    {A : Type ℓ} (r : Result A)
    → ((a : A) × (r ≡ ok a)) ⊎ (((e : Error) × (r ≡ err e)) ⊎ ((p : Panic) × (r ≡ panicked p)))
cases (ok a) = inl (a, refl)
cases (err e) = inr (inl (e, refl))
cases (panicked p) = inr (inr (p, refl))

module _ {S Coin : Type 0} (names : ModuleNames) (sdk : AnteSdk S) (ks : Keepers S Coin sdk)
    (kv : KvStore S) (pc : ParamsCodec) (bech32 : Bech32) (ops : AnteOps S) (node : Node) where
  load_seals :
      {A : Type 0} (a : A) (load_latest : Bool) (calls : List (Call S))
      → set_up_first calls ≡ true
      → set_up_first (and_then (load node load_latest calls) (λ x. pure a)).1 ≡ true
  load_seals a false calls e = e
  load_seals a true calls e = elim (cases node.loaded) [
    | inl (x, e1) ↦ elim (cases node.pinned) [
      | inl (y, e2) ↦ rw (e1, e2, e) refl
      | inr (inl (y, e2)) ↦ rw (e1, e2, e) refl
      | inr (inr (y, e2)) ↦ rw (e1, e2, e) refl
    ]
    | inr (inl (x, e1)) ↦ rw (e1, e) refl
    | inr (inr (x, e1)) ↦ rw (e1, e) refl
  ]

  -- After a step that can fail, what follows is looked at only when it returned.
  sealed_after :
      {A B : Type 0} (r : Result A) (calls : List (Call S)) (f : A → Exec (List (Call S)) B)
      → set_up_first calls ≡ true
      → ((a : A) → set_up_first (f a calls).1 ≡ true)
      → set_up_first (and_then (r, calls) f).1 ≡ true
  sealed_after (ok a) calls f e k = k a
  sealed_after (err x) calls f e k = e
  sealed_after (panicked x) calls f e k = e

  -- What the manager, the stores and the functions of a block are set with, on the codecs.
  abbrev pub set_up : List (Call S)
  set_up =
      set_end_blocker
      ∷ set_begin_blocker
      ∷ set_init_chainer
      ∷ mount_memory_stores []
      ∷ mount_transient_stores []
      ∷ mount_kv_stores (store_keys names)
      ∷ register_services
      ∷ set_order_export_genesis (genesis_module_order names)
      ∷ set_order_init_genesis (genesis_module_order names)
      ∷ set_order_end_blockers (end_blockers names)
      ∷ set_order_begin_blockers (begin_blockers names)
      ∷ new_manager (modules names)
      ∷ (set_codecs []).1

  set_modules_seals : set_up_first (set_modules node names (set_codecs {S = S} []).1).1 ≡ true
  set_modules_seals =
      sealed_after (node.order_begin_blockers (modules names) (begin_blockers names)) _ _ refl λ x0.
        sealed_after (node.order_end_blockers (modules names) (end_blockers names)) _ _ refl λ x1.
          sealed_after (node.order_init_genesis (modules names) (genesis_module_order names)) _ _
            refl
            λ x2.
              sealed_after (node.order_export_genesis (modules names) (genesis_module_order names))
                _ _ refl
                λ x3. sealed_after (node.services) _ _ refl λ x4.
                  sealed_after (node.mount (store_keys names)) _ _ refl λ x5.
                    sealed_after (node.mount []) _ _ refl
                      λ x6. sealed_after (node.mount []) _ _ refl λ x7. refl

  set_modules-ok :
      (calls : List (Call S))
      → set_modules node names (set_codecs []).1 ≡ (ok tt, calls)
      → calls ≡ set_up
  set_modules-ok calls h =
      lift-elim (node.order_begin_blockers (modules names) (begin_blockers names)) _ _ h λ x0 e0 h0.
        lift-elim (node.order_end_blockers (modules names) (end_blockers names)) _ _ h0 λ x1 e1 h1.
          lift-elim (node.order_init_genesis (modules names) (genesis_module_order names)) _ _ h1
            λ x2 e2 h2.
              lift-elim (node.order_export_genesis (modules names) (genesis_module_order names)) _ _
                h2
                λ x3 e3 h3. lift-elim (node.services) _ _ h3 λ x4 e4 h4.
                  lift-elim (node.mount (store_keys names)) _ _ h4 λ x5 e5 h5.
                    lift-elim (node.mount []) _ _ h5 λ x6 e6 h6.
                      lift-elim (node.mount []) _ _ h6 λ x7 e7 h7. sym (ap (λ r. r.1) h7)

  sealed_from :
      {A B : Type 0} (r : Result A × List (Call S)) (f : A → Exec (List (Call S)) B)
      → set_up_first r.1 ≡ true
      → ((a : A) (calls : List (Call S)) → r ≡ (ok a, calls) → set_up_first (f a calls).1 ≡ true)
      → set_up_first (and_then r f).1 ≡ true
  sealed_from (ok a, calls) f e k = k a calls refl
  sealed_from (err x, calls) f e k = e
  sealed_from (panicked x, calls) f e k = e

  register_seals :
      {A : Type 0} (a : A) (load_latest b : Bool) (h : Handler S) (p : PostHandler S)
      → set_up_first
          (and_then
            (register_snapshotter node b (install_post_handler p ∷ install_ante_handler h ∷ set_up))
            (λ x. load node load_latest >> pure a)).1
        ≡ true
  register_seals a load_latest false h p = load_seals a load_latest _ refl
  register_seals a load_latest true h p =
      sealed_after (must node.registered) _ _ refl λ x. load_seals a load_latest _ refl

  start_app_seals :
      (cdc : ks.Codec) (tx_cfg : ks.TxConfig) (load_latest : Bool)
      (app_opts : AppOptions ks.WasmConfig) (wasm_opts : List ks.WasmOption)
      → set_up_first
          (start_app names sdk ks kv pc bech32 ops node cdc tx_cfg load_latest app_opts wasm_opts
            []).1
        ≡ true
  unfolding start_app
  start_app_seals cdc tx_cfg load_latest app_opts wasm_opts =
      sealed_after (new_keepers names sdk ks cdc app_opts wasm_opts) _ _ refl λ app.
        sealed_from (set_modules node names (set_codecs []).1) _ set_modules_seals λ x calls e.
          rw (set_modules-ok calls e) (
            sealed_after
              (set_ante_handler names sdk ks kv pc bech32 app tx_cfg (ks.store_key names.wasm)) _ _
              refl
              λ h.
                sealed_after (set_post_handler names sdk ks kv pc bech32 ops app) _ _ refl
                  λ p. register_seals app load_latest node.snapshot_manager h p)

  -- However the start ends, in the application, a panic or an exit of the process, nothing is set up
  -- after the latest version has been loaded.
  pub new_sim_app_seals :
      {W : Type 0} (parts : EncodingParts W ks.Codec ks.TxConfig) (load_latest : Bool)
      (app_opts : AppOptions ks.WasmConfig) (wasm_opts : List ks.WasmOption) (w : W)
      → set_up_first
          (new_sim_app names sdk ks kv pc bech32 ops node parts load_latest app_opts wasm_opts
            (w, [])).1.1
        ≡ true
  unfolding new_sim_app
  new_sim_app_seals parts load_latest app_opts wasm_opts w =
      elim (cases (encoding_config bech32 parts w).0) [
        | inl (enc, e) ↦
            rw e (start_app_seals enc.codec enc.tx_config load_latest app_opts wasm_opts)
        | inr (inl (x, e)) ↦ rw e refl
        | inr (inr (x, e)) ↦ rw e refl
      ]
