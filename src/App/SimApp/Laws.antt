-- ===== src/App/SimApp/Laws.antt =====
-- The application's handlers can be set, its orders are complete, and which addresses it blocks.
use abstract_account.Prelude.{
  ◌≡◌, ◌↔◌, ◌⊎◌, inl, inr, refl, Bytes, true, false, [], ◌∷◌, ◌||◌, bytes_equal, bytes_equal_iff,
  Bool-cases,
}
use abstract_account.Result.{ok}
use abstract_account.Sdk.{KvStore, Bech32, ParamsCodec}
use abstract_account.MsgServer.{module_name}
use abstract_account.Ante.{Handler, PostHandler, AnteOps}
use abstract_account.App.Sdk.{AnteSdk}
use abstract_account.App.Keepers.{ModuleNames, Keepers}
use abstract_account.App.Ante.{new_ante_handler, new_post_handler}
use abstract_account.App.SimApp.{
  SimApp, modules, begin_blockers, end_blockers, genesis_module_order, blocked_addresses,
  set_ante_handler, set_post_handler,
}
use mathlib.Core.List.{Perm, perm_middle}
use mathlib.Core.List.Perm

module _ {ℓ} {A : Type ℓ} where
  last_first : (p a b c w m : A) → Perm (p ∷ a ∷ b ∷ c ∷ w ∷ m ∷ []) (m ∷ p ∷ a ∷ b ∷ c ∷ w ∷ [])
  last_first p a b c w m = perm_middle (p ∷ a ∷ b ∷ c ∷ w ∷ []) []

  first_fourth : (p a b c w : A) → Perm (p ∷ a ∷ b ∷ c ∷ w ∷ []) (a ∷ b ∷ c ∷ p ∷ w ∷ [])
  first_fourth p a b c w = Perm.symm (perm_middle (a ∷ b ∷ c ∷ []) (w ∷ []))

-- Each of the three orders lists every module of the application once: none is forgotten.
pub orders_complete :
    (names : ModuleNames)
    → Perm (begin_blockers names) (modules names)
      × Perm (end_blockers names) (modules names)
      × Perm (genesis_module_order names) (modules names)
orders_complete names =
    let blockers =
      Perm.trans (last_first names.poa names.auth names.bank names.consensus names.wasm module_name)
        (Perm.cons module_name
          (first_fourth names.poa names.auth names.bank names.consensus names.wasm)) in
    (
      blockers,
      blockers,
      Perm.trans (last_first names.auth names.bank names.poa names.consensus names.wasm module_name)
          (Perm.cons module_name (
            Perm.cons names.auth
              (Perm.cons names.bank (Perm.swap names.consensus names.poa (names.wasm ∷ []))))),
    )

or_iff :
    (x y a : Bytes) → (bytes_equal x a || (bytes_equal y a || false) ≡ true) ↔ ((x ≡ a) ⊎ (y ≡ a))
or_iff x y a = elim (Bool-cases (bytes_equal x a)) [
  | inl e ↦ (λ h. inl ((bytes_equal_iff x a).0 e), λ h. rw e refl)
  | inr e ↦ elim (Bool-cases (bytes_equal y a)) [
    | inl f ↦ (λ h. inr ((bytes_equal_iff y a).0 f), λ h. rw (e, f) refl)
    | inr f ↦ (
      (λ h. cc),
      λ h. elim h [
        | inl k ↦ cc (e, (bytes_equal_iff x a).1 k)
        | inr k ↦ cc (f, (bytes_equal_iff y a).1 k)
      ],
    )
  ]
]

-- The bank refuses to send coins to the accounts of the fee collector and of the wasm module, and
-- to no other.
pub blocked_addresses_iff :
    (names : ModuleNames) (addr : Bytes)
    → (blocked_addresses names addr ≡ true) ↔ (
        (names.module_address names.fee_collector ≡ addr)
        ⊎ (names.module_address names.wasm ≡ addr))
unfolding blocked_addresses
blocked_addresses_iff names addr =
    or_iff (names.module_address names.fee_collector) (names.module_address names.wasm) addr

module _ {S Coin : Type 0} (names : ModuleNames) (sdk : AnteSdk S) (ks : Keepers S Coin sdk)
    (kv : KvStore S) (cdc : ParamsCodec) (bech32 : Bech32) where
  -- Whatever keepers the application has, setting its two handlers does not panic: nothing that
  -- they need is missing.
  pub handlers_set :
      (app : SimApp names sdk ks) (tx_cfg : ks.TxConfig) (key : sdk.StoreKey) (ops : AnteOps S)
      → ((h : Handler S) × (set_ante_handler names sdk ks kv cdc bech32 app tx_cfg key ≡ ok h))
        × ((p : PostHandler S) × (set_post_handler names sdk ks kv cdc bech32 ops app ≡ ok p))
  unfolding set_ante_handler set_post_handler new_ante_handler new_post_handler
  handlers_set app tx_cfg key ops = ((_, refl), (_, refl))
