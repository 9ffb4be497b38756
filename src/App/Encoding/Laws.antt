-- ===== src/App/Encoding/Laws.antt =====
-- The codecs of the application know the module's types.
use abstract_account.Prelude.{◌≡◌, subst, ap, ◌∙◌}
use abstract_account.Result.{ok}
use abstract_account.Exec.{and_then-elim}
use abstract_account.Sdk.{Bech32}
use abstract_account.Types.Msgs.{Checks}
use abstract_account.Types.Registry.{RegistryOps}
use abstract_account.Types.Registry.Laws.{
  ResolvesModule, register_interfaces-ResolvesModule, register_interfaces_keeps,
}
use abstract_account.Client.{ClientOps}
use abstract_account.Client.Commands.{Run}
use abstract_account.Module.Basic.{Basic, app_module_basic}
use abstract_account.App.Encoding.{
  EncodingOps, BasicManager, OtherBasics, head, AllKeep, list_others, module_basics, EncodingConfig,
  make_test_encoding_config, make_encoding_config,
}

module _ {W Registry Amino Codec TxConfig : Type 0}
    (ops : EncodingOps W Registry Amino Codec TxConfig) where
  -- The codecs of a configuration have its registry.
  abbrev Shared : EncodingConfig Registry Amino Codec TxConfig → Type 0
  Shared cfg =
      (ops.registry_of cfg.codec ≡ cfg.interface_registry)
      × (ops.registry_of (ops.codec_of cfg.tx_config) ≡ cfg.interface_registry)

  shared :
      (amino : Amino) (r : Registry) (cfg : EncodingConfig Registry Amino Codec TxConfig)
      → record {
        interface_registry = r;
        codec = ops.new_proto_codec r;
        tx_config = ops.new_tx_config (ops.new_proto_codec r);
        amino = amino;
      }
        ≡ cfg
      → Shared cfg
  shared amino r cfg e = subst Shared e (
    ops.registry_of-new r,
    ap ops.registry_of (ops.codec_of-new (ops.new_proto_codec r)) ∙ ops.registry_of-new r,
  )

  make_test_encoding_config-Shared :
      (cfg : EncodingConfig Registry Amino Codec TxConfig) (w w' : W)
      → make_test_encoding_config ops w ≡ (ok cfg, w')
      → Shared cfg
  unfolding make_test_encoding_config
  make_test_encoding_config-Shared cfg w w' h =
      and_then-elim (ops.new_legacy_amino w) _ h λ amino w1 e1 h1.
        and_then-elim (ops.new_interface_registry w1) _ h1 λ r w2 e2 h2. shared amino r cfg (cc h2)

module _ {W C Coin Registry Amino Router Codec TxConfig : Type 0}
    (registry : RegistryOps W Registry) (bech32 : Bech32) (checks : Checks Coin)
    (client : ClientOps C Coin) (validate_cmd : Run C)
    (ops : EncodingOps W Registry Amino Codec TxConfig)
    (manager : BasicManager registry C Amino Router)
    (others : OtherBasics (Basic W C Registry Amino Router)) where
  -- An encoding configuration that is made without a panic knows the module's account, its public
  -- key and its two messages, if the other modules take no registration back: the registry of its
  -- codec resolves them, and so does that of the codec of its transaction configuration.
  pub make_encoding_config_resolves :
      (cfg : EncodingConfig Registry Amino Codec TxConfig) (w w' : W)
      → AllKeep registry (list_others others)
      → make_encoding_config ops registry manager
          (module_basics (app_module_basic registry bech32 checks client validate_cmd) others)
          w
        ≡ (ok cfg, w')
      → ResolvesModule registry (ops.registry_of cfg.codec) w'
        × ResolvesModule registry (ops.registry_of (ops.codec_of cfg.tx_config)) w'
  unfolding make_encoding_config app_module_basic
  make_encoding_config_resolves cfg w w' keep h =
      let own = app_module_basic registry bech32 checks client validate_cmd in
      let basics = module_basics own others in
      and_then-elim (make_test_encoding_config ops w) _ h λ enc w1 e1 h1.
        and_then-elim (ops.std_register_legacy_amino_codec enc.amino w1) _ h1 λ x2 w2 e2 h2.
          and_then-elim (ops.std_register_interfaces enc.interface_registry w2) _ h2 λ x3 w3 e3 h3.
            and_then-elim (manager.register_all_amino basics enc.amino w3) _ h3 λ x4 w4 e4 h4.
              and_then-elim (manager.register_all_interfaces basics enc.interface_registry w4) _ h4
                λ x5 w5 e5 h5.
                  let (u, u', ran, keeps) =
                    manager.runs_each basics own enc.interface_registry w4 w5
                      (register_interfaces_keeps registry, keep) head e5 in
                  let known =
                    register_interfaces-ResolvesModule registry enc.interface_registry u u' ran in
                  let (one, two) = make_test_encoding_config-Shared ops enc w w1 e1 in
                  let all : ResolvesModule registry enc.interface_registry w5 = record {
                    account = keeps _ _ known.account;
                    key = keeps _ _ known.key;
                    register = keeps _ _ known.register;
                    update = keeps _ _ known.update;
                  } in
                  let same : enc ≡ cfg = cc h5 in
                  let last : w5 ≡ w' = ap (λ r. r.1) h5 in rw (← same, ← last, one, two) (all, all)
