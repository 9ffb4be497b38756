-- ===== src/Runs/Start.antt =====
-- The start of the example application.
use abstract_account.Prelude.{◌≡◌, Bytes, true, List, [], ◌∷◌}
use abstract_account.Result.{Result, ok, err, panicked, raised, logic, external}
use abstract_account.Wire.Params.Codec.{params_codec}
use abstract_account.App.Start.{Node, new_sim_app, set_up_first}
use abstract_account.App.Start.Laws.{new_sim_app_seals}
use abstract_account.App.Encoding.{EncodingParts, EncodingConfig, encoding_config}
use abstract_account.Exec.{pure}
use abstract_account.Runs.Client.{checks, client}
use abstract_account.Runs.Encoding.{Entries, Sent, entries, encoders, manager, others}
use abstract_account.Runs.World.{World, world_store, plain, world_ante}
use mathlib.Core.List.{Perm}
use mathlib.Core.List.Perm
use abstract_account.Runs.App.{names, world_sdk, keepers, app_options}

-- The empty order forgets a module, if there is one.
abbrev set_order : List Bytes → List Bytes → Result (Unit {0})
set_order [] order = ok tt
set_order (m ∷ ms) [] = panicked (raised logic)
set_order (m ∷ ms) (n ∷ order) = ok tt

-- A node that cannot load its latest version, and one that can.
abbrev broken : Node
broken = record {
  order_begin_blockers = set_order;
  order_end_blockers = set_order;
  order_init_genesis = set_order;
  order_export_genesis = set_order;
  services = ok tt;
  mount = λ keys. ok tt;
  snapshot_manager = true;
  registered = ok tt;
  loaded = err (external 5);
  pinned = ok tt;
}

abbrev pub node : Node
node = record broken { loaded = ok tt }

-- The codecs of the node's commands.
abbrev pub parts : EncodingParts Entries (Unit {0}) (Unit {0})
parts = record {
  Registry = Unit;
  Amino = Unit;
  Router = Unit;
  Client = Sent;
  Coin = Bytes;
  ops = encoders;
  registry = entries;
  manager = manager;
  checks = checks;
  client = client;
  validate_cmd = λ args. pure tt;
  others = others;
}

new_sim_app_seals_example :
    set_up_first
      (new_sim_app names world_sdk keepers world_store params_codec plain world_ante broken parts
        true app_options []
        ([], [])).1.1
    ≡ true
new_sim_app_seals_example =
    new_sim_app_seals names world_sdk keepers world_store params_codec plain world_ante broken parts
      true app_options [] []

abbrev pub enc : EncodingConfig (Unit {0}) (Unit {0}) (Unit {0}) (Unit {0})
enc = record { interface_registry = tt; codec = tt; tx_config = tt; amino = tt }

abbrev pub encoded : Entries
encoded = (encoding_config plain parts []).1
