-- ===== src/Runs/Encoding.antt =====
-- The codecs of the example application: a registry that is a list, and other modules that register
-- nothing.
use abstract_account.Prelude.{◌≡◌, refl, ap, subst, Bytes, none, List, [], ◌∷◌, codes}
use abstract_account.Result.{ok}
use abstract_account.Exec.{Exec, pure, and_then, and_then-elim}
use abstract_account.Types.Msgs.{MsgRegisterAccount}
use abstract_account.Types.Registry.{GoInterface, RegistryOps}
use abstract_account.Module.Basic.{Basic}
use abstract_account.App.Encoding.{EncodingOps, BasicManager, OtherBasics, In, head, tail, AllKeep}
use mathlib.Core.Logic.Or
use mathlib.Core.List.{Mem, mem-cons}

abbrev pub Entries : Type 0
Entries = List (GoInterface × Bytes)

abbrev pub Sent : Type 0
Sent = List (MsgRegisterAccount Bytes)

abbrev pub B : Type 0
B = Basic Entries Sent (Unit {0}) (Unit {0}) (Unit {0})

abbrev put : Unit {0} → GoInterface → Bytes → Exec Entries (Unit {0})
put r i url w = (ok tt, (i, url) ∷ w)

pub put-Mem :
    (r : Unit {0}) (i : GoInterface) (url : Bytes) (w w' : Entries)
    → put r i url w ≡ (ok tt, w')
    → Mem (i, url) w'
put-Mem r i url w w' e =
    subst (λ (l : Entries). Mem (i, url) l) (ap (λ p. p.1) e) (mem-cons.1 (Or.inl refl))

pub put_keeps :
    (r : Unit {0}) (i : GoInterface) (url : Bytes) (w w' : Entries)
    → put r i url w ≡ (ok tt, w')
    → (j : GoInterface) (other : Bytes) → Mem (j, other) w
    → Mem (j, other) w'
put_keeps r i url w w' e j other m =
    subst (λ (l : Entries). Mem (j, other) l) (ap (λ p. p.1) e) (mem-cons.1 (Or.inr m))

abbrev pub entries : RegistryOps Entries (Unit {0})
entries = record {
  register_implementations = put;
  register_msg_service_desc = λ r service w. (ok tt, w);
  Resolves = λ r w i url. Mem (i, url) w;
  registers = put-Mem;
  registration_keeps = put_keeps;
  service_keeps =
      λ r service w w' e j other m. subst (λ (l : Entries). Mem (j, other) l) (ap (λ p. p.1) e) m;
}

abbrev pub encoders : EncodingOps Entries (Unit {0}) (Unit {0}) (Unit {0}) (Unit {0})
encoders = record {
  new_legacy_amino = pure tt;
  new_interface_registry = pure tt;
  new_proto_codec = λ r. tt;
  new_tx_config = λ c. tt;
  std_register_legacy_amino_codec = λ a. pure tt;
  std_register_interfaces = λ r. pure tt;
  registry_of = λ c. tt;
  codec_of = λ c. tt;
  registry_of-new = λ r. refl;
  codec_of-new = λ c. refl;
}

-- The modules one after another.
unfoldable pub run_all : List B → Unit {0} → Exec Entries (Unit {0})
run_all [] r w = (ok tt, w)
run_all (b ∷ bm) r w = and_then (b.register_interfaces_of r w) (λ x. run_all bm r)

run_all_keeps :
    (bm : List B) (r : Unit {0}) (w w' : Entries)
    → AllKeep entries bm
    → run_all bm r w ≡ (ok tt, w')
    → (i : GoInterface) (url : Bytes) → Mem (i, url) w
    → Mem (i, url) w'
unfolding run_all
run_all_keeps [] r w w' k h i url m = subst (λ (l : Entries). Mem (i, url) l) (ap (λ p. p.1) h) m
run_all_keeps (b ∷ bm) r w w' k h i url m =
    and_then-elim (b.register_interfaces_of r w) _ h
      λ x w1 e h1. run_all_keeps bm r w1 w' k.1 h1 i url (k.0 r w w1 e i url m)

pub runs :
    (bm : List B) (b : B) (r : Unit {0}) (w w' : Entries)
    → AllKeep entries bm
    → In b bm
    → run_all bm r w ≡ (ok tt, w')
    → (u : Entries) × (u' : Entries) × (b.register_interfaces_of r u ≡ (ok tt, u'))
      × ((i : GoInterface) (url : Bytes) → Mem (i, url) u' → Mem (i, url) w')
unfolding run_all
runs [] b r w w' k m h = elim m [ ]
runs (b ∷ bm) _ r w w' k head h =
    and_then-elim (b.register_interfaces_of r w) _ h
      λ x w1 e h1. (w, w1, e, run_all_keeps bm r w1 w' k.1 h1)
runs (c ∷ bm) b r w w' k (tail m) h =
    and_then-elim (c.register_interfaces_of r w) _ h λ x w1 e h1. runs bm b r w1 w' k.1 m h1

abbrev pub manager : BasicManager entries Sent (Unit {0}) (Unit {0})
manager = record {
  register_all_amino = λ bm a. pure tt;
  register_all_interfaces = run_all;
  runs_each = runs;
}

-- A module that has nothing.
abbrev pub nothing : B
nothing = record {
  module_name = codes "nothing";
  register_interfaces_of = λ r. pure tt;
  register_legacy_amino_codec_of = λ a. pure tt;
  register_grpc_gateway_routes_of = λ r. pure tt;
  tx_cmd = none;
  query_cmd = none;
}

abbrev pub others : OtherBasics B
others = record {
  auth = nothing;
  bank = nothing;
  consensus = nothing;
  poa = nothing;
  wasm = nothing;
}

pub nothing_kept :
    (r : Unit {0}) (w w' : Entries)
    → nothing.register_interfaces_of r w ≡ (ok tt, w')
    → (i : GoInterface) (url : Bytes) → Mem (i, url) w
    → Mem (i, url) w'
nothing_kept r w w' e i url m = subst (λ (l : Entries). Mem (i, url) l) (ap (λ p. p.1) e) m
