-- ===== src/Runs/Client.antt =====
-- The commands, the stateless checks and the genesis file at concrete inputs.
use abstract_account.Prelude.{
  ℕ, ◌≡◌, ◌↔◌, refl, sym, ap, Bytes, true, some, List, [], ◌∷◌, codes, arith,
}
use abstract_account.Prelude.Decimal.{decimal}
use abstract_account.Result.{Result, ok, err, external}
use abstract_account.Types.Msgs.{MsgRegisterAccount, Checks, register_account_validate_basic}
use abstract_account.Types.Msgs.Laws.{IsValidMsg, register_account_validate_basic_iff}
use abstract_account.Types.Genesis.{GenesisState}
use abstract_account.Wire.Params.Codec.{params_codec}
use abstract_account.Module.{JsonCodec, validate_genesis, init_genesis_json, export_genesis_json}
use abstract_account.Module.Laws.{export-init_genesis_json}
use abstract_account.Client.{ClientOps, register_cmd}
use abstract_account.Client.Laws.{Prepared, register_cmd_sends}
use abstract_account.Runs.World.{World, empty_world, world_store, cells, plain}
use abstract_account.Runs.Codec.{some_params, some_params-InRange}
use abstract_account.Runs.Store.{some_params-IsValid}

-- Every message, list of coins and salt is valid.
abbrev pub checks : Checks Bytes
checks = record {
  msg_validate_basic = λ msg. ok tt;
  coins_is_valid = λ funds. true;
  validate_salt = λ salt. ok tt;
}

abbrev message : MsgRegisterAccount Bytes
message = record { sender = 4 ∷ []; code_id = 42; msg = codes "{}"; funds = []; salt = codes "s" }

register_account_validate_basic_iff_example :
    (register_account_validate_basic plain checks message ≡ ok tt) ↔ IsValidMsg plain checks message
register_account_validate_basic_iff_example =
    register_account_validate_basic_iff plain checks message

-- The client keeps a list of what it has sent.
abbrev pub client : ClientOps (List (MsgRegisterAccount Bytes)) Bytes
client = record {
  from_address = ok (some (4 ∷ []));
  salt_flag = ok (codes "s");
  funds_flag = ok [];
  parse_coins_normalized = λ text. ok [];
  unmarshal_params = λ text. ok some_params;
  broadcast_register = λ m sent. (ok tt, m ∷ sent);
  broadcast_update = λ m sent. (ok tt, sent);
  client_query_context = ok tt;
  query = λ sent. err (external 4);
  print_proto = λ p sent. (ok tt, sent);
}

prepared : Prepared plain checks client message
prepared = record {
  first = 4;
  rest = [];
  amount_str = [];
  from = refl;
  sender = refl;
  code_id = λ e. cc;
  code_id_fits = omega arith;
  salt = refl;
  funds_text = refl;
  funds = refl;
  msg_valid = refl;
  funds_valid = refl;
  salt_valid = refl;
}

register_cmd_sends_example :
    register_cmd plain checks client (decimal 42 ∷ codes "{}" ∷ []) [] ≡ (ok tt, message ∷ [])
register_cmd_sends_example = register_cmd_sends plain checks client message [] prepared

-- A codec for some parameters with any counter: it writes the counter, and what follows the counter
-- is not read.
abbrev genesis : ℕ → GenesisState
genesis n = record { params = some some_params; next_account_id = n }

abbrev written : GenesisState → Result Bytes
written gs = ok (gs.next_account_id ∷ [])

abbrev read : Bytes → Result GenesisState
read [] = err (external 6)
read (n ∷ rest) = ok (genesis n)

abbrev counters : JsonCodec
counters = record {
  marshal = written;
  unmarshal = read;
  Fits = λ gs. gs ≡ genesis gs.next_account_id;
  round_trip = λ gs e. (gs.next_account_id ∷ [], refl, ap ok (sym e));
}

-- A file with a space behind the counter.
abbrev file : Bytes
file = 7 ∷ b' ' ∷ []

export-init_genesis_json_example :
    (bz : Bytes) × (s' : World) × (validate_genesis counters file ≡ ok tt)
    × (init_genesis_json world_store cells params_codec counters file empty_world ≡ (ok tt, s'))
    × (export_genesis_json world_store cells params_codec counters s' ≡ (ok bz, s'))
    × (read bz ≡ ok (genesis 7))
export-init_genesis_json_example =
    export-init_genesis_json world_store cells params_codec counters file some_params 7 empty_world
      refl some_params-IsValid some_params-InRange (omega arith) refl
