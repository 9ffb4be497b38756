-- ===== src/Client/Commands.antt =====
-- x/abstractaccount/client/cli: the commands of the module, with `GetTxCmd` and `GetQueryCmd` of
-- module.go.
use abstract_account.Prelude.{Bytes, true, false, none, some, List, [], ◌∷◌, codes}
use abstract_account.Exec.{Exec}
use abstract_account.Sdk.{Bech32}
use abstract_account.Types.Msgs.{Checks}
use abstract_account.Client.{ClientOps, register_cmd, update_params_cmd, params_cmd}
use abstract_account.Client.Tree.{
  text_flag, tx_flags, any_args, no_args_check, exact_args, Command, new_command, add_command,
  add_flags,
}

-- What a command runs on its arguments.
abbrev pub Run : Type 0 → Type 0
Run C = List Bytes → Exec C (Unit {0})

abbrev pub flag_salt : Bytes
flag_salt = codes "salt"

abbrev pub flag_funds : Bytes
flag_funds = codes "funds"

module _ {C Coin : Type 0} (bech32 : Bech32) (checks : Checks Coin) (ops : ClientOps C Coin) where
  unfoldable pub register_command : Command (Run C)
  register_command =
      add_flags
        (add_flags
          (new_command
            (record {
              use_line = codes "register [code-id] [msg] --salt [string] --funds [coins,optional]";
              short = codes "Register an abstract account";
              aliases = [];
              args = exact_args 2;
              disable_flag_parsing = false;
              suggestions_minimum_distance = 0;
              silence_usage = true;
            })
            (some (register_cmd bech32 checks ops)))
          (tx_flags ∷ []))
        (text_flag flag_salt [] (codes "Salt value used in determining account address")
          ∷ text_flag flag_funds [] (codes "Coins to send to the account during instantiation")
          ∷ [])

  unfoldable pub update_params_command : Command (Run C)
  update_params_command =
      add_flags
        (new_command
          (record {
            use_line = codes "update-params [json-encoded-params]";
            short = codes "Update the module's parameters";
            aliases = [];
            args = exact_args 1;
            disable_flag_parsing = false;
            suggestions_minimum_distance = 0;
            silence_usage = true;
          })
          (some (update_params_cmd bech32 checks ops)))
        (tx_flags ∷ [])

  -- `client.ValidateCmd` is a parameter.
  unfoldable pub get_tx_cmd : Run C → Command (Run C)
  get_tx_cmd validate_cmd =
      add_command
        (new_command
          (record {
            use_line = codes "abstract-account";
            short = codes "Abstract account transaction subcommands";
            aliases = [];
            args = any_args;
            disable_flag_parsing = true;
            suggestions_minimum_distance = 2;
            silence_usage = true;
          })
          (some validate_cmd))
        (register_command ∷ update_params_command ∷ [])

module _ {C Coin : Type 0} (ops : ClientOps C Coin) where
  unfoldable pub params_command : Command (Run C)
  params_command =
      new_command
        (record {
          use_line = codes "params";
          short = codes "Query the module's parameters";
          aliases = [];
          args = no_args_check;
          disable_flag_parsing = false;
          suggestions_minimum_distance = 0;
          silence_usage = false;
        })
        (some (params_cmd ops))

  unfoldable pub get_query_cmd : Command (Run C)
  get_query_cmd =
      add_command
        (new_command
          (record {
            use_line = codes "abstract-account";
            short = codes "Querying commands for the abstract-account module";
            aliases = [];
            args = any_args;
            disable_flag_parsing = true;
            suggestions_minimum_distance = 2;
            silence_usage = false;
          })
          none)
        (params_command ∷ [])
