-- ===== src/Client/Tree.antt =====
-- The commands of cobra as the packages cli and simd build them: their texts, their flags, the
-- function that they run and their subcommands.
use abstract_account.Prelude.{ℕ, Bytes, Bool, Option, none, some, List, [], ◌∷◌, ◌++◌}

-- A flag with a text for its value, its default and its usage, or those that
-- `flags.AddTxFlagsToCmd` adds.
pub data Flag : Type 0 where
  text_flag : Bytes → Bytes → Bytes → Flag
  tx_flags : Flag

-- `cobra.NoArgs`, `cobra.ExactArgs(n)`, or no `Args` at all.
pub data ArgCheck : Type 0 where
  any_args no_args_check : ArgCheck
  exact_args : ℕ → ArgCheck

-- The fields of `cobra.Command` that are set.
pub record Usage : Type 0 where
  pub use_line : Bytes
  pub short : Bytes
  pub aliases : List Bytes
  pub args : ArgCheck
  pub disable_flag_parsing : Bool
  pub suggestions_minimum_distance : ℕ
  pub silence_usage : Bool

-- `R` is the type of the functions that commands run. The second one is `PersistentPreRunE`.
mutual
  pub data Command (R : Type 0) : Type 0 where
    command : Usage → Option R → Option R → List Flag → Commands R → Command R

  pub data Commands (R : Type 0) : Type 0 where
    no_commands : Commands R
    added : Command R → Commands R → Commands R

module _ {R : Type 0} where
  abbrev pub new_command : Usage → Option R → Command R
  new_command u run = command u run none [] no_commands

  -- The command with a `PersistentPreRunE`.
  abbrev pub with_pre_run : R → Command R → Command R
  with_pre_run pre (command u run old flags subs) = command u run (some pre) flags subs

  unfoldable pub after : Commands R → List (Command R) → Commands R
  after no_commands [] = no_commands
  after no_commands (c ∷ cs) = added c (after no_commands cs)
  after (added d ds) cs = added d (after ds cs)

  -- `cmd.AddCommand`
  unfoldable pub add_command : Command R → List (Command R) → Command R
  unfolding after
  add_command (command u run pre flags subs) cs = command u run pre flags (after subs cs)

  -- `cmd.Flags()`
  abbrev pub add_flags : Command R → List Flag → Command R
  add_flags (command u run pre flags subs) more = command u run pre (flags ++ more) subs
