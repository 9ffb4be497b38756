-- ===== src/App/Commands/Laws.antt =====
-- The client's context knows the module's types.
use abstract_account.Result.{Result}
use abstract_account.App.Keepers.{Keepers}
