-- ===== src/Solidity/SmtChecker.antt =====
-- The typed result of a run of solc's model checker and the configuration of one run
-- (crates/vergil-solidity/src/smtchecker.rs). The subprocess is not modelled.
pub mod Parse
pub mod Run
pub mod Examples
use vergil.Prelude.{ℕ, String, Bool, false, Option, ◌*◌}
use vergil.Solidity.Halmos.{FilePath}

pub data PropertyKind : Type 0 where
  assertion overflow underflow division_by_zero out_of_bounds other : PropertyKind

pub data SmtCheckerResult : Type 0 where
  -- proved_safe_count, wall_clock_ms, smt_query_sha256
  verified : ℕ → ℕ → Option String → SmtCheckerResult
  -- property_kind, message, wall_clock_ms
  violation : PropertyKind → String → ℕ → SmtCheckerResult
  -- reason, wall_clock_ms
  unknown : String → ℕ → SmtCheckerResult
  error : String → SmtCheckerResult

pub record SmtCheckerRun : Type 0 where
  pub project : FilePath
  pub source : FilePath
  pub wall_clock_budget : ℕ
  pub solver_timeout_ms : ℕ
  pub print_query : Bool

-- `SmtCheckerRun::new`: 120 seconds of wall clock
unfoldable pub smt_checker_run : FilePath → FilePath → SmtCheckerRun
smt_checker_run project source = record {
  project = project;
  source = source;
  wall_clock_budget = 120 * 1000;
  solver_timeout_ms = 30000;
  print_query = false;
}

unfoldable pub with_wall_clock : ℕ → SmtCheckerRun → SmtCheckerRun
with_wall_clock budget run = record run { wall_clock_budget = budget }

unfoldable pub with_print_query : Bool → SmtCheckerRun → SmtCheckerRun
with_print_query enabled run = record run { print_query = enabled }
