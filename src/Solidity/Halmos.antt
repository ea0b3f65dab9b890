-- ===== src/Solidity/Halmos.antt =====
-- The typed result of a Halmos run and the configuration of one run
-- (crates/vergil-solidity/src/halmos.rs). A `PathBuf` is the list of its components, and a
-- `Duration` its milliseconds. The subprocess is not modelled: a run's result enters as data.
pub mod Lines
pub mod Inputs
pub mod Parse
pub mod Run
pub mod Examples
use vergil.Prelude.{ℕ, String, Bool, true, false, Option, none, some, List, [], ◌∷◌, ◌++◌, ◌*◌}

abbrev pub FilePath : Type 0
FilePath = List String

-- `Path::join` with a relative component
abbrev pub join : FilePath → String → FilePath
join path part = path ++ part ∷ []

pub data ErrorStage : Type 0 where
  build runtime : ErrorStage

-- `impl fmt::Display for ErrorStage`
unfoldable pub stage_text : ErrorStage → String
stage_text build = "build"
stage_text runtime = "runtime"

pub record NamedValue : Type 0 where
  pub name : String
  pub hex_value : String

pub record StorageWrite : Type 0 where
  pub slot : String
  pub value : String

pub record Trace : Type 0 where
  pub property : String
  pub inputs : List NamedValue
  pub storage_writes : List StorageWrite

pub data HalmosResult : Type 0 where
  -- property, paths, wall_clock_ms, smt_query_sha256
  verified : String → ℕ → ℕ → Option String → HalmosResult
  counterexample : Trace → ℕ → HalmosResult
  -- property, reason, wall_clock_ms
  unknown : String → String → ℕ → HalmosResult
  timeout : String → ℕ → HalmosResult
  error : ErrorStage → String → HalmosResult

pub record HalmosRun : Type 0 where
  pub project : FilePath
  pub check_fn : String
  pub wall_clock_budget : ℕ
  pub solver_timeout_ms : ℕ
  pub dump_smt2 : Bool
  pub dump_smt_directory : Option FilePath
  pub smt_persist_directory : Option FilePath
  pub extra_args : List String

-- `HalmosRun::new`: 120 seconds of wall clock
unfoldable pub halmos_run : FilePath → String → HalmosRun
halmos_run project check_fn = record {
  project = project;
  check_fn = check_fn;
  wall_clock_budget = 120 * 1000;
  solver_timeout_ms = 30000;
  dump_smt2 = false;
  dump_smt_directory = none;
  smt_persist_directory = none;
  extra_args = [];
}

unfoldable pub with_wall_clock : ℕ → HalmosRun → HalmosRun
with_wall_clock budget run = record run { wall_clock_budget = budget }

unfoldable pub with_dump_smt2 : Bool → HalmosRun → HalmosRun
with_dump_smt2 enabled run = record run { dump_smt2 = enabled }

unfoldable pub with_smt_persist_directory : FilePath → HalmosRun → HalmosRun
with_smt_persist_directory dir run = record run {
  smt_persist_directory = some dir;
  dump_smt2 = true;
}
