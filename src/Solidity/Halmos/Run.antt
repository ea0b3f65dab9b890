-- ===== src/Solidity/Halmos/Run.antt =====
-- `run` and its wrappers: one Halmos subprocess (crates/vergil-solidity/src/halmos.rs). What the
-- process did is data: its output, a failure to spawn, or the end of the budget.
use vergil.Prelude.{
  Result, ok, err, ℕ, String, Bool, true, false, Option, none, some, List, [], ◌∷◌, ◌++◌,
  if◌then◌else◌, ◌<>◌,
}
use vergil.Prelude.Chars.{Text, codes}
use vergil.Solidity.Halmos.{
  FilePath, HalmosRun, HalmosResult, verified, timeout, error, runtime, join, halmos_run,
  with_wall_clock,
}
use vergil.Solidity.Halmos.Parse.{parse}
use vergil.Solidity.SmtDump.{Bytes, Nodes, Files, KeepDirectory, hash_smt_dump, persist_smt_files}
pub mod Laws

pub data ProcessEnd : Type 0 where
  output : (stdout stderr : Text) → ProcessEnd
  not_spawned : (io_err : String) → ProcessEnd
  elapsed : ProcessEnd

-- What the run meets outside: the project file, the dump directory if one could be made, with what
-- it holds when the process has ended, the kept files, what writing them meets, and the process.
pub record Halmos : Type 0 where
  pub has_foundry_toml : Bool
  pub dump : Option Nodes
  pub kept : Files
  pub keep : KeepDirectory
  pub process : HalmosRun → ProcessEnd

unfoldable pub with_extra_arg : String → HalmosRun → HalmosRun
with_extra_arg arg run = record run { extra_args = run.extra_args ++ (arg ∷ []) }

unfoldable pub with_extra_args : List String → HalmosRun → HalmosRun
with_extra_args args run = record run { extra_args = args }

unfoldable pub with_solver_timeout_ms : ℕ → HalmosRun → HalmosRun
with_solver_timeout_ms ms run = record run { solver_timeout_ms = ms }

unfoldable pub with_dump_smt_directory : FilePath → HalmosRun → HalmosRun
with_dump_smt_directory dir run = record run { dump_smt_directory = some dir; dump_smt2 = true }

module _ (millis : Text → Option ℕ) (sha256_hex : Bytes → String)
    (display : FilePath → String) where
  -- The files that are kept, where a directory for them is set.
  persisted : HalmosRun → KeepDirectory → Nodes → Files → Files
  persisted cfg keep dump kept = elim cfg.smt_persist_directory [
    | none ↦ kept
    | some _ ↦ (persist_smt_files sha256_hex keep dump kept).1
  ]

  with_hash :
      HalmosRun
      → KeepDirectory
      → Nodes
      → HalmosResult
      → Option String
      → Files
      → HalmosResult × Files
  unfolding persisted
  with_hash cfg keep dump (verified property paths ms _) (some hash) kept =
      (verified property paths ms (some hash), persisted cfg keep dump kept)
  with_hash cfg keep dump parsed _ kept = (parsed, kept)

  -- `.ok().flatten()`: an I/O error counts as no digest.
  flattened : Result String (Option String) → Option String
  flattened (ok hash) = hash
  flattened (err e) = none

  -- The digest of the dump is computed for a verified run only.
  with_dump : HalmosRun → KeepDirectory → HalmosResult → Option Nodes → Files → HalmosResult × Files
  unfolding with_hash flattened
  with_dump cfg keep parsed none kept = (parsed, kept)
  with_dump cfg keep parsed (some dump) kept =
      with_hash cfg keep dump parsed (flattened (hash_smt_dump sha256_hex dump)) kept

  ended : HalmosRun → Halmos → ProcessEnd → HalmosResult × Files
  unfolding with_dump
  ended cfg halmos (output stdout stderr) =
      with_dump cfg halmos.keep (parse millis (stdout ++ stderr))
        (if cfg.dump_smt2 then halmos.dump else none) halmos.kept
  ended cfg halmos (not_spawned io_err) =
      (error runtime ("failed to spawn halmos: " <> io_err), halmos.kept)
  ended cfg halmos elapsed = (timeout cfg.check_fn cfg.wall_clock_budget, halmos.kept)

  started : HalmosRun → Halmos → (has_foundry_toml : Bool) → HalmosResult × Files
  unfolding ended
  started cfg halmos true = ended cfg halmos (halmos.process cfg)
  started cfg halmos false =
      (error runtime ("no foundry.toml in project dir: " <> display cfg.project), halmos.kept)

  -- The result of a run, and the kept files.
  unfoldable pub run : HalmosRun → Halmos → HalmosResult × Files
  unfolding started
  run cfg halmos = started cfg halmos halmos.has_foundry_toml

  unfoldable pub run_simple : FilePath → String → (budget : ℕ) → Halmos → HalmosResult × Files
  run_simple project check_fn budget halmos =
      run (with_wall_clock budget (halmos_run project check_fn)) halmos

  unfoldable pub run_with_args :
      FilePath → String → (budget : ℕ) → List String → Halmos → HalmosResult × Files
  run_with_args project check_fn budget extra_args halmos =
      run (with_extra_args extra_args (with_wall_clock budget (halmos_run project check_fn))) halmos
