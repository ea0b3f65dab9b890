-- ===== src/Portfolio.antt =====
-- The portfolio of verification backends (crates/vergil-core/src/portfolio.rs): what a backend
-- reports becomes a `BackendOutcome`, and an outcome may settle the verdict.
pub mod Race
pub mod Examples
use vergil.Prelude.{
  ℕ, String, Bool, true, false, Option, none, some, List, [], ◌∷◌, Result, ok, err, length,
  to_string, ◌<>◌, if◌then◌else◌,
}
use vergil.Solidity.Halmos
use vergil.Solidity.Halmos.{FilePath, join, HalmosResult, HalmosRun, stage_text}
use vergil.Solidity.SmtChecker
use vergil.Solidity.SmtChecker.{SmtCheckerResult, SmtCheckerRun}

pub data Backend : Type 0 where
  halmos smt_checker : Backend

pub data BackendState : Type 0 where
  verified counterexample unknown timeout error : BackendState

pub record BackendOutcome : Type 0 where
  pub backend : Backend
  pub state : BackendState
  pub detail : String
  pub wall_clock_ms : ℕ
  pub smt_query_sha256 : Option String

pub data Verdict : Type 0 where
  -- backend, wall_clock_ms, smt_query_sha256
  verified : Backend → ℕ → Option String → Verdict
  -- backend, property, message, wall_clock_ms
  counterexample : Backend → String → String → ℕ → Verdict
  unknown : List BackendOutcome → Verdict
  error : List BackendOutcome → Verdict

pub record PortfolioResult : Type 0 where
  pub property : String
  pub verdict : Verdict

pub record PortfolioConfig : Type 0 where
  pub project : FilePath
  pub property : String
  pub smtchecker_source : FilePath
  pub budget : ℕ
  pub capture_smt_queries : Bool
  pub smt_persist_dir : Option FilePath

unfoldable pub with_smt_capture : PortfolioConfig → PortfolioConfig
with_smt_capture cfg = record cfg {
  capture_smt_queries = true;
  smt_persist_dir = elim cfg.smt_persist_dir [
    | none ↦ some (join (join cfg.project "vergil-out") "smt")
    | some dir ↦ some dir
  ];
}

persist_in : Option FilePath → HalmosRun → HalmosRun
persist_in none run = run
persist_in (some dir) run = Halmos.with_smt_persist_directory dir run

-- The run that the Halmos task starts: `run` on a capturing configuration, or `run_simple`.
unfoldable pub halmos_task : PortfolioConfig → HalmosRun
unfolding Halmos.halmos_run Halmos.with_wall_clock Halmos.with_dump_smt2 persist_in
    Halmos.with_smt_persist_directory
halmos_task cfg =
    let run = Halmos.with_wall_clock cfg.budget (Halmos.halmos_run cfg.project cfg.property) in
    if cfg.capture_smt_queries
    then persist_in cfg.smt_persist_dir (Halmos.with_dump_smt2 true run)
    else run

-- `Path::parent`
abbrev parent : FilePath → Option FilePath
parent [] = none
parent (part ∷ []) = some []
parent (part ∷ next ∷ rest) = elim (parent (next ∷ rest)) [
  | none ↦ some (part ∷ [])
  | some front ↦ some (part ∷ front)
]

abbrev or_here : Option FilePath → FilePath
or_here none = "." ∷ []
or_here (some p) = p

-- The run that the SMTChecker task starts.
unfoldable pub smt_task : PortfolioConfig → SmtCheckerRun
unfolding SmtChecker.smt_checker_run SmtChecker.with_wall_clock SmtChecker.with_print_query
smt_task cfg =
    let run =
      SmtChecker.with_wall_clock cfg.budget (
        SmtChecker.smt_checker_run (or_here (parent cfg.smtchecker_source))
          cfg.smtchecker_source) in
    if cfg.capture_smt_queries then SmtChecker.with_print_query true run else run

-- What a spawned task yields when joined; the error is the text of tokio's `JoinError`.
abbrev pub Joined : Type 0 → Type 0
Joined A = Result String A

halmos_outcome_of : HalmosResult → BackendOutcome
halmos_outcome_of (HalmosResult.verified property paths ms sha) = record {
  backend = halmos;
  state = BackendState.verified;
  detail = "verified";
  wall_clock_ms = ms;
  smt_query_sha256 = sha;
}
halmos_outcome_of (HalmosResult.counterexample trace ms) = record {
  backend = halmos;
  state = BackendState.counterexample;
  detail = "counterexample with " <> to_string (length trace.inputs) <> " inputs";
  wall_clock_ms = ms;
  smt_query_sha256 = none;
}
halmos_outcome_of (HalmosResult.unknown property reason ms) = record {
  backend = halmos;
  state = BackendState.unknown;
  detail = reason;
  wall_clock_ms = ms;
  smt_query_sha256 = none;
}
halmos_outcome_of (HalmosResult.timeout property ms) = record {
  backend = halmos;
  state = BackendState.timeout;
  detail = "wall-clock timeout";
  wall_clock_ms = ms;
  smt_query_sha256 = none;
}
halmos_outcome_of (HalmosResult.error stage message) = record {
  backend = halmos;
  state = BackendState.error;
  detail = stage_text stage <> " error: " <> message;
  wall_clock_ms = 0;
  smt_query_sha256 = none;
}

unfoldable pub halmos_to_outcome : Joined HalmosResult → BackendOutcome
unfolding halmos_outcome_of
halmos_to_outcome (ok result) = halmos_outcome_of result
halmos_to_outcome (err e) = record {
  backend = halmos;
  state = BackendState.error;
  detail = "halmos task panic: " <> e;
  wall_clock_ms = 0;
  smt_query_sha256 = none;
}

smt_outcome_of : SmtCheckerResult → BackendOutcome
smt_outcome_of (SmtCheckerResult.verified count ms sha) = record {
  backend = smt_checker;
  state = BackendState.verified;
  detail = to_string count <> " target(s) proved safe";
  wall_clock_ms = ms;
  smt_query_sha256 = sha;
}
smt_outcome_of (SmtCheckerResult.violation kind message ms) = record {
  backend = smt_checker;
  state = BackendState.counterexample;
  detail = message;
  wall_clock_ms = ms;
  smt_query_sha256 = none;
}
smt_outcome_of (SmtCheckerResult.unknown reason ms) = record {
  backend = smt_checker;
  state = BackendState.unknown;
  detail = reason;
  wall_clock_ms = ms;
  smt_query_sha256 = none;
}
smt_outcome_of (SmtCheckerResult.error message) = record {
  backend = smt_checker;
  state = BackendState.error;
  detail = message;
  wall_clock_ms = 0;
  smt_query_sha256 = none;
}

unfoldable pub smt_to_outcome : Joined SmtCheckerResult → BackendOutcome
unfolding smt_outcome_of
smt_to_outcome (ok result) = smt_outcome_of result
smt_to_outcome (err e) = record {
  backend = smt_checker;
  state = BackendState.error;
  detail = "smtchecker task panic: " <> e;
  wall_clock_ms = 0;
  smt_query_sha256 = none;
}

definitive_at : BackendState → String → BackendOutcome → Option Verdict
definitive_at BackendState.verified property o =
    some (Verdict.verified o.backend o.wall_clock_ms o.smt_query_sha256)
definitive_at BackendState.counterexample property o =
    some (Verdict.counterexample o.backend property o.detail o.wall_clock_ms)
definitive_at _ property o = none

unfoldable pub try_definitive : String → BackendOutcome → Option Verdict
unfolding definitive_at
try_definitive property o = definitive_at o.state property o
