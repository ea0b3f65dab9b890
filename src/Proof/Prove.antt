-- ===== src/Proof/Prove.antt =====
-- `vergil prove` (crates/vergil-cli/src/commands/prove.rs): the digest recheck and the re-dispatch
-- of every recorded query to an alternate solver. `Err(n)` is the process's exit code; what the
-- command prints is left out.
pub mod Laws
pub mod Exit
pub mod Examples
use vergil.Prelude.{
  ℕ, ◌+◌, ◌<◌, String, Bool, true, false, Option, none, some, List, [], ◌∷◌, ◌++◌, Result, ok, err,
  ◌>>=◌, map_err, ◌⊎◌, inl, inr, ◌*◌, str_eq, if◌then◌else◌, ltb, ◌||◌, ◌<>◌,
}
use vergil.Prelude.Chars.{Text, codes}
use vergil.Solidity.Halmos.{FilePath, join}
use vergil.Solidity.Solver.{
  Solver, cvc5, from_name, SolverVerdict, unsat, sat, unknown, SolverError, not_installed,
  non_zero_exit, timeout, unparseable, spawn, dispatch, solver_text,
}
use vergil.Proof.{ProofArtifact, VerifiedProperty}
use vergil.Proof.Host.{Host, Bytes}
use vergil.Proof.Verify.{ProveError, io, parse, schema, source_sha_mismatch, verify_artifact}

-- What a rendered detail of `SolverError` tells: the solver's error, the one of the runtime, or the path
-- that could not be hashed with the I/O error.
pub data RedispatchFailure : Type 0 where
  of_solver : SolverError → RedispatchFailure
  of_runtime : (error : Text) → RedispatchFailure
  of_hash : (path : FilePath) (error : String) → RedispatchFailure

-- What re-dispatching one query gives. `solver_error` carries the failure itself, of the solver or
-- of what precedes it, where the source carries its rendering.
pub data RedispatchOutcome : Type 0 where
  reverified : RedispatchOutcome
  mismatch : Text → RedispatchOutcome
  missing no_hash_recorded : RedispatchOutcome
  solver_error : RedispatchFailure → RedispatchOutcome
  -- recorded, actual
  hash_mismatch : String → String → RedispatchOutcome

-- `smt_path_for` of crates/vergil-solidity/src/solver.rs
unfoldable pub smt_path_for : FilePath → String → FilePath
smt_path_for project_root sha = join (join (join project_root "vergil-out") "smt") (sha <> ".smt2")

pub resolve_solver_choice : Option Text → Result (Unit {0}) Solver
resolve_solver_choice none = ok cvc5
resolve_solver_choice (some name) = elim (from_name name) [ none ↦ err tt | some s ↦ ok s ]

outcome_of : Result SolverError SolverVerdict → RedispatchOutcome
outcome_of (ok unsat) = reverified
outcome_of (ok sat) = mismatch (codes "alternate solver returned `sat` (counterexample exists)")
outcome_of (ok (unknown reason)) =
    mismatch (codes "alternate solver returned `unknown`: " ++ reason)
outcome_of (err e) = solver_error (of_solver e)

-- The exit code of a failed recheck.
exit_code : ProveError → ℕ
exit_code (source_sha_mismatch path expected actual) = 1
exit_code (schema m) = 1
exit_code _ = 3

pub record Tally : Type 0 where
  pub mismatched : ℕ
  pub tampered : ℕ

abbrev no_tally : Tally
no_tally = record { mismatched = 0; tampered = 0 }

count : Tally → RedispatchOutcome → Tally
count t (mismatch detail) = record t { mismatched = t.mismatched + 1 }
count t (hash_mismatch recorded actual) = record t { tampered = t.tampered + 1 }
count t _ = t

tally : Tally → List (String × RedispatchOutcome) → Tally
unfolding count
tally t [] = t
tally t ((name, o) ∷ os) = tally (count t o) os

verdict_of : Tally → Result ℕ (Unit {0})
verdict_of t = if ltb 0 t.mismatched || ltb 0 t.tampered then err 1 else ok tt

or_infrastructure : {E A : Type 0} → Result E A → Result ℕ A
or_infrastructure = map_err (λ e. 3)

module _ {F : Type 0} (host : Host F) where
  open host use {read, read_text, is_file, sha256_hex, parse_artifact, process, build_runtime}

  -- `dispatch_file` of crates/vergil-solidity/src/solver.rs
  dispatch_file : FilePath → Solver → ℕ → Result SolverError SolverVerdict
  dispatch_file path solver budget = do
    query ← map_err (spawn (solver_text solver)) (read_text path)
    dispatch process solver query budget

  dispatch_one : FilePath → Solver → RedispatchOutcome
  dispatch_one path solver = elim build_runtime [
    | err e ↦ solver_error (of_runtime e)
    | ok rt ↦ outcome_of (dispatch_file path solver (60 * 1000))
  ]

  -- The recheck of the file's own digest before the dispatch.
  dispatch_checked : FilePath → String → Solver → Result String Bytes → RedispatchOutcome
  dispatch_checked path sha solver (err e) = solver_error (of_hash path e)
  dispatch_checked path sha solver (ok bytes) =
      if str_eq (sha256_hex bytes) sha
      then dispatch_one path solver
      else hash_mismatch sha (sha256_hex bytes)

  pub redispatch : FilePath → Solver → Option String → RedispatchOutcome
  redispatch project_root solver none = no_hash_recorded
  redispatch project_root solver (some sha) =
      if is_file (smt_path_for project_root sha)
      then dispatch_checked (smt_path_for project_root sha) sha solver
          (read (smt_path_for project_root sha))
      else missing

  pub redispatch_all : FilePath → Solver → List VerifiedProperty → List (String × RedispatchOutcome)
  redispatch_all project_root solver [] = []
  redispatch_all project_root solver (p ∷ ps) =
      (p.name, redispatch project_root solver p.smt_query_sha256)
      ∷ redispatch_all project_root solver ps

  pub run_with_solver : FilePath → Option Text → Result ℕ (Unit {0})
  unfolding or_infrastructure
  run_with_solver artifact solver_override = do
    base_report ← map_err exit_code (verify_artifact host artifact none)
    bytes ← or_infrastructure (read artifact)
    parsed ← or_infrastructure (parse_artifact bytes)
    chosen ← or_infrastructure (resolve_solver_choice solver_override)
    verdict_of (
        tally no_tally
          (redispatch_all (parsed.run.project_root ∷ []) chosen parsed.verified_properties))
