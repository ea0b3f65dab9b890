-- ===== src/Solidity/SmtChecker/Run.antt =====
-- `run`: one solc subprocess (crates/vergil-solidity/src/smtchecker.rs). What the process did is
-- data; the input that is written to it is not modelled.
use vergil.Prelude.{
  ℕ, String, Bool, true, Option, none, some, List, [], ◌∷◌, ◌++◌, if◌then◌else◌, ◌<>◌, Result, ok,
  err,
}
use vergil.Prelude.Chars.{Text, codes, strip_prefix, trim_start}
use vergil.Solidity.Halmos.{FilePath}
use vergil.Solidity.SmtChecker.{
  SmtCheckerRun, SmtCheckerResult, verified, violation, unknown, error, smt_checker_run,
  with_wall_clock,
}
use vergil.Solidity.SmtChecker.Parse.{SolcDiagnostic, parse_standard_json}

-- The ends of a run that has read its source.
pub data SolcEnd : Type 0 where
  not_spawned : String → SolcEnd
  not_written : String → SolcEnd
  wait_failed : String → SolcEnd
  elapsed : SolcEnd
  output : (stdout : Text) → SolcEnd

-- What the run meets outside; the last field is the time that has passed at the end.
pub record Solc : Type 0 where
  pub source_is_file : Bool
  pub source_content : Result String Text
  pub process : SmtCheckerRun → Text → SolcEnd
  pub elapsed_ms : ℕ

unfoldable pub with_solver_timeout_ms : ℕ → SmtCheckerRun → SmtCheckerRun
with_solver_timeout_ms ms run = record run { solver_timeout_ms = ms }

unfoldable pub annotate_wall_clock : SmtCheckerResult → ℕ → SmtCheckerResult
annotate_wall_clock (verified n _ sha) ms = verified n ms sha
annotate_wall_clock (violation kind message _) ms = violation kind message ms
annotate_wall_clock (unknown reason _) ms = unknown reason ms
annotate_wall_clock (error message) ms = error message

-- The printed queries, each followed by a zero byte; none when a diagnostic has no message.
query_bodies : List (Option Text) → Option (List Text)
query_bodies [] = some []
query_bodies (none ∷ ms) = none
query_bodies (some m ∷ ms) = elim (query_bodies ms) [
  | none ↦ none
  | some bodies ↦ elim (strip_prefix (codes "CHC: Requested query:") m) [
    | none ↦ some bodies
    | some body ↦ some (trim_start body ∷ bodies)
  ]
]

framed : List Text → Text
framed [] = []
framed (b ∷ bs) = b ++ (0 ∷ framed bs)

-- `messages` is the list under `errors` of the parsed JSON.
unfoldable pub extract_query_hash :
    (sha256_hex : Text → String)
    → (messages : Text → Option (List (Option Text))) → Text
    → Option String
unfolding query_bodies framed
extract_query_hash sha256_hex messages stdout = elim (messages stdout) [
  | none ↦ none
  | some ms ↦ elim (query_bodies ms) [
    | none ↦ none
    | some [] ↦ none
    | some (b ∷ bs) ↦ some (sha256_hex (framed (b ∷ bs)))
  ]
]

with_query : (print_query : Bool) → Option String → SmtCheckerResult → SmtCheckerResult
with_query true hash (verified n ms _) = verified n ms hash
with_query _ hash parsed = parsed

module _ (to_lowercase : Text → Text) (from_str : Text → Result String (List SolcDiagnostic))
    (sha256_hex : Text → String) (messages : Text → Option (List (Option Text)))
    (display : FilePath → String) where
  settle : SmtCheckerRun → ℕ → SolcEnd → SmtCheckerResult
  unfolding with_query
  settle cfg ms (not_spawned e) = error ("failed to spawn solc: " <> e)
  settle cfg ms (not_written e) = error ("failed writing to solc stdin: " <> e)
  settle cfg ms (wait_failed e) = error ("solc wait failed: " <> e)
  settle cfg ms elapsed = unknown "wall-clock budget exceeded" ms
  settle cfg ms (output stdout) =
      with_query cfg.print_query (extract_query_hash sha256_hex messages stdout)
        (annotate_wall_clock (parse_standard_json to_lowercase from_str stdout) ms)

  read_source : SmtCheckerRun → Solc → Result String Text → SmtCheckerResult
  unfolding settle
  read_source cfg solc (err e) = error ("could not read source " <> display cfg.source <> ": " <> e)
  read_source cfg solc (ok content) = settle cfg solc.elapsed_ms (solc.process cfg content)

  unfoldable pub run : SmtCheckerRun → Solc → SmtCheckerResult
  unfolding read_source
  run cfg solc =
      if solc.source_is_file
      then read_source cfg solc solc.source_content
      else error ("source not found: " <> display cfg.source)

  unfoldable pub run_simple : FilePath → FilePath → (budget : ℕ) → Solc → SmtCheckerResult
  run_simple project source budget solc =
      run (with_wall_clock budget (smt_checker_run project source)) solc
