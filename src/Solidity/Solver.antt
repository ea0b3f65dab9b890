-- ===== src/Solidity/Solver.antt =====
-- Direct dispatch of SMT-LIB queries to a solver (crates/vergil-solidity/src/solver.rs). The
-- solver's process is a parameter; its output is parsed as in the source.
pub mod Laws
use vergil.Prelude.{
  ℕ, true, false, Option, none, some, List, [], ◌∷◌, ◌++◌, Result, ok, err, if◌then◌else◌,
}
use mathlib.Core.List.{reverse}
use vergil.Prelude.Chars.{
  Text, codes, eqb, lines, trim, strip_prefix, split_first, to_ascii_lowercase,
}

pub data Solver : Type 0 where
  z3 cvc5 bitwuzla : Solver

unfoldable pub solver_text : Solver → Text
solver_text z3 = codes "z3"
solver_text cvc5 = codes "cvc5"
solver_text bitwuzla = codes "bitwuzla"

named : Text → Option Solver
named s =
    if eqb s (codes "z3")
    then some z3
    else if eqb s (codes "cvc5")
    then some cvc5
    else if eqb s (codes "bitwuzla")
    then some bitwuzla
    else none

unfoldable pub from_name : Text → Option Solver
unfolding named eqb to_ascii_lowercase
from_name s = named (to_ascii_lowercase s)

unfoldable pub alternate : Solver → Solver
alternate z3 = cvc5
alternate cvc5 = z3
alternate bitwuzla = z3

pub data SolverVerdict : Type 0 where
  unsat sat : SolverVerdict
  unknown : Text → SolverVerdict

pub data SolverError : Type 0 where
  not_installed : Text → SolverError
  spawn : Text → Text → SolverError
  non_zero_exit : Text → Text → SolverError
  timeout : Text → ℕ → SolverError
  unparseable : Text → Text → SolverError

-- `trim_matches('"')`
strip_quotes : Text → Text
strip_quotes [] = []
strip_quotes (c ∷ s) = elim (eqb (c ∷ []) (codes "\"")) [ true ↦ strip_quotes s | false ↦ c ∷ s ]

unquote : Text → Text
unfolding strip_quotes
unquote s = reverse (strip_quotes (reverse (strip_quotes s)))

before_paren : Text → Text
before_paren rest = elim (split_first (codes ")") rest) [ none ↦ rest | some (a, b) ↦ a ]

unfoldable pub extract_unknown_reason : List Text → Option Text
unfolding unquote before_paren
extract_unknown_reason [] = none
extract_unknown_reason (line ∷ rest) = elim (strip_prefix (codes "(:reason-unknown ") (trim line)) [
  | some r ↦ some (unquote (trim (before_paren r)))
  | none ↦ extract_unknown_reason rest
]

or_default : Option Text → Text
or_default none = []
or_default (some s) = s

-- The line that settles the verdict; `all` is the whole output, for the reason of an `unknown`.
settle_line : List Text → Text → Option SolverVerdict
unfolding or_default
settle_line all line =
    if eqb line (codes "unsat")
    then some unsat
    else if eqb line (codes "sat")
    then some sat
    else if eqb line (codes "unknown")
    then some (unknown (or_default (extract_unknown_reason all)))
    else none

first_verdict : List Text → List Text → Option SolverVerdict
first_verdict all [] = none
first_verdict all (line ∷ rest) = elim (settle_line all (trim line)) [
  | some v ↦ some v
  | none ↦ first_verdict all rest
]

combined : Text → Text → Text
combined stdout [] = stdout
combined stdout (c ∷ stderr) =
    codes "stdout:\n" ++ (stdout ++ (codes "\nstderr:\n" ++ (c ∷ stderr)))

unfoldable pub parse_verdict : Text → Text → Text → Result SolverError SolverVerdict
unfolding first_verdict settle_line combined
parse_verdict name stdout stderr = elim (first_verdict (lines stdout) (lines stdout)) [
  | some v ↦ ok v
  | none ↦ err (unparseable name (combined stdout stderr))
]

-- How a solver's process ends: what tokio reports of it.
pub data ProcessEnd : Type 0 where
  not_found : ProcessEnd
  io_error : Text → ProcessEnd
  elapsed : ProcessEnd
  -- stdout, stderr
  exited : Text → Text → ProcessEnd

dispatch_end : Text → ℕ → ProcessEnd → Result SolverError SolverVerdict
dispatch_end binary ms not_found = err (not_installed binary)
dispatch_end binary ms (io_error e) = err (spawn binary e)
dispatch_end binary ms elapsed = err (timeout binary ms)
dispatch_end binary ms (exited stdout stderr) = parse_verdict binary stdout stderr

-- `dispatch`, over the process that it starts with the query on its standard input.
unfoldable pub dispatch :
    (Solver → Text → ProcessEnd) → Solver → Text → ℕ → Result SolverError SolverVerdict
unfolding dispatch_end
dispatch process solver query ms = dispatch_end (solver_text solver) ms (process solver query)
