-- ===== src/Solidity/SmtChecker/Parse.antt =====
-- The classification of solc's diagnostics (crates/vergil-solidity/src/smtchecker.rs). The JSON parser
-- and Unicode lower case are parameters.
use vergil.Prelude.{
  ℕ, zero, suc, max, String, Bool, not, ◌&&◌, ◌||◌, Option, none, some, List, [], ◌∷◌,
  if◌then◌else◌, find, ◌<>◌, Result, ok, err,
}
use vergil.Prelude.Chars.{Text, codes, eqb, contains, split_first, trim_start, is_whitespace}
use vergil.Prelude.Decimal.{parse_u32, of_codes}
use vergil.Solidity.SmtChecker.{
  PropertyKind, assertion, overflow, underflow, division_by_zero, out_of_bounds, other,
  SmtCheckerResult, verified, violation, unknown, error,
}
pub mod Laws

pub record SolcDiagnostic : Type 0 where
  pub severity : Text
  pub message : Text

unfoldable pub is_chc_message : Text → Bool
is_chc_message message = contains (codes "CHC:") message || contains (codes "BMC:") message

unfoldable pub mentions_violation : Text → Bool
mentions_violation message =
    contains (codes "happens here") message
    || contains (codes "violated") message
    || contains (codes "Assertion violation") message

-- The three tests of the second pass, in their order.
unfoldable pub is_safe : Text → Bool
is_safe message = contains (codes "check is safe") message || contains (codes "proved safe") message

unfoldable pub violates : Text → Bool
violates message = contains (codes "Counterexample") message || mentions_violation message

unfoldable pub is_undecided : Text → Bool
is_undecided message =
    contains (codes "could not be proved") message
    || contains (codes "could not prove") message
    || contains (codes "unknown") message

first_token : Text → Text
first_token [] = []
first_token (c ∷ s) = let rest = first_token s in if is_whitespace c then [] else c ∷ rest

unfoldable pub parse_count_from_message : Text → Option ℕ
unfolding first_token
parse_count_from_message message = elim (split_first (codes "CHC:") message) [
  | none ↦ none
  | some (_, after) ↦
      let token = first_token (trim_start after) in if eqb token [] then none else parse_u32 token
]

at_least : ℕ → Option ℕ → ℕ
at_least aggregated none = aggregated
at_least aggregated (some n) = max aggregated n

-- The counts of the third pass: the largest total, the single checks, and the messages of the model
-- checker. The last two are 32-bit counters of messages, far below their bound.
tally : List SolcDiagnostic → ℕ × ℕ × ℕ
unfolding at_least
tally [] = (0, 0, 0)
tally (d ∷ ds) =
    let (aggregated, individual, chc) = tally ds in
    if is_chc_message d.message
    then if contains (codes "proved safe") d.message
      then (at_least aggregated (parse_count_from_message d.message), individual, suc chc)
      else if contains (codes "check is safe") d.message
      then (aggregated, suc individual, suc chc)
      else (aggregated, individual, suc chc)
    else (aggregated, individual, chc)

tallied : ℕ × ℕ × ℕ → SmtCheckerResult
tallied (aggregated, individual, zero) =
    unknown "solc emitted no CHC diagnostics (model checker did not engage)" 0
tallied (aggregated, individual, suc chc) = verified (max aggregated individual) 0 none

-- An error of the compiler itself.
is_hard : SolcDiagnostic → Bool
is_hard d = eqb d.severity (codes "error") && not (is_chc_message d.message)

module _ (to_lowercase : Text → Text) where
  unfoldable pub classify_property : Text → PropertyKind
  classify_property message =
      let lower = to_lowercase message in
      if contains (codes "overflow") lower
      then overflow
      else if contains (codes "underflow") lower
      then underflow
      else if contains (codes "division by zero") lower
      then division_by_zero
      else if contains (codes "out of bounds") lower || contains (codes "index out of") lower
      then out_of_bounds
      else if contains (codes "assert") lower
      then assertion
      else other

  -- The first finding that decides, and otherwise what the tally says.
  findings : List SolcDiagnostic → (otherwise : SmtCheckerResult) → SmtCheckerResult
  findings [] otherwise = otherwise
  findings (d ∷ ds) otherwise =
      let later = findings ds otherwise in
      if not (is_chc_message d.message) || is_safe d.message
      then later
      else if violates d.message
      then violation (classify_property d.message) (of_codes d.message) 0
      else if is_undecided d.message
      then unknown (of_codes d.message) 0
      else later

  classify_all : Option SolcDiagnostic → List SolcDiagnostic → SmtCheckerResult
  unfolding findings tallied tally
  classify_all (some d) diagnostics = error (of_codes d.message)
  classify_all none diagnostics = findings diagnostics (tallied (tally diagnostics))

  classify_parsed : Result String (List SolcDiagnostic) → SmtCheckerResult
  unfolding classify_all is_hard
  classify_parsed (err e) = error ("invalid solc JSON: " <> e)
  classify_parsed (ok diagnostics) = classify_all (find is_hard diagnostics) diagnostics

  unfoldable pub parse_standard_json :
      (from_str : Text → Result String (List SolcDiagnostic)) → Text → SmtCheckerResult
  unfolding classify_parsed
  parse_standard_json from_str json = classify_parsed (from_str json)
