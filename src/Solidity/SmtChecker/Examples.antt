-- ===== src/Solidity/SmtChecker/Examples.antt =====
-- Tests of the SMTChecker wrapper.
use vergil.Prelude.{String, ◌≡◌, refl, ◌&&◌, none, List, [], ◌∷◌, any, all, Result, ok}
use vergil.Prelude.Chars
use vergil.Prelude.Decimal
use vergil.Prelude.Maps
use vergil.Prelude.Chars.{Text, codes, to_ascii_lowercase}
use vergil.Solidity.SmtChecker.{verified, violation, overflow}
use vergil.Solidity.SmtChecker.Parse
use vergil.Solidity.SmtChecker.Parse.{SolcDiagnostic, is_chc_message, parse_standard_json}
use vergil.Solidity.SmtChecker.Parse.Laws.{
  is_verified, allows_proof, parse_standard_json-is_verified,
}

abbrev info : String → SolcDiagnostic
info message = record { severity = codes "info"; message = codes message }

abbrev diagnostics : Text → List SolcDiagnostic → Text → Result String (List SolcDiagnostic)
diagnostics _ ds _ = ok ds

abbrev proved : List SolcDiagnostic
proved =
    info "CHC: 12 verification condition(s) proved safe!"
    ∷ info "CHC: Assertion violation check is safe!"
    ∷ []

abbrev overflowing : List SolcDiagnostic
overflowing =
    info "CHC: Assertion violation check is safe!" ∷ info "CHC: Overflow happens here." ∷ []

-- A failure of the model checker that is in none of the known words.
abbrev broken : List SolcDiagnostic
broken = info "CHC: Error trying to invoke SMT solver." ∷ []

parses_proved :
    parse_standard_json to_ascii_lowercase (diagnostics [] proved) [] ≡ verified 12 0 none
unfolding parse_standard_json is_chc_message Parse.is_safe Parse.violates Parse.mentions_violation
    Parse.is_undecided Parse.parse_count_from_message Parse.classify_property to_ascii_lowercase
    Chars.contains Chars.starts_with Chars.strip_prefix Chars.split_first Chars.trim_start
    Chars.is_whitespace Chars.eqb Decimal.parse_u32 Decimal.of_codes Maps.Ordering-cases
parses_proved = refl

parses_overflowing :
    parse_standard_json to_ascii_lowercase (diagnostics [] overflowing) []
    ≡ violation overflow "CHC: Overflow happens here." 0
unfolding parse_standard_json is_chc_message Parse.is_safe Parse.violates Parse.mentions_violation
    Parse.is_undecided Parse.parse_count_from_message Parse.classify_property to_ascii_lowercase
    Chars.contains Chars.starts_with Chars.strip_prefix Chars.split_first Chars.trim_start
    Chars.is_whitespace Chars.eqb Decimal.parse_u32 Decimal.of_codes Maps.Ordering-cases
parses_overflowing = refl

parses_broken :
    parse_standard_json to_ascii_lowercase (diagnostics [] broken) [] ≡ verified 0 0 none
unfolding parse_standard_json is_chc_message Parse.is_safe Parse.violates Parse.mentions_violation
    Parse.is_undecided Parse.parse_count_from_message Parse.classify_property to_ascii_lowercase
    Chars.contains Chars.starts_with Chars.strip_prefix Chars.split_first Chars.trim_start
    Chars.is_whitespace Chars.eqb Decimal.parse_u32 Decimal.of_codes Maps.Ordering-cases
parses_broken = refl

parse_standard_json-is_verified_example :
    is_verified (parse_standard_json to_ascii_lowercase (diagnostics [] broken) [])
    ≡ (all allows_proof broken && any (λ d. is_chc_message d.message) broken)
parse_standard_json-is_verified_example =
    parse_standard_json-is_verified to_ascii_lowercase (diagnostics [] broken) [] broken refl
