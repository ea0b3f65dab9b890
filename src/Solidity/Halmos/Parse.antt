-- ===== src/Solidity/Halmos/Parse.antt =====
-- `parse`: the typed result of a Halmos output (crates/vergil-solidity/src/halmos.rs).
use vergil.Prelude.{ℕ, String, Bool, true, false, Option, none, some, [], if◌then◌else◌, ◌<>◌}
use vergil.Prelude.Chars.{Text, codes, trim}
use vergil.Prelude.Decimal.{of_codes}
use vergil.Solidity.Halmos.{
  HalmosResult, verified, counterexample, unknown, timeout, error, build, runtime,
}
use vergil.Solidity.Halmos.Lines.{
  strip_ansi, find_status_line, parse_build_error, extract_property, extract_paths,
  extract_total_time_ms, extract_warning, extract_error_message,
}
use vergil.Solidity.Halmos.Inputs.{extract_counterexample_inputs}
pub mod Laws

or_else : {A : Type 0} → Option A → A → A
or_else none d = d
or_else (some a) d = a

is_found : Option Text → Bool
is_found none = false
is_found (some _) = true

-- The status lines after PASS, in the order in which they are looked for.
settle_failed : (property : String) (wall_clock_ms : ℕ) → Text → HalmosResult
unfolding or_else is_found
settle_failed property wall_clock_ms text =
    if is_found (find_status_line text (codes "TIMEOUT"))
    then timeout property wall_clock_ms
    else if is_found (find_status_line text (codes "UNKNOWN"))
    then unknown property
        (of_codes (or_else (extract_warning text) (codes "solver returned unknown"))) wall_clock_ms
    else if is_found (find_status_line text (codes "FAIL"))
    then counterexample
        record {
          property = property;
          inputs = extract_counterexample_inputs text;
          storage_writes = [];
        }
        wall_clock_ms
    else if is_found (find_status_line text (codes "ERROR"))
    then error runtime (of_codes (or_else (extract_error_message text) text))
    else error runtime ("unrecognized halmos output:\n" <> of_codes (trim text))

settle_built : (property : String) (wall_clock_ms : ℕ) → Text → Option Text → HalmosResult
unfolding or_else settle_failed
settle_built property wall_clock_ms text (some pass) =
    verified property (or_else (extract_paths pass) 0) wall_clock_ms none
settle_built property wall_clock_ms text none = settle_failed property wall_clock_ms text

settle : (millis : Text → Option ℕ) → Text → Option Text → HalmosResult
unfolding or_else settle_built
settle millis text (some message) = error build (of_codes message)
settle millis text none =
    settle_built (of_codes (or_else (extract_property text) (codes "<unknown>")))
      (or_else (extract_total_time_ms millis text) 0) text (find_status_line text (codes "PASS"))

unfoldable pub parse : (millis : Text → Option ℕ) → Text → HalmosResult
unfolding settle
parse millis raw = let text = strip_ansi raw in settle millis text (parse_build_error text)
