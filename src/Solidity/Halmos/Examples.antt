-- ===== src/Solidity/Halmos/Examples.antt =====
-- Tests of the Halmos wrapper.
use vergil.Prelude.{ok, if◌then◌else◌, ℕ, ◌≡◌, refl, ◌⊎◌, true, Option, none, some, [], ◌∷◌, ◌++◌}
use vergil.Prelude.Chars
use vergil.Prelude.Decimal
use vergil.Prelude.Maps
use vergil.Solidity.Halmos.Lines
use vergil.Solidity.Halmos.Inputs
use vergil.Prelude.Chars.{Text, codes}
use vergil.Solidity.Halmos.{HalmosRun, verified, counterexample, halmos_run}
use vergil.Solidity.Halmos.Lines.{strip_ansi, says_build_failed}
use vergil.Solidity.Halmos.Inputs.{recover_logical_name}
use vergil.Solidity.Halmos.Parse.{parse}
use vergil.Solidity.Halmos.Parse.Laws.{kind_of, build_error, first_tag, parse-kind_of}
use vergil.Solidity.Halmos.Run.{Halmos, output, run}
use vergil.Solidity.SmtDump.{file, cons, nil}
use vergil.Solidity.Halmos.Run.Laws.{IsBacked, IsQuiet, run-IsBacked}

-- A number of seconds with two decimals is not read here.
abbrev no_time : Text → Option ℕ
no_time _ = some 120

abbrev passed : Text
passed =
    codes
      "Running 1 test\n[PASS] check_sum(uint256) (paths: 4, time: 0.12s)\nSymbolic test result: 1 passed; time: 0.12s\n"

abbrev mixed : Text
mixed = codes "[FAIL] check_a() (paths: 1)\n[PASS] check_ab() (paths: 2, time: 0.1s)\n"

abbrev failed : Text
failed =
    codes
      "Counterexample:\n    p_amount_in_uint256_ab12_00 = 0x05\n[FAIL] check_sum(uint256) (paths: 4)\n"

parses_passed : parse no_time passed ≡ verified "check_sum(uint256)" 4 120 none
unfolding parse strip_ansi Lines.find_status_line Lines.tagged says_build_failed
    Lines.parse_build_error Lines.extract_property Lines.extract_paths Lines.extract_total_time_ms
    Chars.lines Chars.contains Chars.starts_with Chars.strip_prefix Chars.split_first Chars.trim
    Chars.trim_start Chars.is_whitespace Chars.eqb Decimal.parse_u32 Decimal.of_codes
    Maps.Ordering-cases
parses_passed = refl

-- One test that passes hides another that fails.
parses_mixed : parse no_time mixed ≡ verified "check_a()" 2 0 none
unfolding parse strip_ansi Lines.find_status_line Lines.tagged says_build_failed
    Lines.parse_build_error Lines.extract_property Lines.extract_paths Lines.extract_total_time_ms
    Chars.lines Chars.contains Chars.starts_with Chars.strip_prefix Chars.split_first Chars.trim
    Chars.trim_start Chars.is_whitespace Chars.eqb Decimal.parse_u32 Decimal.of_codes
    Maps.Ordering-cases
parses_mixed = refl

parses_failed :
    parse no_time failed
    ≡ counterexample
        record {
          property = "check_sum(uint256)";
          inputs = record { name = "amount_in"; hex_value = "0x05" } ∷ [];
          storage_writes = [];
        }
        0
unfolding parse strip_ansi Lines.find_status_line Lines.tagged says_build_failed
    Lines.parse_build_error Lines.extract_property Lines.extract_paths Lines.extract_total_time_ms
    Chars.lines Chars.contains Chars.starts_with Chars.strip_prefix Chars.split_first Chars.trim
    Chars.trim_start Chars.is_whitespace Chars.eqb Decimal.parse_u32 Decimal.of_codes
    Maps.Ordering-cases Inputs.extract_counterexample_inputs Inputs.parse_cex_line
    recover_logical_name
parses_failed = refl

plain_text : strip_ansi (27 ∷ codes "[32mok" ++ (27 ∷ codes "[0m")) ≡ codes "ok"
unfolding strip_ansi
plain_text = refl

parse-kind_of_example :
    kind_of (parse no_time mixed)
    ≡ (if says_build_failed (strip_ansi mixed) then build_error else first_tag (strip_ansi mixed))
parse-kind_of_example = parse-kind_of no_time mixed

abbrev cfg : HalmosRun
cfg = halmos_run ("p" ∷ []) "check_sum"

abbrev outside : Halmos
outside = record {
  has_foundry_toml = true;
  dump = some (cons (file (codes "q.smt2") (ok (codes "x"))) nil);
  kept = [];
  keep = record { create_dir_all = ok tt; write_error = λ name. none };
  process = λ _. output passed [];
}

run-IsBacked_example :
    IsBacked no_time
      (λ _. "ab")
      (λ _. "p")
      cfg
      outside
      (run no_time (λ _. "ab") (λ _. "p") cfg outside).0
    ⊎ IsQuiet no_time
        (λ _. "ab")
        (λ _. "p")
        outside
        (run no_time (λ _. "ab") (λ _. "p") cfg outside)
run-IsBacked_example = run-IsBacked no_time (λ _. "ab") (λ _. "p") cfg outside
