-- ===== src/Portfolio/Examples.antt =====
-- Runs of the portfolio at concrete inputs (crates/vergil-core/src/portfolio.rs).
use vergil.Prelude.{
  String, ◌≡◌, ◌↔◌, ◌⊎◌, refl, inr, ℕ, ◌≤◌, true, false, none, some, List, [], ◌∷◌, ok, err, arith,
}
use vergil.Solidity.Halmos.{HalmosResult}
use vergil.Solidity.SmtChecker.{SmtCheckerResult}
use vergil.Portfolio.{
  halmos, smt_checker, BackendState, BackendOutcome, Verdict, PortfolioConfig, PortfolioResult,
  halmos_to_outcome, smt_to_outcome, try_definitive, halmos_task, with_smt_capture,
}
use vergil.Portfolio.Race.{Backends, Poll, dispatch, race, select, run_polls, is_running, conclude}
use vergil.Portfolio.Race.Verdicts
use vergil.Portfolio.Race.Verdicts.{halmos_yield, smt_yield, both_outcomes}
use vergil.Portfolio.Race.Waiting
use vergil.Portfolio.Race.Waiting.{full_polls}

abbrev cfg : PortfolioConfig
cfg = record {
  project = "token" ∷ [];
  property = "check_supply";
  smtchecker_source = "token" ∷ "src" ∷ "Token.sol" ∷ [];
  budget = 60000;
  capture_smt_queries = true;
  smt_persist_dir = none;
}

-- Halmos proves the property, SMTChecker cannot decide it.
abbrev proved : Backends
proved = record {
  run_halmos = λ run. ok (HalmosResult.verified run.check_fn 4 812 (some "q"));
  run_smt = λ run. ok (SmtCheckerResult.unknown "nonlinear" 90);
}

-- Both backends fail.
abbrev broken : Backends
broken = record {
  run_halmos = λ run. err "cancelled";
  run_smt = λ run. ok (SmtCheckerResult.error "no solc");
}

abbrev both : Poll
both = record { halmos_ready = true; smt_ready = true }

abbrev smt_only : Poll
smt_only = record { halmos_ready = false; smt_ready = true }

abbrev neither : Poll
neither = record { halmos_ready = false; smt_ready = false }

abbrev proved_result : PortfolioResult
proved_result = record {
  property = "check_supply";
  verdict = Verdict.verified halmos 812 (some "q");
}

-- SMTChecker answers first, with no verdict; Halmos then wins.
dispatch_late : dispatch cfg proved (neither ∷ smt_only ∷ both ∷ []) ≡ some proved_result
unfolding dispatch race select run_polls is_running conclude halmos_to_outcome smt_to_outcome
    try_definitive halmos_task
dispatch_late = refl

dispatch_at_once : dispatch cfg proved (both ∷ []) ≡ some proved_result
unfolding dispatch race select run_polls is_running conclude halmos_to_outcome smt_to_outcome
    try_definitive halmos_task
dispatch_at_once = refl

abbrev broken_result : PortfolioResult
broken_result = record {
  property = "check_supply";
  verdict = conclude (race cfg broken (both ∷ both ∷ []));
}

broken_run : dispatch cfg broken (both ∷ both ∷ []) ≡ some broken_result
unfolding dispatch race select run_polls is_running halmos_to_outcome smt_to_outcome try_definitive
broken_run = refl

dispatch-Reported_example :
    (Verdicts.Reported cfg proved proved_result.verdict) × (proved_result.property ≡ "check_supply")
dispatch-Reported_example =
    Verdicts.dispatch-Reported cfg proved (neither ∷ smt_only ∷ both ∷ []) dispatch_late

dispatch-verified_example :
    (halmos ≡ halmos)
      × ((p : String) × (paths : ℕ) × (halmos_yield cfg proved
            ≡ ok (HalmosResult.verified p paths 812 (some "q"))))
    ⊎ (halmos ≡ smt_checker)
      × ((count : ℕ) × (smt_yield cfg proved ≡ ok (SmtCheckerResult.verified count 812 (some "q"))))
dispatch-verified_example =
    Verdicts.dispatch-verified cfg proved (neither ∷ smt_only ∷ both ∷ []) dispatch_late refl

smt_open : try_definitive "check_supply" (smt_to_outcome (smt_yield cfg proved)) ≡ none
unfolding try_definitive smt_to_outcome
smt_open = refl

dispatch_order_free_example : proved_result ≡ proved_result
dispatch_order_free_example =
    Verdicts.dispatch_order_free cfg proved (neither ∷ smt_only ∷ both ∷ []) (both ∷ [])
      (inr smt_open) dispatch_late dispatch_at_once

dispatch-error_iff_example :
    ((os : List BackendOutcome) × (broken_result.verdict ≡ Verdict.error os)) ↔ (
      ((halmos_to_outcome (halmos_yield cfg broken)).state ≡ BackendState.error)
      × ((smt_to_outcome (smt_yield cfg broken)).state ≡ BackendState.error))
dispatch-error_iff_example = Verdicts.dispatch-error_iff cfg broken (both ∷ both ∷ []) broken_run

dispatch-Accounted_example : Waiting.Accounted cfg proved (race cfg proved (both ∷ []))
dispatch-Accounted_example = Waiting.dispatch-Accounted cfg proved (both ∷ []) dispatch_at_once

two_full : 2 ≤ full_polls (both ∷ both ∷ [])
unfolding full_polls
two_full = omega arith

dispatch_total_example :
    (res : PortfolioResult) × (dispatch cfg broken (both ∷ both ∷ []) ≡ some res)
dispatch_total_example = Waiting.dispatch_total cfg broken (both ∷ both ∷ []) two_full

-- The capturing configuration makes Halmos dump its queries and keep them under the project.
persists :
    (halmos_task (with_smt_capture cfg)).smt_persist_directory
    ≡ some ("token" ∷ "vergil-out" ∷ "smt" ∷ [])
unfolding halmos_task with_smt_capture
persists = refl
