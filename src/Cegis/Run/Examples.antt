-- ===== src/Cegis/Run/Examples.antt =====
-- A run of the CEGIS loop at concrete inputs (crates/vergil-core/src/cegis.rs).
use vergil.Prelude.{
  Option, ℕ, ◌+◌, ◌*◌, ◌/◌, ◌≤◌, ◌≡◌, refl, String, true, none, some, [], ◌∷◌, Result, ok, err,
  length, any, leb, ltb, ◌==◌, if◌then◌else◌, str_eq, to_string, All, ◌↔◌,
}
use vergil.Prelude.Floats.{Floats}
use vergil.Synthesis.{SpecCandidate, user_intent}
use vergil.Critique.{CritiqueResult, accept, filter_accepted, critique_reply}
use vergil.Cegis.{
  CegisRun, CegisConfig, Request, Outside, VerifierVerdict, verified, counterexample, spec_bug,
  diagnose_reply,
}
use vergil.Cegis.Round.{round}
use vergil.Cegis.Round.Gated.{AllGated}
use vergil.Cegis.Round.Counted.{Consistent}
use vergil.Cegis.Run.{run_with_description, outcome_is_verified, last_counterexample}
use vergil.Cegis.Run.Decided.{accounted}
use vergil.Cegis.Run.Laws.{run_with_description-Consistent, run_with_description-verified_iff}
use vergil.Cegis.Round.Watched.{Watched, watched, given}
use vergil.Cegis.Run.Watched.{run_with_description-Gated}

-- Amounts in hundredths.
abbrev hundredths : Floats ℕ
hundredths = record {
  of_nat = λ n. n * 100;
  add = λ a b. a + b;
  mul = λ a b. a * b / 100;
  div = λ a b. a * 100 / b;
  lt = ltb;
  ge = λ a b. leb b a;
  cents = to_string;
}

abbrev spec : String → SpecCandidate
spec name = record {
  name = name;
  halmos = "function check_x() public {}";
  smtchecker = "";
  template_ref = none;
  intent_satisfied = true;
  source = user_intent;
  intent_text = none;
}

abbrev scored : ℕ → CritiqueResult ℕ
scored n = record {
  verdict = accept;
  scores = record {
    vacuity = n;
    body_independence = 90;
    testability = 90;
    restate_the_source = 90;
  };
  rationale = "";
}

-- The critic rejects a vacuous candidate and fails on another.
abbrev answer_critic : String → Result String (CritiqueResult ℕ)
answer_critic name =
    if str_eq name "check_a"
    then ok (scored 80)
    else if str_eq name "check_b"
    then ok (scored 10)
    else err "timeout"

-- The outside counts the synthesizer's calls: the second call's candidate is verified.
abbrev answer : ℕ → VerifierVerdict
answer w = if w == 1 then counterexample "amount=0" else verified "halmos" none

abbrev outside : Outside ℕ ℕ
outside = record {
  synthesize = λ req w. (
    ok (record {
      candidates = spec "check_a" ∷ spec "check_b" ∷ spec "check_c" ∷ [];
      samples =
          record {
            index = 0;
            temperature = 0;
            tokens_in = 1000;
            tokens_out = 500;
            latency_ms = 7;
            candidate_count = 3;
          }
          ∷ [];
      parse_failures = [];
    }),
    w + 1,
  );
  ask_critic = λ c intent description w. (answer_critic c.name, w);
  mutation_gate = some (λ c w. (60, w));
  dispatcher = λ c w. (answer w, w);
  ask_diagnosis = λ intent source cex w.
      (ok (record { class = spec_bug; rationale = "too strong"; fix_hint = none }), w);
  repair_code = λ intent c source cex w. (err "no plan", w);
  refine_spec = λ intent c source cex w. (
    ok (record {
      name = "check_a";
      halmos = "function check_a() public {}";
      smtchecker = "";
      delta = "";
    }),
    w,
  );
  record_event = λ e w. w;
  elapsed_ms = λ before after. 5;
}

abbrev config : CegisConfig ℕ
config = record {
  max_iterations = 3;
  cost_budget_usd = 20000;
  cost_per_mtok_in_usd = 1500;
  cost_per_mtok_out_usd = 7500;
  min_axis = 50;
  mutation_min = 40;
}

abbrev request : Request
request = record {
  intent = "supply is constant";
  description = none;
  contract_source = "contract C {}";
}

abbrev run_end : {W : Type 0} → W → Option (Result String (CegisRun ℕ × W)) → CegisRun ℕ × W
run_end w (some (ok r)) = r
run_end w _ = (
  record {
    iterations = [];
    outcomes = [];
    total_cost_usd = 0;
    stop_reason = none;
    repaired_code = none;
    refined_specs = [];
    final_diagnosis = none;
  },
  w,
)

abbrev finished : CegisRun ℕ × ℕ
finished = run_end 0 (run_with_description hundredths outside config request 0)

run_finished :
    run_with_description hundredths outside config request 0 ≡ some (ok (finished.0, finished.1))
unfolding run_with_description round filter_accepted critique_reply last_counterexample
    diagnose_reply
run_finished = refl

two_rounds : (length finished.0.iterations ≡ 2) × (finished.0.stop_reason ≡ some "verified")
unfolding run_with_description round filter_accepted critique_reply last_counterexample
    diagnose_reply
two_rounds = (refl, refl)

abbrev watched_end : CegisRun ℕ × Watched ℕ
watched_end =
    run_end (0, []) (run_with_description hundredths (watched outside) config request (0, []))

watched_finished :
    run_with_description hundredths (watched outside) config request (0, [])
    ≡ some (ok (watched_end.0, (watched_end.1.0, watched_end.1.1)))
unfolding run_with_description round filter_accepted critique_reply last_counterexample
    diagnose_reply
watched_finished = refl

run_with_description-Gated_example :
    AllGated hundredths (watched outside) config request watched_end.0
    × (watched_end.1.1 ≡ given hundredths outside config watched_end.0.outcomes)
run_with_description-Gated_example =
    run_with_description-Gated hundredths outside config request 0 watched_end.0 watched_end.1.0
      watched_end.1.1 watched_finished

run_with_description-Consistent_example :
    (length finished.0.iterations ≤ 3)
    × All Consistent finished.0.iterations
    × (accounted finished.0.iterations ≡ length finished.0.outcomes)
run_with_description-Consistent_example =
    run_with_description-Consistent hundredths outside config request 0 finished.0 finished.1
      run_finished

run_with_description-verified_iff_example :
    ((why : String) × (finished.0.stop_reason ≡ some why))
    × ((finished.0.stop_reason ≡ some "verified")
        ↔ (any outcome_is_verified finished.0.outcomes ≡ true))
run_with_description-verified_iff_example =
    run_with_description-verified_iff hundredths outside config request 0 finished.0 finished.1
      run_finished
