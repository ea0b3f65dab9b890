-- ===== src/Critique/Examples.antt =====
-- Runs of the critique filter at concrete inputs (crates/vergil-core/src/critique.rs).
use mathlib.Core.List.{zip}
use vergil.Prelude.{
  ℕ, ◌+◌, ◌≡◌, refl, true, not, none, [], ◌∷◌, leb, ltb, to_string, select, ◌*◌, ◌/◌,
}
use vergil.Prelude.Floats.{Floats}
use vergil.Synthesis.{SpecCandidate, user_intent}
use vergil.Critique.{accept, CritiqueResult, filter_accepted, filter_pairs}
use vergil.Critique.Laws

-- Scores in percent.
abbrev percent : Floats ℕ
percent = record {
  of_nat = λ n. n * 100;
  add = λ a b. a + b;
  mul = λ a b. a * b / 100;
  div = λ a b. a * 100 / b;
  lt = ltb;
  ge = λ a b. leb b a;
  cents = to_string;
}

abbrev spec : SpecCandidate
spec = record {
  name = "check_supply";
  halmos = "function check_supply() public {}";
  smtchecker = "";
  template_ref = none;
  intent_satisfied = true;
  source = user_intent;
  intent_text = none;
}

abbrev vacuous : CritiqueResult ℕ
vacuous = record {
  verdict = accept;
  scores = record {
    vacuity = 20;
    body_independence = 90;
    testability = 90;
    restate_the_source = 100;
  };
  rationale = "holds of every contract";
}

abbrev good : CritiqueResult ℕ
good = record {
  verdict = accept;
  scores = record {
    vacuity = 80;
    body_independence = 90;
    testability = 50;
    restate_the_source = 100;
  };
  rationale = "";
}

filter_run :
    (filter_accepted percent 50 (spec ∷ spec ∷ []) (vacuous ∷ good ∷ []) refl).kept
    ≡ (spec, good) ∷ []
unfolding filter_accepted filter_pairs
filter_run = refl

filter_accepted-eq-select_example :
    ((filter_accepted percent 50 (spec ∷ spec ∷ []) (vacuous ∷ good ∷ []) refl).kept
      ≡ select (λ p. Laws.accepts percent 50 p.1) (zip (spec ∷ spec ∷ []) (vacuous ∷ good ∷ [])))
    × ((filter_accepted percent 50 (spec ∷ spec ∷ []) (vacuous ∷ good ∷ []) refl).dropped
        ≡ select
            (λ p. not (Laws.accepts percent 50 p.1))
            (zip (spec ∷ spec ∷ []) (vacuous ∷ good ∷ [])))
filter_accepted-eq-select_example =
    Laws.filter_accepted-eq-select percent 50 (spec ∷ spec ∷ []) (vacuous ∷ good ∷ []) refl
