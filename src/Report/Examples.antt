-- ===== src/Report/Examples.antt =====
-- Reports at concrete inputs (crates/vergil-cli/src/output/verdict.rs).
use vergil.Prelude.{◌≡◌, refl, false, true, none, some, List, [], ◌∷◌, any, all, length, ◌↔◌, ◌<◌}
use vergil.Proof.{intent, tests}
use vergil.Report.{
  PropertyVerdict, verified, unknown, error, PropertyOutcome, StratifiedInputs, Headline,
  verified_in_scope, incomplete, format_verdict, is_refuted, is_verified,
}
use vergil.Report.Laws.{format_verdict-headline_iff}
use vergil.Report.Sections.{scope_note}
use vergil.Report.Sections.Markdown.{report_md}
use vergil.Report.Sections.Markdown.Scope.{Contains, report_md-scope}

abbrev property : PropertyVerdict → PropertyOutcome
property v = record {
  name = "check_supply";
  source = tests;
  tier = intent;
  verdict = v;
  template_ref = none;
  intent_text = some "The supply never changes.";
}

abbrev inputs : List PropertyOutcome → StratifiedInputs
inputs ps = record {
  project_path = "/token";
  fingerprint = record {
    interfaces = "ERC20" ∷ [];
    primitives = [];
    available_oracles = record { tests = true; natspec = false; readme = false };
  };
  properties = ps;
  skipped_templates = [];
  per_template_failures = [];
  document_only_templates = [];
  phase5_structural_pending = false;
  low_confidence_structural = [];
  primitive_classification = none;
}

abbrev green : List PropertyOutcome
green =
    property (verified "halmos" (some "0123456789abcdef"))
    ∷ property (verified "smtchecker" none)
    ∷ []

abbrev mixed : List PropertyOutcome
mixed =
    property (verified "halmos" none)
    ∷ property (PropertyVerdict.refuted "halmos" "Cex.t.sol" "")
    ∷ property (unknown "timeout" none)
    ∷ property (unknown "nonlinear" (some "bounded"))
    ∷ property (error "solc")
    ∷ []

headlines :
    ((format_verdict (inputs green)).headline ≡ verified_in_scope)
    × ((format_verdict (inputs mixed)).headline ≡ Headline.refuted)
    × ((format_verdict (inputs [])).headline ≡ incomplete)
unfolding format_verdict
headlines = (refl, refl, refl)

format_verdict-headline_iff_example :
    (((format_verdict (inputs green)).headline ≡ Headline.refuted) ↔ (any is_refuted green ≡ true))
    × (((format_verdict (inputs green)).headline ≡ verified_in_scope)
        ↔ ((0 < length green) × (all is_verified green ≡ true)))
format_verdict-headline_iff_example = format_verdict-headline_iff (inputs green)

green_headline : (format_verdict (inputs green)).headline ≡ verified_in_scope
unfolding format_verdict
green_headline = refl

report_md-scope_example : Contains (report_md (format_verdict (inputs green))) scope_note
report_md-scope_example = report_md-scope (inputs green) green_headline
