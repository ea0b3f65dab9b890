-- ===== src/Report.antt =====
-- The stratified verdict (crates/vergil-cli/src/output/verdict.rs): its inputs, its headline and
-- the Markdown report. Confidences are texts, as in the source.
pub mod Sections
pub mod Laws
pub mod Examples
use vergil.Prelude.{
  ℕ, String, Bool, true, false, Option, none, some, List, [], ◌∷◌, any, if◌then◌else◌,
}
use vergil.Proof.{Source, Tier}

pub record AvailableOraclesSummary : Type 0 where
  pub tests : Bool
  pub natspec : Bool
  pub readme : Bool

pub record FingerprintSummary : Type 0 where
  pub interfaces : List String
  pub primitives : List String
  pub available_oracles : AvailableOraclesSummary

pub data PropertyVerdict : Type 0 where
  verified : (backend : String) (smt_query_sha256 : Option String) → PropertyVerdict
  refuted : (backend cex_file trace_summary : String) → PropertyVerdict
  unknown : (detail : String) (frontier_over_approximation : Option String) → PropertyVerdict
  error : (detail : String) → PropertyVerdict

pub record PropertyOutcome : Type 0 where
  pub name : String
  pub source : Source
  pub tier : Tier
  pub verdict : PropertyVerdict
  pub template_ref : Option String
  pub intent_text : Option String

pub record SkippedTemplateSummary : Type 0 where
  pub id : String
  pub reason : String

pub record PerTemplateFailureSummary : Type 0 where
  pub template_id : String
  pub reason : String

pub record DocumentOnlyTemplate : Type 0 where
  pub id : String
  pub name : String

pub record LowConfidencePrimitiveSummary : Type 0 where
  pub primitive : String
  pub confidence : String
  pub signals : String

pub record PrimitiveClassificationSummary : Type 0 where
  pub top : String
  pub top_confidence : String
  pub top_signals : String
  pub low_confidence : List LowConfidencePrimitiveSummary

pub record LowConfidenceStructuralSummary : Type 0 where
  pub miner : String
  pub description : String
  pub confidence : String
  pub fn_or_var : Option String

pub record StratifiedInputs : Type 0 where
  pub project_path : String
  pub fingerprint : FingerprintSummary
  pub properties : List PropertyOutcome
  pub skipped_templates : List SkippedTemplateSummary
  pub per_template_failures : List PerTemplateFailureSummary
  pub document_only_templates : List DocumentOnlyTemplate
  pub phase5_structural_pending : Bool
  pub low_confidence_structural : List LowConfidenceStructuralSummary
  pub primitive_classification : Option PrimitiveClassificationSummary

pub data Headline : Type 0 where
  refuted verified_in_scope incomplete : Headline

abbrev pub headline_text : Headline → String
headline_text Headline.refuted = "Refuted"
headline_text verified_in_scope = "Verified-in-scope"
headline_text incomplete = "Incomplete"

pub record VerdictOutput : Type 0 where
  pub headline : Headline
  pub inputs : StratifiedInputs

-- The tests on verdicts that the formatter makes.
abbrev pub refutes : PropertyVerdict → Bool
refutes (PropertyVerdict.refuted b c t) = true
refutes _ = false

abbrev pub verifies : PropertyVerdict → Bool
verifies (verified b d) = true
verifies _ = false

abbrev pub leaves_open : PropertyVerdict → Bool
leaves_open (unknown d f) = true
leaves_open (error d) = true
leaves_open _ = false

abbrev pub leaves_frontier : PropertyVerdict → Bool
leaves_frontier (unknown d (some a)) = true
leaves_frontier _ = false

abbrev pub leaves_per_run : PropertyVerdict → Bool
leaves_per_run (unknown d none) = true
leaves_per_run (error d) = true
leaves_per_run _ = false

abbrev pub is_refuted : PropertyOutcome → Bool
is_refuted p = refutes p.verdict

abbrev pub is_verified : PropertyOutcome → Bool
is_verified p = verifies p.verdict

abbrev pub is_unknown_or_error : PropertyOutcome → Bool
is_unknown_or_error p = leaves_open p.verdict

abbrev pub is_frontier_unknown : PropertyOutcome → Bool
is_frontier_unknown p = leaves_frontier p.verdict

abbrev pub is_per_run_unknown : PropertyOutcome → Bool
is_per_run_unknown p = leaves_per_run p.verdict

headline_of : (any_refuted any_unknown_or_error any_verified : Bool) → Headline
headline_of r u v =
    if r
    then Headline.refuted
    else if u
    then incomplete
    else if v
    then verified_in_scope
    else incomplete

unfoldable pub format_verdict : StratifiedInputs → VerdictOutput
unfolding headline_of
format_verdict inputs = record {
  headline =
      headline_of (any is_refuted inputs.properties) (any is_unknown_or_error inputs.properties)
        (any is_verified inputs.properties);
  inputs = inputs;
}
