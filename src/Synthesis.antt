-- ===== src/Synthesis.antt =====
-- Candidate properties (crates/vergil-core/src/synthesis.rs). `F` is the type of floats.
use vergil.Prelude.{ℕ, String, Bool, Option, List, ◌<>◌, is_empty, if◌then◌else◌}

pub data Source : Type 0 where
  user_intent attack_catalog conformance tests nat_spec structural : Source

pub record SpecCandidate : Type 0 where
  pub name : String
  pub halmos : String
  pub smtchecker : String
  pub template_ref : Option String
  pub intent_satisfied : Bool
  pub source : Source
  pub intent_text : Option String

pub record SampleStat (F : Type 0) : Type 0 where
  pub index : ℕ
  pub temperature : F
  pub tokens_in : ℕ
  pub tokens_out : ℕ
  pub latency_ms : ℕ
  pub candidate_count : ℕ

pub record SynthesisReport (F : Type 0) : Type 0 where
  pub candidates : List SpecCandidate
  pub samples : List (SampleStat F)
  pub parse_failures : List ℕ

-- `spec_source_blob` of crates/vergil-core/src/cegis.rs
unfoldable pub spec_source_blob : SpecCandidate → String
spec_source_blob spec =
    ("// Halmos check_ function\n" <> spec.halmos)
    <> (if is_empty spec.smtchecker then "" else "\n\n// SMTChecker fragment\n" <> spec.smtchecker)
