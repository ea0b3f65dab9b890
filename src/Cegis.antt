-- ===== src/Cegis.antt =====
-- The state and data of the CEGIS loop (crates/vergil-core/src/cegis.rs, diagnosis.rs,
-- refinement.rs and telemetry.rs). `F` is the type of `f64`; `W` is the state of everything
-- outside the loop: the providers, the verifiers, the clock and the telemetry sink.
pub mod Round
pub mod Run
use vergil.Prelude.{
  ℕ, ◌+◌, ◌≡◌, String, Bool, true, false, Option, none, some, List, [], ◌∷◌, Result, ok, err, ◌<>◌,
}
use vergil.Synthesis.{SpecCandidate, SampleStat, SynthesisReport}
use vergil.Critique.{CritiqueResult}

pub data DiagnosisClass : Type 0 where
  code_bug spec_bug ambiguous : DiagnosisClass

pub record Diagnosis : Type 0 where
  pub class : DiagnosisClass
  pub rationale : String
  pub fix_hint : Option String

pub record CodePatch : Type 0 where
  pub file : String
  pub before : String
  pub after : String
  pub rationale : String

pub record CodeRepairPlan : Type 0 where
  pub patches : List CodePatch
  pub summary : String

pub record RefinedSpec : Type 0 where
  pub name : String
  pub halmos : String
  pub smtchecker : String
  pub delta : String

pub data VerifierVerdict : Type 0 where
  not_run : VerifierVerdict
  verified : (backend : String) (smt_query_sha256 : Option String) → VerifierVerdict
  counterexample : (message : String) → VerifierVerdict
  unknown : (detail : String) → VerifierVerdict
  error : (detail : String) → VerifierVerdict

pub record CandidateOutcome (F : Type 0) : Type 0 where
  pub candidate : SpecCandidate
  pub critique : Option (CritiqueResult F)
  pub mutation_coverage : Option F
  pub manifest_warnings : List String
  pub verifier_verdict : VerifierVerdict

pub record IterationStats : Type 0 where
  pub iteration : ℕ
  pub synthesized : ℕ
  pub dropped_critique : ℕ
  pub dropped_mutation : ℕ
  pub dropped_manifest : ℕ
  pub dispatched : ℕ
  pub verified : ℕ
  pub counterexamples : ℕ
  pub tokens_in : ℕ
  pub tokens_out : ℕ
  pub wall_clock_ms : ℕ
  pub diagnosis : Option DiagnosisClass

pub record CegisRun (F : Type 0) : Type 0 where
  pub iterations : List IterationStats
  pub outcomes : List (CandidateOutcome F)
  pub total_cost_usd : F
  pub stop_reason : Option String
  pub repaired_code : Option CodeRepairPlan
  pub refined_specs : List RefinedSpec
  pub final_diagnosis : Option Diagnosis

-- The configuration, with the critic's minimum and the loop's `mutation_min`.
pub record CegisConfig (F : Type 0) : Type 0 where
  pub max_iterations : ℕ
  pub cost_budget_usd : F
  pub cost_per_mtok_in_usd : F
  pub cost_per_mtok_out_usd : F
  pub min_axis : F
  pub mutation_min : F

-- The arguments of `run_with_description` that the loop itself reads; the static analysis, the
-- retrieved hints, the methods and the scaffold only reach the synthesizer, the same each time.
pub record Request : Type 0 where
  pub intent : String
  pub description : Option String
  pub contract_source : String

-- The events that the loop records, by their kind and fields.
pub data Event (F : Type 0) : Type 0 where
  synth_sample : (iteration : ℕ) (sample : SampleStat F) → Event F
  critique_summary : (iteration kept dropped : ℕ) → Event F
  mutation_summary : (iteration kept dropped : ℕ) (mutation_min : F) → Event F
  dispatch_summary : (iteration dispatched verified counterexamples : ℕ) → Event F
  cost : (iteration tokens_in tokens_out : ℕ) (usd_estimate : F) (wall_clock_ms : ℕ) → Event F
  run_complete :
      (iteration iterations outcomes verified : ℕ) (stop_reason : String) (cost_usd : F)
      (wall_clock_ms : ℕ)
      → Event F

-- What the loop calls, each call with the state of the outside before and after it. A failed call
-- is its error as text.
pub record Outside (F W : Type 0) : Type 0 where
  pub synthesize : Request → W → Result String (SynthesisReport F) × W
  -- One critique call: its parsed reply, or the text of its failure.
  pub ask_critic : SpecCandidate → String → Option String → W → Result String (CritiqueResult F) × W
  pub mutation_gate : Option (SpecCandidate → W → F × W)
  pub dispatcher : SpecCandidate → W → VerifierVerdict × W
  -- The diagnosis call on the intent, the spec's source and the counterexample.
  pub ask_diagnosis : String → String → String → W → Result String Diagnosis × W
  pub repair_code : String → SpecCandidate → String → String → W → Result String CodeRepairPlan × W
  pub refine_spec : String → SpecCandidate → String → String → W → Result String RefinedSpec × W
  pub record_event : Event F → W → W
  -- Milliseconds between two states.
  pub elapsed_ms : W → W → ℕ

ambiguous_with : String → Diagnosis
ambiguous_with reason = record {
  class = ambiguous;
  rationale = "diagnose failed, defaulting Ambiguous: " <> reason;
  fix_hint = none;
}

-- The end of `diagnose`: a reply that parses is the diagnosis, a failure is Ambiguous.
unfoldable pub diagnose_reply : Result String Diagnosis → Diagnosis
unfolding ambiguous_with
diagnose_reply (ok d) = d
diagnose_reply (err e) = ambiguous_with e

abbrev pub is_verified : VerifierVerdict → Bool
is_verified (verified b d) = true
is_verified _ = false

abbrev pub is_counterexample : VerifierVerdict → Bool
is_counterexample (counterexample m) = true
is_counterexample _ = false
