-- ===== src/Proof.antt =====
-- Proof artifacts (crates/vergil-proof/src/schema.rs): the data of `proof.json` and its structural
-- validation. `F` is the type of the floating-point numbers, which the code only carries along.
pub mod Host
pub mod Verify
pub mod Prove
use Prim.Native.String.{len}
use vergil.Prelude.{
  ℕ, String, Bool, Option, List, [], ◌∷◌, Result, ok, err, to_string, ◌<>◌, ◌==◌, if◌then◌else◌,
  not,
}

pub data Tier : Type 0 where
  zero_config intent : Tier

pub data Source : Type 0 where
  user_intent attack_catalog conformance tests nat_spec structural : Source

pub record RunMeta : Type 0 where
  pub run_id : String
  pub intent : String
  pub project_root : String
  pub started_at : String

pub record ToolchainVersions : Type 0 where
  pub solc : String
  pub halmos : String
  pub slither : String
  pub z3 : String
  pub cvc5 : String
  pub gambit : Option String

pub record SourceFile : Type 0 where
  pub path : String
  pub sha256 : String

pub record ManifestValidationStatus : Type 0 where
  pub storage_ok : Bool
  pub modifiers_ok : Bool
  pub external_calls_ok : Bool
  pub warnings : List String

pub record VerifiedProperty : Type 0 where
  pub name : String
  pub backend : String
  pub spec_sha256 : String
  pub template_ref : Option String
  pub wall_clock_ms : ℕ
  pub smt_query_sha256 : Option String
  pub manifest_validation : ManifestValidationStatus
  pub tier : Tier
  pub source : Source

pub record CounterexampleSummary : Type 0 where
  pub property : String
  pub backend : String
  pub cex_file : String
  pub wall_clock_ms : ℕ
  pub trace_summary : String

pub record QualityMetrics (F : Type 0) : Type 0 where
  pub mutation_coverage_min : Option F
  pub critique_pass_rate : F
  pub mutation_testing_enabled : Bool

pub record Cost (F : Type 0) : Type 0 where
  pub tokens_in : ℕ
  pub tokens_out : ℕ
  pub usd_estimate : F
  pub wall_clock_ms : ℕ

pub record ProofArtifact (F : Type 0) : Type 0 where
  pub vergil_version : String
  pub schema_version : ℕ
  pub run : RunMeta
  pub toolchain : ToolchainVersions
  pub source_files : List SourceFile
  pub verified_properties : List VerifiedProperty
  pub counterexamples : List CounterexampleSummary
  pub quality_metrics : QualityMetrics F
  pub cost : Cost F

abbrev pub schema_version_current : ℕ
schema_version_current = 1

check_hashes : List SourceFile → Result String (Unit {0})
check_hashes [] = ok tt
check_hashes (f ∷ fs) =
    let rest = check_hashes fs in
    if len f.sha256 == 64
    then rest
    else err ("source_files[" <> f.path <> "].sha256 must be 64 hex chars")

check_files : List SourceFile → Result String (Unit {0})
unfolding check_hashes
check_files [] = err "source_files must not be empty"
check_files (f ∷ fs) = check_hashes (f ∷ fs)

unfoldable pub validate : {F : Type 0} → ProofArtifact F → Result String (Unit {0})
unfolding check_files
validate a =
    if a.schema_version == schema_version_current
    then check_files a.source_files
    else err (
        "schema_version mismatch: got "
        <> to_string a.schema_version
        <> ", expected "
        <> to_string schema_version_current)
