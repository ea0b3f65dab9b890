-- ===== src/Proof/Verify.antt =====
-- Re-verification of an artifact against the file system (crates/vergil-proof/src/verify.rs).
pub mod Laws
use vergil.Prelude.{
  ℕ, zero, suc, ◌+◌, ◌≡◌, ◌≢◌, ◌↔◌, ◌++◌, refl, ap, sym, ◌∙◌, String, Bool, true, false, Option,
  none, some, List, [], ◌∷◌, Result, ok, err, ◌>>=◌, map_err, length, All, str_eq, str_eq_iff,
  str_eq_refl, if◌then◌else◌, arith, Bool-cases, Result-cases, inl, inr,
}
use vergil.Solidity.Halmos.{FilePath, join}
use vergil.Proof.{ProofArtifact, SourceFile, validate}
use vergil.Proof.Host.{Host, Bytes}

pub data ProveError : Type 0 where
  io : FilePath → String → ProveError
  parse : FilePath → String → ProveError
  schema : String → ProveError
  -- path, expected, actual
  source_sha_mismatch : String → String → String → ProveError

pub record ProveReport : Type 0 where
  pub artifact_path : FilePath
  pub source_files_rehashed : ℕ
  pub verified_properties : ℕ
  pub re_dispatch_attempted : ℕ

abbrev pub root_of : Option FilePath → String → FilePath
root_of (some p) recorded = p
root_of none recorded = recorded ∷ []

module _ {F : Type 0} (host : Host F) where
  open host use {read, sha256_hex, parse_artifact}

  -- One round of the loop over `source_files`.
  check_digest : SourceFile → String → Result ProveError (Unit {0})
  check_digest f actual =
      if str_eq actual f.sha256 then ok tt else err (source_sha_mismatch f.path f.sha256 actual)

  rehash_one : FilePath → SourceFile → Result ProveError (Unit {0})
  unfolding check_digest
  rehash_one root f = do
    body ← map_err (io (join root f.path)) (read (join root f.path))
    check_digest f (sha256_hex body)

  rehash : FilePath → List SourceFile → ℕ → Result ProveError ℕ
  rehash root [] rehashed = ok rehashed
  rehash root (f ∷ fs) rehashed = do _ ← rehash_one root f; rehash root fs (rehashed + 1)

  pub load : FilePath → Result ProveError (ProofArtifact F)
  load artifact_path = do
    bytes ← map_err (io artifact_path) (read artifact_path)
    map_err (parse artifact_path) (parse_artifact bytes)

  unfoldable pub verify_artifact : FilePath → Option FilePath → Result ProveError ProveReport
  unfolding rehash rehash_one load
  verify_artifact artifact_path project_root_override = do
    artifact ← load artifact_path
    _ ← map_err schema (validate artifact)
    rehashed ←
        rehash (root_of project_root_override artifact.run.project_root) artifact.source_files 0
    ok (record {
      artifact_path = artifact_path;
      source_files_rehashed = rehashed;
      verified_properties = length artifact.verified_properties;
      re_dispatch_attempted = 0;
    })
