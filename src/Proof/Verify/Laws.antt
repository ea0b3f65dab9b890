-- ===== src/Proof/Verify/Laws.antt =====
-- When re-verification succeeds, and how a changed source file is reported
-- (crates/vergil-proof/src/verify.rs).
use vergil.Prelude.{
  ℕ, ◌+◌, ◌≡◌, ◌≢◌, ◌↔◌, ◌++◌, ap, sym, ◌∙◌, String, false, Option, List, [], ◌∷◌, Result, ok, err,
  ◌>>=◌, length, All, str_eq, str_eq_iff, arith, Result-cases, inl, inr,
}
use vergil.Solidity.Halmos.{FilePath, join}
use vergil.Proof.{ProofArtifact, SourceFile, validate}
use vergil.Proof.Host.{Host, Bytes}
use vergil.Proof.Verify.{
  ProveError, source_sha_mismatch, ProveReport, root_of, rehash, rehash_one, verify_artifact,
}

str_ne : (s t : String) → s ≢ t → str_eq s t ≡ false
str_ne s t h = ground (arith, str_eq_iff s t)

module _ {F : Type 0} (host : Host F) where
  open host use {read, sha256_hex, parse_artifact}

  -- The file is readable under `root` and its content has the recorded digest.
  abbrev pub Intact : FilePath → SourceFile → Type 0
  Intact root f =
      (body : Bytes) × (read (join root f.path) ≡ ok body) × (sha256_hex body ≡ f.sha256)

  rehash_one-Intact :
      (root : FilePath) (f : SourceFile) → rehash_one host root f ≡ ok tt → Intact root f
  unfolding rehash_one
  rehash_one-Intact root f h = elim (Result-cases (read (join root f.path))) [
    | inl (body, e) ↦ (body, e, ground (arith, str_eq_iff (sha256_hex body) f.sha256))
    | inr (m, e) ↦ absurd (ground arith)
  ]

  Intact-rehash_one :
      (root : FilePath) (f : SourceFile) → Intact root f → rehash_one host root f ≡ ok tt
  unfolding rehash_one
  Intact-rehash_one root f (body, e, d) = ground (arith, str_eq_iff (sha256_hex body) f.sha256)

  rehash-Intact :
      (root : FilePath) (fs : List SourceFile) (n : ℕ) {k : ℕ}
      → rehash host root fs n ≡ ok k
      → All (Intact root) fs × (k ≡ n + length fs)
  unfolding rehash
  rehash-Intact root [] n h = (tt, ground arith)
  rehash-Intact root (f ∷ fs) n {k = k} h = elim (Result-cases (rehash_one host root f)) [
    | inl (u, e) ↦
        let rest = rehash-Intact root fs (n + 1) {k = k} (ground arith) in
        ((rehash_one-Intact root f e, rest.0), omega (arith, rest.1))
    | inr (m, e) ↦ absurd (ground arith)
  ]

  Intact-rehash :
      (root : FilePath) (fs : List SourceFile) (n : ℕ)
      → All (Intact root) fs
      → rehash host root fs n ≡ ok (n + length fs)
  unfolding rehash
  Intact-rehash root [] n h = ap ok (omega arith)
  Intact-rehash root (f ∷ fs) n (hf, hfs) =
      rw (Intact-rehash_one root f hf) (Intact-rehash root fs (n + 1) hfs ∙ ap ok (omega arith))

  -- The conditions under which an artifact re-verifies, and the report that they give.
  abbrev pub Reverifies : FilePath → Option FilePath → ProveReport → Type 0
  Reverifies path override report =
      (bytes : Bytes) × (a : ProofArtifact F) × (read path ≡ ok bytes)
      × (parse_artifact bytes ≡ ok a)
      × (validate a ≡ ok tt)
      × All (Intact (root_of override a.run.project_root)) a.source_files
      × (report ≡ record {
        artifact_path = path;
        source_files_rehashed = length a.source_files;
        verified_properties = length a.verified_properties;
        re_dispatch_attempted = 0;
      })

  -- The digest check after a successful load and validation.
  finish : FilePath → Option FilePath → ProofArtifact F → Result ProveError ProveReport
  finish path override a = do
    rehashed ← rehash host (root_of override a.run.project_root) a.source_files 0
    ok (record {
      artifact_path = path;
      source_files_rehashed = rehashed;
      verified_properties = length a.verified_properties;
      re_dispatch_attempted = 0;
    })

  verify-eq-finish :
      (path : FilePath) (override : Option FilePath) {bytes : Bytes} {a : ProofArtifact F}
      → read path ≡ ok bytes
      → parse_artifact bytes ≡ ok a
      → validate a ≡ ok tt
      → verify_artifact host path override ≡ finish path override a
  unfolding verify_artifact finish
  verify-eq-finish path override r p v = rw (r, ◌>>=◌) (rw (p, ◌>>=◌) (rw (v, ◌>>=◌)))

  verify-loaded :
      (path : FilePath) (override : Option FilePath) {report : ProveReport}
      → verify_artifact host path override ≡ ok report
      → (bytes : Bytes) × (a : ProofArtifact F) × (read path ≡ ok bytes)
        × (parse_artifact bytes ≡ ok a)
        × (validate a ≡ ok tt)
  unfolding verify_artifact
  verify-loaded path override h = elim (Result-cases (read path)) [
    | inr (m, e) ↦ absurd (ground arith)
    | inl (bytes, r) ↦ elim (Result-cases (parse_artifact bytes)) [
      | inr (m, e) ↦ absurd (ground arith)
      | inl (a, p) ↦ elim (Result-cases (validate a)) [
        | inr (m, e) ↦ absurd (ground arith)
        | inl (u, v) ↦ (bytes, a, r, p, v)
      ]
    ]
  ]

  finish-ok :
      (path : FilePath) (override : Option FilePath) (a : ProofArtifact F)
      → All (Intact (root_of override a.run.project_root)) a.source_files
      → finish path override a
        ≡ ok (record {
          artifact_path = path;
          source_files_rehashed = length a.source_files;
          verified_properties = length a.verified_properties;
          re_dispatch_attempted = 0;
        })
  unfolding finish
  finish-ok path override a fs =
      rw (Intact-rehash (root_of override a.run.project_root) a.source_files 0 fs) (ground arith)

  ok-finish :
      (path : FilePath) (override : Option FilePath) (a : ProofArtifact F) {report : ProveReport}
      → finish path override a ≡ ok report
      → All (Intact (root_of override a.run.project_root)) a.source_files
        × (report ≡ record {
          artifact_path = path;
          source_files_rehashed = length a.source_files;
          verified_properties = length a.verified_properties;
          re_dispatch_attempted = 0;
        })
  unfolding finish
  ok-finish path override a h =
      elim (Result-cases (rehash host (root_of override a.run.project_root) a.source_files 0)) [
        | inr (m, e) ↦ absurd (ground arith)
        | inl (k, e) ↦
            let facts =
              rehash-Intact (root_of override a.run.project_root) a.source_files 0 {k = k} e in
            (facts.0, ground (arith, facts.1))
      ]

  -- Re-verification returns a report exactly when the artifact is readable, parses and validates
  -- and every source file that it lists is readable with the recorded digest; the report then
  -- counts all the files as rehashed and all the recorded properties, and no re-dispatch.
  pub verify_artifact_iff :
      (path : FilePath) (override : Option FilePath) (report : ProveReport)
      → (verify_artifact host path override ≡ ok report) ↔ Reverifies path override report
  verify_artifact_iff path override report = (
    λ h.
        let l = verify-loaded path override h in
        let g = sym (verify-eq-finish path override l.2 l.3 l.4) ∙ h in
        let d = ok-finish path override l.1 g in (l.0, l.1, l.2, l.3, l.4, d.0, d.1),
    λ r.
        verify-eq-finish path override r.2 r.3 r.4
        ∙ finish-ok path override r.1 r.5
        ∙ ap ok (sym r.6),
  )

  rehash-mismatch :
      (root : FilePath) (before : List SourceFile) (f : SourceFile) (after : List SourceFile)
      (n : ℕ) (body : Bytes)
      → All (Intact root) before
      → read (join root f.path) ≡ ok body
      → str_eq (sha256_hex body) f.sha256 ≡ false
      → rehash host root (before ++ f ∷ after) n
        ≡ err (source_sha_mismatch f.path f.sha256 (sha256_hex body))
  unfolding rehash rehash_one
  rehash-mismatch root [] f after n body _ r d = rw (r, ◌>>=◌) (rw (d, ◌>>=◌))
  rehash-mismatch root (g ∷ before) f after n body (hg, hb) r d =
      rw (Intact-rehash_one root g hg, ◌>>=◌)
        (rehash-mismatch root before f after (n + 1) body hb r d)

  -- A source file whose content no longer has the recorded digest stops the re-verification with
  -- that file's path and both digests, when the files listed before it are intact.
  pub verify_artifact-mismatch :
      (path : FilePath) (override : Option FilePath) (bytes : Bytes) (a : ProofArtifact F)
      (before : List SourceFile) (f : SourceFile) (after : List SourceFile) (body : Bytes)
      → read path ≡ ok bytes
      → parse_artifact bytes ≡ ok a
      → validate a ≡ ok tt
      → a.source_files ≡ before ++ f ∷ after
      → All (Intact (root_of override a.run.project_root)) before
      → read (join (root_of override a.run.project_root) f.path) ≡ ok body
      → sha256_hex body ≢ f.sha256
      → verify_artifact host path override
        ≡ err (source_sha_mismatch f.path f.sha256 (sha256_hex body))
  unfolding finish
  verify_artifact-mismatch path override bytes a before f after body r p v fs hb hr ne =
      verify-eq-finish path override r p v
      ∙ rw (fs, ◌>>=◌)
          (rw (
            rehash-mismatch (root_of override a.run.project_root) before f after 0 body hb hr
                (str_ne (sha256_hex body) f.sha256 ne),
            ◌>>=◌,
          ))
