-- ===== src/Proof/Prove/Examples.antt =====
-- Concrete artifacts and runs of `vergil prove` (crates/vergil-cli/src/commands/prove.rs,
-- crates/vergil-proof/src/verify.rs, crates/vergil-solidity/src/solver.rs).
use vergil.Prelude.{
  List, ℕ, ◌≡◌, ◌↔◌, ◌≢◌, refl, String, true, false, Option, none, some, [], ◌∷◌, ok, err, ◌<>◌,
  inl, arith, str_eq_iff,
}
use vergil.Prelude.Chars.{codes, lines}
use vergil.Solidity.Halmos.{FilePath}
use vergil.Solidity.Solver.{cvc5, unsat, exited, parse_verdict}
use vergil.Solidity.Solver.Laws
use vergil.Solidity.SmtDump.{
  Bytes, Nodes, Entry, Files, KeepDirectory, file, dir, nil, cons, collect, sort, read_all, frame,
  hash_smt_dump, persist_smt_files,
}
use vergil.Solidity.SmtDump.Laws as DumpLaws
use vergil.Proof.{ProofArtifact, SourceFile, VerifiedProperty, intent, user_intent, validate}
use vergil.Proof.Host.{Host}
use vergil.Proof.Verify.{ProveReport, source_sha_mismatch, verify_artifact}
use vergil.Proof.Verify.Laws as VerifyLaws
use vergil.Proof.Prove.{reverified, redispatch, run_with_solver}
use vergil.Proof.Prove.Laws as ProveLaws
use vergil.Proof.Prove.Exit

-- A digest with 64 characters that tells texts apart by their first byte only.
abbrev zeros : String
zeros = "000000000000000000000000000000000000000000000000000000000000000"

abbrev digest : Bytes → String
digest [] = zeros <> "0"
digest (b ∷ bs) = zeros <> "1"

abbrev supply : VerifiedProperty
supply = record {
  name = "check_supply";
  backend = "halmos";
  spec_sha256 = "s";
  template_ref = none;
  wall_clock_ms = 812;
  smt_query_sha256 = some (zeros <> "1");
  manifest_validation = record {
    storage_ok = true;
    modifiers_ok = true;
    external_calls_ok = true;
    warnings = [];
  };
  tier = intent;
  source = user_intent;
}

abbrev token_file : SourceFile
token_file = record { path = "src/Token.sol"; sha256 = zeros <> "1" }

abbrev artifact : ProofArtifact ℕ
artifact = record {
  vergil_version = "1.5";
  schema_version = 1;
  run = record { run_id = "r"; intent = "i"; project_root = "/p"; started_at = "t" };
  toolchain = record {
    solc = "8";
    halmos = "0";
    slither = "0";
    z3 = "4";
    cvc5 = "1";
    gambit = none;
  };
  source_files = token_file ∷ [];
  verified_properties = supply ∷ [];
  counterexamples = [];
  quality_metrics = record {
    mutation_coverage_min = none;
    critique_pass_rate = 1;
    mutation_testing_enabled = false;
  };
  cost = record { tokens_in = 0; tokens_out = 0; usd_estimate = 0; wall_clock_ms = 0 };
}

-- Every file holds one byte, and the solver answers `unsat`.
abbrev honest : Host ℕ
honest = record {
  read = λ path. ok (7 ∷ []);
  read_text = λ path. ok (codes "(check-sat)");
  is_file = λ path. true;
  sha256_hex = digest;
  parse_artifact = λ bytes. ok artifact;
  process = λ solver query. exited (codes "unsat\n") [];
  build_runtime = ok tt;
}

-- The source file is empty now, and so is every other.
abbrev changed : Host ℕ
changed = record honest { read = λ path. ok [] }

abbrev path : FilePath
path = "proof.json" ∷ []

abbrev full_report : ProveReport
full_report = record {
  artifact_path = path;
  source_files_rehashed = 1;
  verified_properties = 1;
  re_dispatch_attempted = 0;
}

artifact_valid : validate artifact ≡ ok tt
unfolding validate
artifact_valid = refl

verify_artifact_iff_example :
    (verify_artifact honest path none ≡ ok full_report)
    ↔ VerifyLaws.Reverifies honest path none full_report
verify_artifact_iff_example = VerifyLaws.verify_artifact_iff honest path none full_report

verified : verify_artifact honest path none ≡ ok full_report
verified =
    verify_artifact_iff_example.1
      (7 ∷ [], artifact, refl, refl, artifact_valid, ((7 ∷ [], refl, refl), tt), refl)

digests_differ : digest [] ≢ token_file.sha256
digests_differ h = ground (arith, str_eq_iff (digest []) token_file.sha256)

verify_artifact-mismatch_example :
    verify_artifact changed path none
    ≡ err (source_sha_mismatch "src/Token.sol" (zeros <> "1") (zeros <> "0"))
verify_artifact-mismatch_example =
    VerifyLaws.verify_artifact-mismatch changed path none [] artifact [] token_file [] [] refl refl
      artifact_valid refl tt refl digests_differ

abbrev root : FilePath
root = "/p" ∷ []

redispatch-reverified_iff_example :
    (redispatch honest root cvc5 (some (zeros <> "1")) ≡ reverified) ↔ (
      (sha : String) × (◌≡◌ {A = Option String} (some (zeros <> "1")) (some sha))
      × ProveLaws.IsUnsatOnDisk honest root cvc5 sha)
redispatch-reverified_iff_example =
    ProveLaws.redispatch-reverified_iff honest root cvc5 (some (zeros <> "1"))

run_with_solver_iff_example :
    (run_with_solver honest path none ≡ ok tt) ↔ Exit.Passes honest path none
run_with_solver_iff_example = Exit.run_with_solver_iff honest path none

parse_verdict-unsat_iff_example :
    (parse_verdict (codes "cvc5") (codes "; info\nunsat\n") [] ≡ ok unsat)
    ↔ Laws.FoundUnsat (lines (codes "; info\nunsat\n"))
parse_verdict-unsat_iff_example =
    Laws.parse_verdict-unsat_iff (codes "cvc5") (codes "; info\nunsat\n") []

-- One dumped query beside the solver's answer to it.
abbrev dump : Nodes
dump =
    cons
      (dir (codes "check_x") (
        cons (file (codes "0.smt2") (ok (codes "(assert true)")))
          (cons (file (codes "0.smt2.out") (ok (codes "sat"))) nil)))
      nil

abbrev keep : KeepDirectory
keep = record { create_dir_all = ok tt; write_error = λ name. none }

collected : collect [] dump ≡ ok ((codes "check_x/0.smt2", ok (codes "(assert true)")) ∷ [])
unfolding collect
collected = refl

dump_hashed : hash_smt_dump digest dump ≡ ok (some (zeros <> "1"))
unfolding hash_smt_dump collect sort read_all frame
dump_hashed = refl

abbrev copies : Files
copies = ((zeros <> "1") <> ".smt2", codes "(assert true)") ∷ []

dump_kept : persist_smt_files digest keep dump [] ≡ (ok 1, copies)
unfolding persist_smt_files collect
dump_kept = refl

-- An unreadable file leaves no digest.
unreadable : hash_smt_dump digest (cons (file (codes "0.smt2") (err "denied")) nil) ≡ err "denied"
unfolding hash_smt_dump collect sort read_all
unreadable = refl

kept-hash_smt_dump_example :
    (es : List Entry) × (DumpLaws.read_dump digest dump ≡ ok es)
    × (digest (frame es) ≡ digest (codes "(assert true)"))
    × (frame es ≢ codes "(assert true)")
kept-hash_smt_dump_example =
    DumpLaws.kept-hash_smt_dump digest keep dump copies 1 (codes "(assert true)") dump_hashed
      dump_kept (inl refl)
