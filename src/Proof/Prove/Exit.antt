-- ===== src/Proof/Prove/Exit.antt =====
-- The exit code of `vergil prove` (crates/vergil-cli/src/commands/prove.rs).
use vergil.Prelude.{
  ℕ, ◌+◌, ◌≤◌, ◌≡◌, ◌↔◌, refl, String, Option, none, List, [], ◌∷◌, ok, ◌>>=◌, inl, inr, All, arith,
  Result-cases,
}
use vergil.Prelude.Chars.{Text}
use vergil.Solidity.Halmos.{FilePath}
use vergil.Solidity.Solver.{Solver}
use vergil.Proof.{ProofArtifact, VerifiedProperty}
use vergil.Proof.Host.{Host, Bytes}
use vergil.Proof.Verify.{ProveReport, verify_artifact}
use vergil.Proof.Prove.{
  RedispatchOutcome, reverified, mismatch, missing, no_hash_recorded, solver_error, hash_mismatch,
  redispatch, redispatch_all, Tally, no_tally, count, tally, run_with_solver, resolve_solver_choice,
  verdict_of,
}

-- The outcomes that are no soundness signal.
abbrev pub IsTolerated : RedispatchOutcome → Type 0
IsTolerated (mismatch detail) = ⊥
IsTolerated (hash_mismatch recorded actual) = ⊥
IsTolerated _ = Unit

abbrev signals : Tally → ℕ
signals t = t.mismatched + t.tampered

signals-count-le : (t : Tally) (o : RedispatchOutcome) → signals t ≤ signals (count t o)
unfolding count
signals-count-le t o = ground arith

signals-tally-le :
    (t : Tally) (os : List (String × RedispatchOutcome)) → signals t ≤ signals (tally t os)
unfolding tally
signals-tally-le t [] = omega arith
signals-tally-le t ((name, o) ∷ os) =
    omega (arith, signals-count-le t o, signals-tally-le (count t o) os)

count_unchanged : (t : Tally) (o : RedispatchOutcome) → IsTolerated o → count t o ≡ t
unfolding count
count_unchanged t reverified h = refl
count_unchanged t (mismatch detail) h = absurd h
count_unchanged t missing h = refl
count_unchanged t no_hash_recorded h = refl
count_unchanged t (solver_error e) h = refl
count_unchanged t (hash_mismatch recorded actual) h = absurd h

IsTolerated-count :
    (t : Tally) (o : RedispatchOutcome) → signals (count t o) ≤ signals t → IsTolerated o
unfolding count
IsTolerated-count t reverified h = tt
IsTolerated-count t (mismatch detail) h = absurd (omega arith)
IsTolerated-count t missing h = tt
IsTolerated-count t no_hash_recorded h = tt
IsTolerated-count t (solver_error e) h = tt
IsTolerated-count t (hash_mismatch recorded actual) h = absurd (omega arith)

verdict_of-ok : (t : Tally) → verdict_of t ≡ ok tt → signals t ≤ 0
unfolding verdict_of
verdict_of-ok t h = ground arith

ok-verdict_of : (t : Tally) → signals t ≤ 0 → verdict_of t ≡ ok tt
unfolding verdict_of
ok-verdict_of t h = ground arith

module _ {F : Type 0} (host : Host F) (root : FilePath) (solver : Solver) where
  -- No recorded property gives a soundness signal.
  abbrev pub AllTolerated : List VerifiedProperty → Type 0
  AllTolerated = All (λ p. IsTolerated (redispatch host root solver p.smt_query_sha256))

  AllTolerated-tally :
      (t : Tally) (ps : List VerifiedProperty)
      → signals (tally t (redispatch_all host root solver ps)) ≤ signals t
      → AllTolerated ps
  unfolding redispatch_all tally
  AllTolerated-tally t [] h = tt
  AllTolerated-tally t (p ∷ ps) h =
      let o = redispatch host root solver p.smt_query_sha256 in
      let low = signals-count-le t o in
      let rest = signals-tally-le (count t o) (redispatch_all host root solver ps) in
      (
        IsTolerated-count t o (omega (arith, low, rest)),
        AllTolerated-tally (count t o) ps (omega (arith, low, rest)),
      )

  tally_unchanged :
      (t : Tally) (ps : List VerifiedProperty)
      → AllTolerated ps
      → tally t (redispatch_all host root solver ps) ≡ t
  unfolding redispatch_all tally
  tally_unchanged t [] h = refl
  tally_unchanged t (p ∷ ps) (hp, hps) =
      rw (count_unchanged t (redispatch host root solver p.smt_query_sha256) hp, tally)
        (tally_unchanged t ps hps)

module _ {F : Type 0} (host : Host F) where
  open host use {read, parse_artifact}

  -- What a successful run has established.
  abbrev pub Passes : FilePath → Option Text → Type 0
  Passes artifact override =
      (report : ProveReport) × (bytes : Bytes) × (a : ProofArtifact F) × (solver : Solver)
      × (verify_artifact host artifact none ≡ ok report)
      × (read artifact ≡ ok bytes)
      × (parse_artifact bytes ≡ ok a)
      × (resolve_solver_choice override ≡ ok solver)
      × AllTolerated host (a.run.project_root ∷ []) solver a.verified_properties

  passes :
      (artifact : FilePath) (override : Option Text)
      → run_with_solver host artifact override ≡ ok tt
      → Passes artifact override
  unfolding run_with_solver
  passes artifact override h = elim (Result-cases (verify_artifact host artifact none)) [
    | inr (e, v) ↦ absurd (ground arith)
    | inl (report, v) ↦ elim (Result-cases (read artifact)) [
      | inr (e, r) ↦ absurd (ground arith)
      | inl (bytes, r) ↦ elim (Result-cases (parse_artifact bytes)) [
        | inr (e, p) ↦ absurd (ground arith)
        | inl (a, p) ↦ elim (Result-cases (resolve_solver_choice override)) [
          | inr (e, s) ↦ absurd (ground arith)
          | inl (solver, s) ↦
              let t =
                tally no_tally
                  (redispatch_all host (a.run.project_root ∷ []) solver a.verified_properties) in
              let o : verdict_of t ≡ ok tt = ground arith in
              (
                report,
                bytes,
                a,
                solver,
                v,
                r,
                p,
                s,
                AllTolerated-tally host (a.run.project_root ∷ []) solver no_tally
                    a.verified_properties (verdict_of-ok t o),
              )
        ]
      ]
    ]
  ]

  -- `vergil prove` exits with 0 exactly when the digest recheck succeeds, the artifact can be read
  -- again, the solver's name is known, and the re-dispatch of no recorded property gives a
  -- disagreeing solver or a tampered query file. Missing files and failing solvers do not count.
  pub run_with_solver_iff :
      (artifact : FilePath) (override : Option Text)
      → (run_with_solver host artifact override ≡ ok tt) ↔ Passes artifact override
  unfolding run_with_solver
  run_with_solver_iff artifact override = (
    passes artifact override,
    λ q.
        let clean = ok-verdict_of no_tally (omega arith) in
        let all_clear =
          tally_unchanged host (q.2.run.project_root ∷ []) q.3 no_tally q.2.verified_properties
            q.8 in
        rw (q.4, ◌>>=◌) (rw (q.5, ◌>>=◌) (rw (q.6, ◌>>=◌) (rw (q.7, ◌>>=◌) (rw all_clear clean)))),
  )
