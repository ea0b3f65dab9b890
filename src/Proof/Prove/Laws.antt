-- ===== src/Proof/Prove/Laws.antt =====
-- When `vergil prove` succeeds, and what a re-verified property rests on
-- (crates/vergil-cli/src/commands/prove.rs).
use vergil.Prelude.{
  ◌*◌, ◌≡◌, ◌↔◌, refl, String, true, Option, none, some, Result, ok, err, inl, inr, str_eq_iff,
  arith, Result-cases, Bool-cases,
}
use vergil.Prelude.Chars.{Text}
use vergil.Solidity.Halmos.{FilePath}
use vergil.Solidity.Solver.{Solver, unsat, sat, unknown, SolverError, SolverVerdict, dispatch}
use vergil.Proof.Host.{Host, Bytes}
use vergil.Proof.Prove.{
  reverified, smt_path_for, redispatch, outcome_of, dispatch_file, dispatch_one, dispatch_checked,
}

outcome-reverified :
    (r : Result SolverError SolverVerdict) → outcome_of r ≡ reverified → r ≡ ok unsat
unfolding outcome_of
outcome-reverified (ok unsat) h = refl
outcome-reverified (ok sat) h = absurd (cc)
outcome-reverified (ok (unknown reason)) h = absurd (cc)
outcome-reverified (err e) h = absurd (cc)

module _ {F : Type 0} (host : Host F) where
  open host use {read, read_text, is_file, sha256_hex, parse_artifact, process, build_runtime}

  -- The query `sha` is on disk with that digest, and the solver answers UNSAT on it.
  abbrev pub IsUnsatOnDisk : FilePath → Solver → String → Type 0
  IsUnsatOnDisk root solver sha =
      (bytes : Bytes) × (query : Text) × (is_file (smt_path_for root sha) ≡ true)
      × (read (smt_path_for root sha) ≡ ok bytes)
      × (sha256_hex bytes ≡ sha)
      × (build_runtime ≡ ok tt)
      × (read_text (smt_path_for root sha) ≡ ok query)
      × (dispatch process solver query (60 * 1000) ≡ ok unsat)

  dispatch_one-reverified :
      (path : FilePath) (solver : Solver)
      → dispatch_one host path solver ≡ reverified
      → (query : Text) × (build_runtime ≡ ok tt)
        × (read_text path ≡ ok query)
        × (dispatch process solver query (60 * 1000) ≡ ok unsat)
  unfolding dispatch_one dispatch_file
  dispatch_one-reverified path solver h = elim (Result-cases build_runtime) [
    | inr (e, b) ↦ absurd (ground arith)
    | inl (u, b) ↦
        let o : outcome_of (dispatch_file host path solver (60 * 1000)) ≡ reverified =
          ground arith in
        let r = outcome-reverified (dispatch_file host path solver (60 * 1000)) o in
        elim (Result-cases (read_text path)) [
          | inr (e, t) ↦ absurd (ground (arith, r))
          | inl (q, t) ↦ (q, b, t, ground (arith, r))
        ]
  ]

  dispatch_checked-reverified :
      (root : FilePath) (sha : String) (solver : Solver) (r : Result String Bytes)
      → dispatch_checked host root sha solver r ≡ reverified
      → (bytes : Bytes) × (r ≡ ok bytes)
        × (sha256_hex bytes ≡ sha)
        × (dispatch_one host root solver ≡ reverified)
  unfolding dispatch_checked
  dispatch_checked-reverified path sha solver (err e) h = absurd (cc)
  dispatch_checked-reverified path sha solver (ok bytes) h =
      (bytes, refl, ground (arith, str_eq_iff (sha256_hex bytes) sha), ground arith)

  redispatch-reverified :
      (root : FilePath) (solver : Solver) (recorded : Option String)
      → redispatch host root solver recorded ≡ reverified
      → (sha : String) × (recorded ≡ some sha) × IsUnsatOnDisk root solver sha
  unfolding redispatch
  redispatch-reverified root solver none h = absurd (cc)
  redispatch-reverified root solver (some sha) h =
      elim (Bool-cases (is_file (smt_path_for root sha))) [
        | inr f ↦ absurd (ground arith)
        | inl f ↦
            let c =
              dispatch_checked-reverified (smt_path_for root sha) sha solver
                (read (smt_path_for root sha)) (ground arith) in
            let d = dispatch_one-reverified (smt_path_for root sha) solver c.3 in
            (sha, refl, (c.0, d.0, f, c.1, c.2, d.1, d.2, d.3))
      ]

  reverified-redispatch :
      (root : FilePath) (solver : Solver) (sha : String)
      → IsUnsatOnDisk root solver sha
      → redispatch host root solver (some sha) ≡ reverified
  unfolding redispatch dispatch_checked dispatch_one dispatch_file outcome_of
  reverified-redispatch root solver sha (bytes, query, f, r, d, b, t, v) =
      ground (arith, str_eq_iff (sha256_hex bytes) sha)

  -- A property counts as re-verified exactly when its artifact entry records a digest, the query
  -- file of that name exists with content of that very digest, and the chosen solver's output on
  -- that file is UNSAT.
  pub redispatch-reverified_iff :
      (root : FilePath) (solver : Solver) (recorded : Option String)
      → (redispatch host root solver recorded ≡ reverified)
        ↔ ((sha : String) × (recorded ≡ some sha) × IsUnsatOnDisk root solver sha)
  redispatch-reverified_iff root solver recorded = (
    redispatch-reverified root solver recorded,
    λ p. rw p.1 (reverified-redispatch root solver p.0 p.2),
  )
