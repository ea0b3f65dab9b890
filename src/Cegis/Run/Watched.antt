-- ===== src/Cegis/Run/Watched.antt =====
-- Which candidates a whole CEGIS run gives to the critic and to the verifier
-- (crates/vergil-core/src/cegis.rs).
use vergil.Prelude.{
  ℕ, zero, suc, ◌+◌, String, ◌≡◌, refl, sym, ap, ◌∙◌, inl, inr, Option, none, some, List, [], ◌∷◌,
  ◌++◌, leb, Bool-cases, Option-cases, Result-cases, any, Result, ok, err,
}
use vergil.Prelude.Floats.{Floats}
use vergil.Synthesis.{SpecCandidate, spec_source_blob}
use vergil.Cegis.{
  CegisRun, CegisConfig, Request, Outside, DiagnosisClass, code_bug, spec_bug, ambiguous,
  CodeRepairPlan, RefinedSpec, diagnose_reply,
}
use vergil.Cegis.Round.{round}
use vergil.Cegis.Round.Gated.{AllGated}
use vergil.Cegis.Round.Watched.{Watched, watched, given, Told, round-Told}
use vergil.Cegis.Run.{
  Ending, stopped, again, diagnose_last, over_budget, check_budget, repaired, refined, route,
  diagnosed, explain, unless_verified, decide, Looped, rounds, proceed, with_report, finish,
  loop_result, default_run, run_with_description, outcome_is_verified, last_counterexample,
}
use vergil.Cegis.Run.Laws.{Ending-cases, run-AllGated}

module _ {F W : Type 0} (fl : Floats F) (out : Outside F W) (cfg : CegisConfig F) where
  -- The decision tells the verifier nothing and keeps the outcomes.
  abbrev Follows : CegisRun F → Watched W → Ending F (Watched W) → Type 0
  Follows run x (stopped done y) = (done.outcomes ≡ run.outcomes) × (y.1 ≡ x.1)
  Follows run x (again next y) = (next.outcomes ≡ run.outcomes) × (y.1 ≡ x.1)

  check_budget-Follows :
      (run : CegisRun F) (x : Watched W) → Follows run x (check_budget fl (watched out) cfg run x)
  unfolding check_budget over_budget
  check_budget-Follows run x = elim (Bool-cases (fl.ge run.total_cost_usd cfg.cost_budget_usd)) [
    | inl y ↦ rw (y, over_budget) (refl, refl)
    | inr n ↦ rw (n, over_budget) (refl, refl)
  ]

  repaired-Follows :
      (a : Result String CodeRepairPlan × Watched W) (run : CegisRun F)
      → Follows run a.1 (repaired fl (watched out) cfg a run)
  unfolding repaired
  repaired-Follows (ok plan, x) run =
      check_budget-Follows (record run { repaired_code = some plan }) x
  repaired-Follows (err e, x) run = (refl, refl)

  refined-Follows :
      (a : Result String RefinedSpec × Watched W) (run : CegisRun F)
      → Follows run a.1 (refined fl (watched out) cfg a run)
  unfolding refined
  refined-Follows (ok spec, x) run =
      check_budget-Follows (record run { refined_specs = run.refined_specs ++ spec ∷ [] }) x
  refined-Follows (err e, x) run = (refl, refl)

  route-Follows :
      (class : DiagnosisClass) (req : Request) (spec : SpecCandidate) (cex : String)
      (run : CegisRun F) (x : Watched W)
      → Follows run x (route fl (watched out) cfg class req spec cex run x)
  unfolding route
  route-Follows code_bug req spec cex run x = repaired-Follows _ run
  route-Follows spec_bug req spec cex run x = refined-Follows _ run
  route-Follows ambiguous req spec cex run x = (refl, refl)

  explain-Follows :
      (cex : Option (SpecCandidate × String)) (req : Request) (run : CegisRun F) (x : Watched W)
      → Follows run x (explain fl (watched out) cfg cex req run x)
  unfolding explain diagnosed
  explain-Follows none req run x = (refl, refl)
  explain-Follows (some (spec, cex)) req run x =
      let reply = (watched out).ask_diagnosis req.intent (spec_source_blob spec) cex x in
      route-Follows (diagnose_reply reply.0).class req spec cex
        (record run {
          iterations = diagnose_last (diagnose_reply reply.0).class run.iterations;
          final_diagnosis = some (diagnose_reply reply.0);
        })
        reply.1

  decide-Follows :
      (req : Request) (run : CegisRun F) (x : Watched W)
      → Follows run x (decide fl (watched out) cfg req run x)
  unfolding decide unless_verified
  decide-Follows req run x = elim (Bool-cases (any outcome_is_verified run.outcomes)) [
    | inl y ↦ rw (y, unless_verified) (refl, refl)
    | inr n ↦ rw (n, unless_verified) (explain-Follows (last_counterexample run.outcomes) req run x)
  ]

  abbrev Tell : Option (Result String (Looped fl (watched out) cfg)) → Type 0
  Tell none = Unit {0}
  Tell (some (err e)) = Unit {0}
  Tell (some (ok (i, run, x))) = Told fl out cfg run x

  rounds-Tell :
      (req : Request) (fuel i : ℕ) (run : CegisRun F) (x : Watched W)
      → Told fl out cfg run x
      → Tell (rounds fl (watched out) cfg req fuel i run x)
  unfolding rounds
  rounds-Tell req zero i run x h = tt
  rounds-Tell req (suc fuel) i run x h = elim (Bool-cases (leb cfg.max_iterations i)) [
    | inl full ↦ rw (Tell, rounds, full) h
    | inr more ↦ elim (Result-cases ((watched out).synthesize req x).0) [
      | inr (m, e) ↦ rw (Tell, rounds, more, e, with_report) tt
      | inl (report, e) ↦
          let x1 = ((watched out).synthesize req x).1 in
          let r = round fl (watched out) cfg req report x i run x1 in
          let told = round-Told fl out cfg req report x i run x1 h in
          let f = decide-Follows req r.run r.world in
          elim (Ending-cases (decide fl (watched out) cfg req r.run r.world)) [
            | inl (done, y, q) ↦
                let (o, l) = rw q at f in
                rw (Tell, rounds, more, e, with_report, q, proceed)
                  (l ∙ told ∙ ap (given fl out cfg) (sym o))
            | inr (next, y, q) ↦
                let (o, l) = rw q at f in
                rw (Tell, rounds, more, e, with_report, q, proceed)
                  (rounds-Tell req fuel (i + 1) next y (l ∙ told ∙ ap (given fl out cfg) (sym o)))
          ]
    ]
  ]

  abbrev TellEnd : Option (Result String (CegisRun F × Watched W)) → Type 0
  TellEnd none = Unit {0}
  TellEnd (some (err e)) = Unit {0}
  TellEnd (some (ok (run, x))) = Told fl out cfg run x

  run-Tell :
      (req : Request) (w : W) → TellEnd (run_with_description fl (watched out) cfg req (w, []))
  unfolding run_with_description default_run loop_result finish
  run-Tell req w =
      let start = default_run fl (watched out) cfg in
      let looped = rounds fl (watched out) cfg req (suc cfg.max_iterations) 0 start (w, []) in
      let told = rounds-Tell req (suc cfg.max_iterations) 0 start (w, []) refl in
      elim (Option-cases looped) [
        | inl e ↦ rw (TellEnd, run_with_description, e) tt
        | inr (result, e) ↦ elim (Result-cases result) [
          | inr (m, f) ↦ rw (TellEnd, run_with_description, e, f, loop_result) tt
          | inl ((i, run, x), f) ↦
              rw (TellEnd, run_with_description, e, f, loop_result, finish) (rw (e, f) at told)
        ]
      ]

  -- Over any outside, in every run that the loop returns, each outcome belongs to a candidate that the
  -- critic was asked about and accepted on every axis; if its measured coverage is below the minimum
  -- its verdict is that it was not run, and otherwise the verdict is the verifier's answer for this
  -- candidate. And the candidates that the verifier was given during the run are, in order, those of
  -- the outcomes whose coverage is not below the minimum, and no others.
  pub run_with_description-Gated :
      (req : Request) (w : W) (run : CegisRun F) (after : W) (dispatched : List SpecCandidate)
      → run_with_description fl (watched out) cfg req (w, []) ≡ some (ok (run, (after, dispatched)))
      → AllGated fl (watched out) cfg req run × (dispatched ≡ given fl out cfg run.outcomes)
  run_with_description-Gated req w run after dispatched e = (
    run-AllGated fl (watched out) cfg req (w, []) run (after, dispatched) e,
    rw e at (run-Tell req w),
  )
