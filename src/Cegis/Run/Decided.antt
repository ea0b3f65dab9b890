-- ===== src/Cegis/Run/Decided.antt =====
-- What the decision after a round of the CEGIS loop changes in the run, and why it stops
-- (crates/vergil-core/src/cegis.rs, steps 5 and 6).
use mathlib.Core.Path.{subst}
use text.Mathlib.Text.{starts_with}
use text.Mathlib.TextEquality.{starts_with_iff}
use text.Mathlib.TextLemmas.{prefix-append}
use vergil.Prelude.{
  ℕ, suc, ◌+◌, ◌≡◌, refl, ap, String, true, false, Option, none, some, List, [], ◌∷◌, ◌++◌, Result,
  ok, err, ◌<>◌, length, any, inl, inr, arith, Bool-cases, All, ◌↔◌,
}
use vergil.Prelude.Floats.{Floats}
use vergil.Synthesis.{SpecCandidate, spec_source_blob}
use vergil.Cegis.{
  CegisRun, CegisConfig, Request, Outside, IterationStats, DiagnosisClass, code_bug, spec_bug,
  ambiguous, CodeRepairPlan, RefinedSpec, diagnose_reply,
}
use vergil.Cegis.Round.Counted.{Consistent}
use vergil.Cegis.Run.{
  outcome_is_verified, Ending, stopped, again, diagnose_last, stop_with, over_budget, check_budget,
  repaired, refined, route, diagnosed, explain, unless_verified, decide,
}

-- The outcomes that the rounds' statistics speak of.
abbrev pub accounted : List IterationStats → ℕ
accounted [] = 0
accounted (s ∷ ss) = s.dropped_mutation + s.dispatched + accounted ss

starts_differently : (p x : String) → starts_with "verified" p ≡ false → p <> x ≡ "verified" → ⊥
starts_differently p x none_yet e =
    let found =
      subst (λ s. starts_with s p ≡ true) e ((starts_with_iff (p <> x) p).1 (prefix-append p x)) in
    cc (found, none_yet)

pub some_differently :
    (p x : String) → starts_with "verified" p ≡ false → ¬ (some (p <> x) ≡ some "verified")
some_differently p x none_yet e = starts_differently p x none_yet (cc e)

diagnose_last-length :
    (d : DiagnosisClass) (is : List IterationStats) → length (diagnose_last d is) ≡ length is
unfolding diagnose_last
diagnose_last-length d [] = refl
diagnose_last-length d (s ∷ []) = refl
diagnose_last-length d (s ∷ t ∷ ss) = ap suc (diagnose_last-length d (t ∷ ss))

diagnose_last-accounted :
    (d : DiagnosisClass) (is : List IterationStats) → accounted (diagnose_last d is) ≡ accounted is
unfolding diagnose_last
diagnose_last-accounted d [] = refl
diagnose_last-accounted d (s ∷ []) = refl
diagnose_last-accounted d (s ∷ t ∷ ss) = omega (arith, diagnose_last-accounted d (t ∷ ss))

diagnose_last-Consistent :
    (d : DiagnosisClass) (is : List IterationStats)
    → All Consistent is
    → All Consistent (diagnose_last d is)
unfolding diagnose_last
diagnose_last-Consistent d [] h = tt
diagnose_last-Consistent d (s ∷ []) h = h
diagnose_last-Consistent d (s ∷ t ∷ ss) (c, h) = (c, diagnose_last-Consistent d (t ∷ ss) h)

module _ {F : Type 0} where
  -- The outcomes are the same, and the statistics are as many, as consistent, and account for as
  -- many outcomes.
  abbrev pub Kept : CegisRun F → CegisRun F → Type 0
  Kept run next =
      (next.outcomes ≡ run.outcomes)
      × (length next.iterations ≡ length run.iterations)
      × (All Consistent run.iterations → All Consistent next.iterations)
      × (accounted next.iterations ≡ accounted run.iterations)

module _ {F W : Type 0} where
  abbrev pub Decided : CegisRun F → Ending F W → Type 0
  Decided run (stopped done w) =
      Kept run done
      × ((done.stop_reason ≡ some "verified") ↔ (any outcome_is_verified run.outcomes ≡ true))
      × ((why : String) × (done.stop_reason ≡ some why))
  Decided run (again next w) =
      Kept run next
      × (next.stop_reason ≡ run.stop_reason)
      × (any outcome_is_verified run.outcomes ≡ false)

  -- Stopping for another reason, when no outcome is verified.
  stopped-Decided :
      (run next : CegisRun F) (w : W) (why : String)
      → Kept run next
      → any outcome_is_verified run.outcomes ≡ false
      → ¬ (some why ≡ some "verified")
      → Decided run (stopped (stop_with why next) w)
  stopped-Decided run next w why k none_yet d =
      (k, (λ e. absurd (d e), λ found. cc (found, none_yet)), (why, refl))

module _ {F W : Type 0} (fl : Floats F) (out : Outside F W) (cfg : CegisConfig F) where
  check_budget-Decided :
      (run next : CegisRun F) (w : W)
      → Kept run next
      → any outcome_is_verified run.outcomes ≡ false
      → next.stop_reason ≡ run.stop_reason
      → Decided run (check_budget fl out cfg next w)
  unfolding check_budget over_budget
  check_budget-Decided run next w k none_yet same =
      elim (Bool-cases (fl.ge next.total_cost_usd cfg.cost_budget_usd)) [
        | inl e ↦
            rw (e, over_budget)
              (stopped-Decided run next w _ k none_yet (some_differently "cost budget $" _ refl))
        | inr e ↦ rw (e, over_budget) (k, same, none_yet)
      ]

  repaired-Decided :
      (a : Result String CodeRepairPlan × W) (run next : CegisRun F)
      → Kept run next
      → any outcome_is_verified run.outcomes ≡ false
      → next.stop_reason ≡ run.stop_reason
      → Decided run (repaired fl out cfg a next)
  unfolding repaired
  repaired-Decided (ok plan, w) run next k none_yet same =
      check_budget-Decided run (record next { repaired_code = some plan }) w k none_yet same
  repaired-Decided (err e, w) run next k none_yet same =
      stopped-Decided run next w _ k none_yet (some_differently "repair_code error: " e refl)

  refined-Decided :
      (a : Result String RefinedSpec × W) (run next : CegisRun F)
      → Kept run next
      → any outcome_is_verified run.outcomes ≡ false
      → next.stop_reason ≡ run.stop_reason
      → Decided run (refined fl out cfg a next)
  unfolding refined
  refined-Decided (ok spec, w) run next k none_yet same =
      check_budget-Decided run (record next { refined_specs = next.refined_specs ++ spec ∷ [] }) w k
        none_yet same
  refined-Decided (err e, w) run next k none_yet same =
      stopped-Decided run next w _ k none_yet (some_differently "refine_spec error: " e refl)

  route-Decided :
      (d : DiagnosisClass) (req : Request) (spec : SpecCandidate) (cex : String)
      (run next : CegisRun F) (w : W)
      → Kept run next
      → any outcome_is_verified run.outcomes ≡ false
      → next.stop_reason ≡ run.stop_reason
      → Decided run (route fl out cfg d req spec cex next w)
  unfolding route
  route-Decided code_bug req spec cex run next w k none_yet same =
      repaired-Decided _ run next k none_yet same
  route-Decided spec_bug req spec cex run next w k none_yet same =
      refined-Decided _ run next k none_yet same
  route-Decided ambiguous req spec cex run next w k none_yet same =
      stopped-Decided run next w _ k none_yet (some_differently "ambiguous" "_diagnosis" refl)

  explain-Decided :
      (cex : Option (SpecCandidate × String)) (req : Request) (run : CegisRun F) (w : W)
      → any outcome_is_verified run.outcomes ≡ false
      → Decided run (explain fl out cfg cex req run w)
  unfolding explain diagnosed
  explain-Decided none req run w none_yet =
      stopped-Decided run run w _ (refl, refl, λ h. h, refl) none_yet
        (some_differently "no_definitive" "_verdict" refl)
  explain-Decided (some (spec, cex)) req run w none_yet =
      let reply = out.ask_diagnosis req.intent (spec_source_blob spec) cex w in
      let class = (diagnose_reply reply.0).class in
      route-Decided class req spec cex run _ reply.1
        (
          refl,
          diagnose_last-length class run.iterations,
          diagnose_last-Consistent class run.iterations,
          diagnose_last-accounted class run.iterations,
        )
        none_yet refl

  pub decide-Decided :
      (req : Request) (run : CegisRun F) (w : W) → Decided run (decide fl out cfg req run w)
  unfolding decide unless_verified
  decide-Decided req run w = elim (Bool-cases (any outcome_is_verified run.outcomes)) [
    | inl found ↦
        rw (found, unless_verified)
          ((refl, refl, λ h. h, refl), (λ e. found, λ e. refl), ("verified", refl))
    | inr none_yet ↦ rw (none_yet, unless_verified) (explain-Decided _ req run w none_yet)
  ]
