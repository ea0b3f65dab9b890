-- ===== src/Cegis/Run.antt =====
-- The CEGIS loop (crates/vergil-core/src/cegis.rs, `run_with_description`): what follows a round,
-- and the loop over rounds.
pub mod Decided
pub mod Laws
pub mod Watched
pub mod Examples
use vergil.Prelude.{
  leb, ℕ, zero, suc, ◌+◌, ◌%◌, ◌≡◌, String, Bool, true, false, Option, none, some, List, [], ◌∷◌,
  ◌++◌, Result, ok, err, ◌>>=◌, ◌<>◌, length, any, select, if◌then◌else◌, to_string,
}
use vergil.Prelude.Floats.{Floats}
use mathlib.Core.List.{map}
use vergil.Synthesis.{SpecCandidate, SynthesisReport, spec_source_blob}
use vergil.Cegis.{
  VerifierVerdict, counterexample, CandidateOutcome, IterationStats, CegisRun, CegisConfig, Request,
  DiagnosisClass, code_bug, spec_bug, ambiguous, Diagnosis, CodeRepairPlan, RefinedSpec, cost,
  run_complete, Outside, diagnose_reply, is_verified,
}
use vergil.Cegis.Round.{Local, round}

abbrev pub outcome_is_verified : {F : Type 0} → CandidateOutcome F → Bool
outcome_is_verified o = is_verified o.verifier_verdict

abbrev pub message_of : VerifierVerdict → Option String
message_of (counterexample m) = some m
message_of _ = none

-- `iter().rev().find_map(..)`: the last counterexample of the list.
or_else : {A : Type 0} → Option A → Option A → Option A
or_else none b = b
or_else (some a) b = some a

paired : {F : Type 0} → CandidateOutcome F → Option String → Option (SpecCandidate × String)
paired o none = none
paired o (some m) = some (o.candidate, m)

unfoldable pub last_counterexample :
    {F : Type 0} → List (CandidateOutcome F) → Option (SpecCandidate × String)
unfolding or_else paired
last_counterexample [] = none
last_counterexample (o ∷ os) =
    or_else (last_counterexample os) (paired o (message_of o.verifier_verdict))

diagnose_last : DiagnosisClass → List IterationStats → List IterationStats
diagnose_last d [] = []
diagnose_last d (s ∷ []) = record s { diagnosis = some d } ∷ []
diagnose_last d (s ∷ t ∷ ss) = s ∷ diagnose_last d (t ∷ ss)

abbrev pub stop_with : {F : Type 0} → String → CegisRun F → CegisRun F
stop_with why run = record run { stop_reason = some why }

-- How the body of the loop ends: with `break` or with the next iteration.
pub data Ending (F W : Type 0) : Type 0 where
  stopped : (run : CegisRun F) (world : W) → Ending F W
  again : (run : CegisRun F) (world : W) → Ending F W

module _ {F W : Type 0} (fl : Floats F) (out : Outside F W) (cfg : CegisConfig F) where
  over_budget : Bool → CegisRun F → W → Ending F W
  over_budget true run w =
      stopped
        (stop_with
          ("cost budget $"
            <> (fl.cents run.total_cost_usd
                <> (" reached (limit $" <> (fl.cents cfg.cost_budget_usd <> ")"))))
          run)
        w
  over_budget false run w = again run w

  -- Step 6.
  check_budget : CegisRun F → W → Ending F W
  unfolding over_budget
  check_budget run w = over_budget (fl.ge run.total_cost_usd cfg.cost_budget_usd) run w

  repaired : Result String CodeRepairPlan × W → CegisRun F → Ending F W
  unfolding check_budget
  repaired (ok plan, w) run = check_budget (record run { repaired_code = some plan }) w
  repaired (err e, w) run = stopped (stop_with ("repair_code error: " <> e) run) w

  refined : Result String RefinedSpec × W → CegisRun F → Ending F W
  unfolding check_budget
  refined (ok spec, w) run =
      check_budget (record run { refined_specs = run.refined_specs ++ spec ∷ [] }) w
  refined (err e, w) run = stopped (stop_with ("refine_spec error: " <> e) run) w

  -- The match on the class of the diagnosis.
  route : DiagnosisClass → Request → SpecCandidate → String → CegisRun F → W → Ending F W
  unfolding repaired refined
  route code_bug req spec cex run w =
      repaired (out.repair_code req.intent spec req.contract_source cex w) run
  route spec_bug req spec cex run w =
      refined (out.refine_spec req.intent spec req.contract_source cex w) run
  route ambiguous req spec cex run w = stopped (stop_with "ambiguous_diagnosis" run) w

  diagnosed : Request → SpecCandidate → String → Diagnosis → CegisRun F → W → Ending F W
  unfolding route diagnose_last
  diagnosed req spec cex diag run w =
      route diag.class req spec cex
        (record run {
          iterations = diagnose_last diag.class run.iterations;
          final_diagnosis = some diag;
        })
        w

  explain : Option (SpecCandidate × String) → Request → CegisRun F → W → Ending F W
  unfolding diagnosed
  explain none req run w = stopped (stop_with "no_definitive_verdict" run) w
  explain (some (spec, cex)) req run w =
      let reply = out.ask_diagnosis req.intent (spec_source_blob spec) cex w in
      diagnosed req spec cex (diagnose_reply reply.0) run reply.1

  unless_verified : Bool → Request → CegisRun F → W → Ending F W
  unfolding explain
  unless_verified true req run w = stopped (stop_with "verified" run) w
  unless_verified false req run w = explain (last_counterexample run.outcomes) req run w

  -- Steps 5 and 6: what follows the push of the round's statistics.
  unfoldable pub decide : Request → CegisRun F → W → Ending F W
  unfolding unless_verified
  decide req run w = unless_verified (any outcome_is_verified run.outcomes) req run w

  -- The result of the loop: the iteration it ended in, the run and the state of the outside.
  abbrev pub Looped : Type 0
  Looped = ℕ × CegisRun F × W

  -- The end of the loop's body: `break`, or the rest of the loop behind `iteration += 1`.
  proceed :
      Ending F W
      → ℕ
      → (ℕ → CegisRun F → W → Option (Result String Looped))
      → Option (Result String Looped)
  proceed (stopped done w) iteration rest = some (ok (iteration, done, w))
  proceed (again next w) iteration rest = rest (iteration + 1) next w

  -- The `?` behind the synthesizer.
  with_report :
      Result String (SynthesisReport F)
      → (SynthesisReport F → Option (Result String Looped))
      → Option (Result String Looped)
  with_report (err e) body = some (err e)
  with_report (ok report) body = body report

  -- The `loop`, on fuel: `none` when the fuel is used up before the loop has ended.
  rounds : Request → (fuel : ℕ) → (iteration : ℕ) → CegisRun F → W → Option (Result String Looped)
  unfolding decide proceed with_report
  rounds req zero iteration run w = none
  rounds req (suc fuel) iteration run w = elim (leb cfg.max_iterations iteration) [
    | true ↦ some (
        ok (
          iteration,
          stop_with ("max_iterations (" <> (to_string cfg.max_iterations <> ")")) run,
          w,
        ))
    | false ↦ with_report (out.synthesize req w).0 (λ report.
        let l = round fl out cfg req report w iteration run (out.synthesize req w).1 in
        proceed (decide req l.run l.world) iteration (rounds req fuel))
  ]

  pub default_run : CegisRun F
  default_run = record {
    iterations = [];
    outcomes = [];
    total_cost_usd = fl.of_nat 0;
    stop_reason = none;
    repaired_code = none;
    refined_specs = [];
    final_diagnosis = none;
  }

  -- `Iterator::sum` of `u32` values, which wraps in a release build.
  wrapping_sum : List ℕ → ℕ
  wrapping_sum [] = 0
  wrapping_sum (n ∷ ns) = (n + wrapping_sum ns) % 4294967296

  abbrev pub count_tokens_in : CegisRun F → ℕ
  unfolding wrapping_sum
  count_tokens_in run = wrapping_sum (map (λ (s : IterationStats). s.tokens_in) run.iterations)

  abbrev pub count_tokens_out : CegisRun F → ℕ
  unfolding wrapping_sum
  count_tokens_out run = wrapping_sum (map (λ (s : IterationStats). s.tokens_out) run.iterations)

  default_reason : Option String → Option String
  default_reason none = some "loop_completed"
  default_reason (some why) = some why

  or_unset : Option String → String
  or_unset none = "(unset)"
  or_unset (some why) = why

  -- What follows the loop.
  finish : (started : W) → Looped → CegisRun F × W
  unfolding default_reason or_unset
  finish started (iteration, run, w) =
      let done = record run { stop_reason = default_reason run.stop_reason } in
      let ms = out.elapsed_ms started w in
      let w1 =
        out.record_event
          (cost iteration (count_tokens_in done) (count_tokens_out done) done.total_cost_usd ms)
          w in
      (
        done,
        out.record_event
            (run_complete iteration (length done.iterations) (length done.outcomes)
              (length (select outcome_is_verified done.outcomes)) (or_unset done.stop_reason)
              done.total_cost_usd ms)
            w1,
      )

  loop_result : W → Result String Looped → Result String (CegisRun F × W)
  unfolding finish
  loop_result started (err e) = err e
  loop_result started (ok looped) = ok (finish started looped)

  -- Each iteration but the last one counts up to the limit, so one more than the limit is enough.
  pub run_with_description : Request → W → Option (Result String (CegisRun F × W))
  unfolding rounds loop_result default_run
  run_with_description req w = elim (rounds req (suc cfg.max_iterations) 0 default_run w) [
    | none ↦ none
    | some result ↦ some (loop_result w result)
  ]
