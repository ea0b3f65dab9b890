-- ===== src/Cegis/Round.antt =====
-- One round of the CEGIS loop (crates/vergil-core/src/cegis.rs, steps 1 to 4 of
-- `run_with_description`): synthesis, critique, mutation gate and verifier dispatch.
pub mod Gated
pub mod Counted
pub mod Watched
use vergil.Prelude.{
  refl, ap, ℕ, zero, suc, ◌+◌, ◌≡◌, String, Bool, true, false, Option, none, some, List, [], ◌∷◌,
  ◌++◌, Result, ok, err, ◌<>◌, length, if◌then◌else◌, leb,
}
use vergil.Prelude.Floats.{Floats}
use vergil.Synthesis.{SpecCandidate, SampleStat, SynthesisReport}
use vergil.Critique.{CritiqueResult, FilterOutcome, filter_accepted, critique_reply}
use vergil.Cegis.{
  VerifierVerdict, not_run, verified, counterexample, CandidateOutcome, IterationStats, CegisRun,
  CegisConfig, Request, Event, synth_sample, critique_summary, mutation_summary, dispatch_summary,
  Outside,
}

abbrev pub u32_max : ℕ
u32_max = 4294967295

-- `u32::saturating_add`
unfoldable pub saturating_add : ℕ → ℕ → ℕ
saturating_add a b = if leb (a + b) u32_max then a + b else u32_max

-- The local variables of a round, with the state of the outside.
pub record Local (F W : Type 0) : Type 0 where
  pub stats : IterationStats
  pub run : CegisRun F
  pub world : W

-- A candidate that passed the mutation gate, with its critique and coverage.
pub record Survivor (F : Type 0) : Type 0 where
  pub spec : SpecCandidate
  pub critique : CritiqueResult F
  pub coverage : Option F

unfoldable pub fresh_stats : ℕ → IterationStats
fresh_stats i = record {
  iteration = i;
  synthesized = 0;
  dropped_critique = 0;
  dropped_mutation = 0;
  dropped_manifest = 0;
  dispatched = 0;
  verified = 0;
  counterexamples = 0;
  tokens_in = 0;
  tokens_out = 0;
  wall_clock_ms = 0;
  diagnosis = none;
}

unfoldable pub count_verdict : VerifierVerdict → IterationStats → IterationStats
count_verdict (verified b d) st = record st { verified = st.verified + 1 }
count_verdict (counterexample m) st = record st { counterexamples = st.counterexamples + 1 }
count_verdict _ st = st

module _ {F W : Type 0} (fl : Floats F) (out : Outside F W) (cfg : CegisConfig F) where
  record_at : Event F → Local F W → Local F W
  record_at e s = record s { world = out.record_event e s.world }

  unfoldable pub sample_cost : SampleStat F → F
  sample_cost s =
      fl.add (fl.mul (fl.div (fl.of_nat s.tokens_in) (fl.of_nat 1000000)) cfg.cost_per_mtok_in_usd)
        (fl.mul (fl.div (fl.of_nat s.tokens_out) (fl.of_nat 1000000)) cfg.cost_per_mtok_out_usd)

  unfoldable pub account_for_sample : SampleStat F → Local F W → Local F W
  unfolding saturating_add sample_cost
  account_for_sample s l = record l {
    stats = record l.stats {
      tokens_in = saturating_add l.stats.tokens_in s.tokens_in;
      tokens_out = saturating_add l.stats.tokens_out s.tokens_out;
    };
    run = record l.run { total_cost_usd = fl.add l.run.total_cost_usd (sample_cost s) };
  }

  account_all : List (SampleStat F) → Local F W → Local F W
  unfolding account_for_sample record_at
  account_all [] l = l
  account_all (s ∷ ss) l =
      account_all ss (record_at (synth_sample l.stats.iteration s) (account_for_sample s l))

  -- `critique_all`; the calls run concurrently, and are put in the order of the candidates here.
  pub critique_all : Request → List SpecCandidate → W → List (CritiqueResult F) × W
  critique_all req [] w = ([], w)
  critique_all req (c ∷ cs) w =
      let reply = out.ask_critic c req.intent req.description w in
      let rest = critique_all req cs reply.1 in (critique_reply fl reply.0 c ∷ rest.0, rest.1)

  -- A result for each candidate, which is what `filter_accepted` asserts.
  pub length-critique_all :
      (req : Request) (cs : List SpecCandidate) (w : W)
      → length cs ≡ length (critique_all req cs w).0
  unfolding critique_all
  length-critique_all req [] w = refl
  length-critique_all req (c ∷ cs) w =
      ap suc (length-critique_all req cs (out.ask_critic c req.intent req.description w).1)

  -- The coverage of a candidate: none without a gate.
  pub measured : Option (SpecCandidate → W → F × W) → SpecCandidate → W → Option F × W
  measured none c w = (none, w)
  measured (some gate) c w = (some (gate c w).0, (gate c w).1)

  unfoldable pub is_below : Option F → Bool
  is_below none = false
  is_below (some cov) = fl.lt cov cfg.mutation_min

  outcome_of : Survivor F → VerifierVerdict → CandidateOutcome F
  outcome_of s v = record {
    candidate = s.spec;
    critique = some s.critique;
    mutation_coverage = s.coverage;
    manifest_warnings = [];
    verifier_verdict = v;
  }

  push_outcome : CandidateOutcome F → CegisRun F → CegisRun F
  push_outcome o run = record run { outcomes = run.outcomes ++ o ∷ [] }

  -- The body of the mutation gate's loop, for a candidate whose coverage is below the minimum.
  drop_below : Bool → Survivor F → Local F W → Local F W
  unfolding outcome_of push_outcome
  drop_below false s l = l
  drop_below true s l = record l {
    stats = record l.stats { dropped_mutation = l.stats.dropped_mutation + 1 };
    run = push_outcome (outcome_of s not_run) l.run;
  }

  pass_on : Bool → Survivor F → List (Survivor F) × Local F W → List (Survivor F) × Local F W
  pass_on true s rest = rest
  pass_on false s rest = (s ∷ rest.0, rest.1)

  gate_all : List (SpecCandidate × CritiqueResult F) → Local F W → List (Survivor F) × Local F W
  unfolding measured is_below drop_below pass_on
  gate_all [] l = ([], l)
  gate_all ((c, r) ∷ kept) l =
      let cov = measured out.mutation_gate c l.world in
      let s : Survivor F = record { spec = c; critique = r; coverage = cov.0 } in
      pass_on (is_below cov.0) s
        (gate_all kept (drop_below (is_below cov.0) s (record l { world = cov.1 })))

  -- The body of the dispatch loop.
  dispatch_one : Survivor F → Local F W → Local F W
  unfolding outcome_of push_outcome count_verdict
  dispatch_one s l =
      let verdict = out.dispatcher s.spec l.world in
      let counted = count_verdict verdict.0 l.stats in
      record {
        stats = record counted { dispatched = counted.dispatched + 1 };
        run = push_outcome (outcome_of s verdict.0) l.run;
        world = verdict.1;
      }

  dispatch_all : List (Survivor F) → Local F W → Local F W
  unfolding dispatch_one
  dispatch_all [] l = l
  dispatch_all (s ∷ ss) l = dispatch_all ss (dispatch_one s l)

  push_stats : W → Local F W → Local F W
  push_stats started l =
      let done = record l.stats { wall_clock_ms = out.elapsed_ms started l.world } in
      record l { stats = done; run = record l.run { iterations = l.run.iterations ++ done ∷ [] } }

  -- Step 1 after the synthesizer's answer.
  synthesized_phase : SynthesisReport F → ℕ → CegisRun F → W → Local F W
  unfolding account_all fresh_stats
  synthesized_phase report iteration run w = account_all report.samples (record {
    stats = record (fresh_stats iteration) { synthesized = length report.candidates };
    run = run;
    world = w;
  })

  -- Step 2: what the critic lets through.
  critique_phase : Request → List SpecCandidate → Local F W → FilterOutcome F × Local F W
  unfolding critique_all record_at
  critique_phase req cs l =
      let critiques = critique_all req cs l.world in
      let outcome =
        filter_accepted fl cfg.min_axis cs critiques.0 (length-critique_all req cs l.world) in
      (
        outcome,
        record_at
            (critique_summary l.stats.iteration (length outcome.kept) (length outcome.dropped))
            (record l {
              stats = record l.stats { dropped_critique = length outcome.dropped };
              world = critiques.1;
            }),
      )

  -- Step 3.
  gate_phase : List (SpecCandidate × CritiqueResult F) → Local F W → List (Survivor F) × Local F W
  unfolding gate_all record_at
  gate_phase kept l =
      let gated = gate_all kept l in
      (
        gated.0,
        record_at
            (mutation_summary gated.1.stats.iteration (length gated.0)
              gated.1.stats.dropped_mutation cfg.mutation_min)
            gated.1,
      )

  -- Step 4.
  dispatch_phase : List (Survivor F) → Local F W → Local F W
  unfolding dispatch_all record_at
  dispatch_phase survivors l =
      let done = dispatch_all survivors l in
      record_at
        (dispatch_summary done.stats.iteration done.stats.dispatched done.stats.verified
          done.stats.counterexamples)
        done

  -- The round from the synthesizer's answer to the push of its statistics.
  unfoldable pub round :
      Request → SynthesisReport F → (started : W) → ℕ → CegisRun F → W → Local F W
  unfolding synthesized_phase critique_phase gate_phase dispatch_phase push_stats
  round req report started iteration run w =
      let l1 = synthesized_phase report iteration run w in
      let critiqued = critique_phase req report.candidates l1 in
      let gated = gate_phase critiqued.0.kept critiqued.1 in
      push_stats started (dispatch_phase gated.0 gated.1)
