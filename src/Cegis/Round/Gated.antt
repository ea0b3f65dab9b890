-- ===== src/Cegis/Round/Gated.antt =====
-- What a round of the CEGIS loop adds to the outcomes (crates/vergil-core/src/cegis.rs).
use mathlib.Core.List.{zip}
use vergil.Prelude.{
  select, Option, ℕ, ◌≡◌, refl, Bool, true, false, some, List, [], ◌∷◌, inl, inr, ◌⊎◌, Bool-cases,
  All, All-append,
}
use vergil.Prelude.Floats.{Floats}
use vergil.Synthesis.{SpecCandidate, SynthesisReport, SampleStat}
use vergil.Critique.{CritiqueResult, critique_reply}
use vergil.Critique.Laws.{accepts, filter_accepted-eq-select}
use vergil.Cegis.{not_run, CandidateOutcome, CegisRun, CegisConfig, Request, Outside}
use vergil.Cegis.Round.{
  Local, Survivor, is_below, drop_below, pass_on, gate_all, dispatch_one, dispatch_all, round,
  account_all, account_for_sample, record_at, synthesized_phase, critique_phase, gate_phase,
  dispatch_phase, push_stats, outcome_of, push_outcome, measured, critique_all, length-critique_all,
}

module _ {F W : Type 0} (fl : Floats F) (out : Outside F W) (cfg : CegisConfig F) where
  -- The critic was asked about this candidate, its answer is this result, and it is an accepting one.
  abbrev pub Kept : Request → SpecCandidate × CritiqueResult F → Type 0
  Kept req (c, r) =
      (accepts fl cfg.min_axis r ≡ true)
      × ((w : W) × (r ≡ critique_reply fl (out.ask_critic c req.intent req.description w).0 c))

  -- The coverage is what the gate measured for the candidate, if there is a gate.
  abbrev pub IsMeasured : SpecCandidate → Option F → Type 0
  IsMeasured c coverage = (w : W) × (coverage ≡ (measured fl out cfg out.mutation_gate c w).0)

  -- The critic kept the candidate; and either its coverage is below the minimum and it was not run,
  -- or it is not and the verdict is what the verifier answered for this candidate.
  abbrev pub Gated : Request → CandidateOutcome F → Type 0
  Gated req o =
      ((r : CritiqueResult F) × (o.critique ≡ some r) × Kept req (o.candidate, r))
      × IsMeasured o.candidate o.mutation_coverage
      × (((is_below fl out cfg o.mutation_coverage ≡ true) × (o.verifier_verdict ≡ not_run))
          ⊎ ((is_below fl out cfg o.mutation_coverage ≡ false)
              × ((w : W) × (o.verifier_verdict ≡ (out.dispatcher o.candidate w).0))))

  abbrev pub AllGated : Request → CegisRun F → Type 0
  AllGated req run = All (Gated req) run.outcomes

  abbrev Passed : Request → Survivor F → Type 0
  Passed req s =
      Kept req (s.spec, s.critique)
      × IsMeasured s.spec s.coverage
      × (is_below fl out cfg s.coverage ≡ false)

  account_all-outcomes :
      (ss : List (SampleStat F)) (l : Local F W)
      → (account_all fl out cfg ss l).run.outcomes ≡ l.run.outcomes
  unfolding account_all account_for_sample record_at
  account_all-outcomes [] l = refl
  account_all-outcomes (s ∷ ss) l = account_all-outcomes ss _

  drop_below-AllGated :
      (req : Request) (b : Bool) (s : Survivor F) (l : Local F W)
      → Kept req (s.spec, s.critique)
      → IsMeasured s.spec s.coverage
      → is_below fl out cfg s.coverage ≡ b
      → AllGated req l.run
      → AllGated req (drop_below fl out cfg b s l).run
  unfolding drop_below outcome_of push_outcome
  drop_below-AllGated req false s l k m e h = h
  drop_below-AllGated req true s l k m e h =
      All-append (Gated req) l.run.outcomes _ h (((s.critique, refl, k), m, inl (e, refl)), tt)

  gate_all-Gated :
      (req : Request) (kept : List (SpecCandidate × CritiqueResult F)) (l : Local F W)
      → All (Kept req) kept
      → AllGated req l.run
      → All (Passed req) (gate_all fl out cfg kept l).0
        × AllGated req (gate_all fl out cfg kept l).1.run
  unfolding gate_all pass_on
  gate_all-Gated req [] l ks h = (tt, h)
  gate_all-Gated req ((c, r) ∷ kept) l (k, ks) h =
      let cov = measured fl out cfg out.mutation_gate c l.world in
      let s : Survivor F = record { spec = c; critique = r; coverage = cov.0 } in
      let m : Local F W = record l { world = cov.1 } in
      elim (Bool-cases (is_below fl out cfg cov.0)) [
        | inl b ↦
            let (ps, h') =
              gate_all-Gated req kept (drop_below fl out cfg true s m) ks
                (drop_below-AllGated req true s m k (l.world, refl) b h) in
            rw (b, pass_on) (ps, h')
        | inr b ↦
            let (ps, h') =
              gate_all-Gated req kept (drop_below fl out cfg false s m) ks
                (drop_below-AllGated req false s m k (l.world, refl) b h) in
            rw (b, pass_on) (((k, (l.world, refl), b), ps), h')
      ]

  dispatch_all-Gated :
      (req : Request) (ss : List (Survivor F)) (l : Local F W)
      → All (Passed req) ss
      → AllGated req l.run
      → AllGated req (dispatch_all fl out cfg ss l).run
  unfolding dispatch_all dispatch_one outcome_of push_outcome
  dispatch_all-Gated req [] l ps h = h
  dispatch_all-Gated req (s ∷ ss) l ((k, m, b), ps) h = dispatch_all-Gated req ss _ ps (
      All-append (Gated req) l.run.outcomes _ h
        (((s.critique, refl, k), m, inr (b, (l.world, refl))), tt))

  select-AllKept :
      (req : Request) (cs : List SpecCandidate) (w : W)
      → All
          (Kept req)
          (select (λ p. accepts fl cfg.min_axis p.1) (zip cs (critique_all fl out cfg req cs w).0))
  unfolding critique_all zip
  select-AllKept req [] w = tt
  select-AllKept req (c ∷ cs) w =
      let reply = out.ask_critic c req.intent req.description w in
      let rest = select-AllKept req cs reply.1 in
      elim (Bool-cases (accepts fl cfg.min_axis (critique_reply fl reply.0 c))) [
        | inl y ↦ rw (y) ((y, (w, refl)), rest)
        | inr n ↦ rw (n) rest
      ]

  pub round-AllGated :
      (req : Request) (report : SynthesisReport F) (started : W) (i : ℕ) (run : CegisRun F) (w : W)
      → AllGated req run
      → AllGated req (round fl out cfg req report started i run w).run
  unfolding round push_stats dispatch_phase gate_phase critique_phase synthesized_phase record_at
  round-AllGated req report started i run w h =
      let l1 = synthesized_phase fl out cfg report i run w in
      let l2 = critique_phase fl out cfg req report.candidates l1 in
      let cs = critique_all fl out cfg req report.candidates l1.world in
      let same = length-critique_all fl out cfg req report.candidates l1.world in
      let kept : All (Kept req) l2.0.kept =
        rw (filter_accepted-eq-select fl cfg.min_axis report.candidates cs.0 same).0
          (select-AllKept req report.candidates l1.world) in
      let start : AllGated req l2.1.run = rw (account_all-outcomes report.samples _) h in
      let gated = gate_all-Gated req l2.0.kept l2.1 kept start in
      dispatch_all-Gated req _ _ gated.0 gated.1
