-- ===== src/Cegis/Round/Watched.antt =====
-- Which candidates a round of the CEGIS loop gives to the verifier
-- (crates/vergil-core/src/cegis.rs): an outside that keeps a list of them.
use vergil.Prelude.{
  ℕ, ◌≡◌, refl, sym, ap, ◌∙◌, inl, inr, Bool, true, false, not, Option, none, some, List, [], ◌∷◌,
  ◌++◌, map, append-nil, Bool-cases, select, All,
}
use vergil.Prelude.Floats.{Floats}
use vergil.Synthesis.{SpecCandidate, SynthesisReport, SampleStat}
use vergil.Critique.{CritiqueResult}
use vergil.Cegis.{CandidateOutcome, CegisRun, CegisConfig, Request, Outside}
use vergil.Cegis.Round.{
  Local, Survivor, is_below, drop_below, pass_on, gate_all, dispatch_one, dispatch_all, round,
  account_all, account_for_sample, record_at, synthesized_phase, critique_phase, gate_phase,
  dispatch_phase, push_stats, outcome_of, push_outcome, measured, critique_all,
}

abbrev pub Watched : Type 0 → Type 0
Watched W = W × List SpecCandidate

module _ {F W : Type 0} where
  abbrev pub watched_gate :
      Option (SpecCandidate → W → F × W) → Option (SpecCandidate → Watched W → F × Watched W)
  watched_gate none = none
  watched_gate (some gate) = some (λ c x. ((gate c x.0).0, ((gate c x.0).1, x.1)))

  -- The same outside, which also lists the candidates that the verifier is given.
  abbrev pub watched : Outside F W → Outside F (Watched W)
  watched out = record {
    synthesize = λ req x. ((out.synthesize req x.0).0, ((out.synthesize req x.0).1, x.1));
    ask_critic = λ c i d x. ((out.ask_critic c i d x.0).0, ((out.ask_critic c i d x.0).1, x.1));
    mutation_gate = watched_gate out.mutation_gate;
    dispatcher = λ c x. ((out.dispatcher c x.0).0, ((out.dispatcher c x.0).1, x.1 ++ c ∷ []));
    ask_diagnosis =
        λ i s m x. ((out.ask_diagnosis i s m x.0).0, ((out.ask_diagnosis i s m x.0).1, x.1));
    repair_code =
        λ i c s m x. ((out.repair_code i c s m x.0).0, ((out.repair_code i c s m x.0).1, x.1));
    refine_spec =
        λ i c s m x. ((out.refine_spec i c s m x.0).0, ((out.refine_spec i c s m x.0).1, x.1));
    record_event = λ e x. (out.record_event e x.0, x.1);
    elapsed_ms = λ x y. out.elapsed_ms x.0 y.0;
  }

module _ {F W : Type 0} (fl : Floats F) (out : Outside F W) (cfg : CegisConfig F) where
  -- The candidates of the outcomes whose coverage is not below the minimum.
  abbrev pub given : List (CandidateOutcome F) → List SpecCandidate
  given os =
      map (λ (o : CandidateOutcome F). o.candidate)
        (select (λ o. not (is_below fl (watched out) cfg o.mutation_coverage)) os)

  -- The candidates that the verifier was given are those of the outcomes that did not fall short.
  abbrev pub Told : CegisRun F → Watched W → Type 0
  Told run x = x.1 ≡ given run.outcomes

  abbrev Tells : Local F (Watched W) → Type 0
  Tells l = Told l.run l.world

  given-append :
      (os : List (CandidateOutcome F)) (o : CandidateOutcome F)
      → given (os ++ o ∷ []) ≡ given os ++ given (o ∷ [])
  given-append [] o = refl
  given-append (p ∷ os) o = elim (Bool-cases (is_below fl (watched out) cfg p.mutation_coverage)) [
    | inl y ↦ rw (y) (given-append os o)
    | inr n ↦ rw (n) (ap (λ cs. p.candidate ∷ cs) (given-append os o))
  ]

  account_all-Tells :
      (ss : List (SampleStat F)) (l : Local F (Watched W))
      → Tells l
      → Tells (account_all fl (watched out) cfg ss l)
  unfolding account_all account_for_sample record_at
  account_all-Tells [] l h = h
  account_all-Tells (s ∷ ss) l h = account_all-Tells ss _ h

  critique_all-quiet :
      (req : Request) (cs : List SpecCandidate) (x : Watched W)
      → (critique_all fl (watched out) cfg req cs x).1.1 ≡ x.1
  unfolding critique_all
  critique_all-quiet req [] x = refl
  critique_all-quiet req (c ∷ cs) x = critique_all-quiet req cs _

  measured-quiet :
      (gate : Option (SpecCandidate → W → F × W)) (c : SpecCandidate) (x : Watched W)
      → (measured fl (watched out) cfg (watched_gate gate) c x).1.1 ≡ x.1
  unfolding measured
  measured-quiet none c x = refl
  measured-quiet (some gate) c x = refl

  drop_below-Tells :
      (b : Bool) (s : Survivor F) (l : Local F (Watched W))
      → is_below fl (watched out) cfg s.coverage ≡ b
      → Tells l
      → Tells (drop_below fl (watched out) cfg b s l)
  unfolding drop_below outcome_of push_outcome
  drop_below-Tells false s l e h = h
  drop_below-Tells true s l e h = h ∙ sym (given-append l.run.outcomes _ ∙ rw e (append-nil _))

  abbrev Enough : Survivor F → Type 0
  Enough s = is_below fl (watched out) cfg s.coverage ≡ false

  gate_all-Tells :
      (kept : List (SpecCandidate × CritiqueResult F)) (l : Local F (Watched W))
      → Tells l
      → All Enough (gate_all fl (watched out) cfg kept l).0
        × Tells (gate_all fl (watched out) cfg kept l).1
  unfolding gate_all pass_on
  gate_all-Tells [] l h = (tt, h)
  gate_all-Tells ((c, r) ∷ kept) l h =
      let O = watched out in
      let cov = measured fl O cfg O.mutation_gate c l.world in
      let s : Survivor F = record { spec = c; critique = r; coverage = cov.0 } in
      let m : Local F (Watched W) = record l { world = cov.1 } in
      let start : Tells m = measured-quiet out.mutation_gate c l.world ∙ h in
      elim (Bool-cases (is_below fl O cfg cov.0)) [
        | inl b ↦
            rw (b, pass_on)
              (gate_all-Tells kept (drop_below fl O cfg true s m)
                (drop_below-Tells true s m b start))
        | inr b ↦
            let (ps, h') =
              gate_all-Tells kept (drop_below fl O cfg false s m)
                (drop_below-Tells false s m b start) in
            rw (b, pass_on) ((b, ps), h')
      ]

  dispatch_all-Tells :
      (ss : List (Survivor F)) (l : Local F (Watched W))
      → All Enough ss
      → Tells l
      → Tells (dispatch_all fl (watched out) cfg ss l)
  unfolding dispatch_all dispatch_one outcome_of push_outcome
  dispatch_all-Tells [] l bs h = h
  dispatch_all-Tells (s ∷ ss) l (b, bs) h =
      dispatch_all-Tells ss _ bs
        (ap (λ cs. cs ++ s.spec ∷ []) h ∙ sym (given-append l.run.outcomes _ ∙ rw b refl))

  pub round-Told :
      (req : Request) (report : SynthesisReport F) (started : Watched W) (i : ℕ) (run : CegisRun F)
      (x : Watched W)
      → Told run x
      → let r = round fl (watched out) cfg req report started i run x in Told r.run r.world
  unfolding round push_stats dispatch_phase gate_phase critique_phase synthesized_phase record_at
  round-Told req report started i run x h =
      let O = watched out in
      let l1 = synthesized_phase fl O cfg report i run x in
      let l2 = critique_phase fl O cfg req report.candidates l1 in
      let told1 : Tells l1 = account_all-Tells report.samples _ h in
      let told2 : Tells l2.1 = critique_all-quiet req report.candidates l1.world ∙ told1 in
      let gated = gate_all-Tells l2.0.kept l2.1 told2 in
      dispatch_all-Tells (gate_phase fl O cfg l2.0.kept l2.1).0
        (gate_phase fl O cfg l2.0.kept l2.1).1 gated.0 gated.1
