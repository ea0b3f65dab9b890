-- ===== src/Cegis/Round/Counted.antt =====
-- The statistics of a round of the CEGIS loop (crates/vergil-core/src/cegis.rs).
use vergil.Prelude.{
  ℕ, ◌+◌, ◌≤◌, ◌≡◌, refl, ap, ◌∙◌, true, false, List, [], ◌∷◌, ◌++◌, length, length-append, inl,
  inr, arith, Bool-cases,
}
use vergil.Prelude.Floats.{Floats}
use vergil.Synthesis.{SpecCandidate, SynthesisReport, SampleStat}
use vergil.Critique.{CritiqueResult, filter_accepted}
use vergil.Critique.Laws.{length-filter}
use vergil.Cegis.{
  VerifierVerdict, not_run, verified, counterexample, unknown, error, CegisRun, CegisConfig,
  Request, Outside, IterationStats,
}
use vergil.Cegis.Round.{
  Local, Survivor, is_below, drop_below, pass_on, gate_all, dispatch_one, dispatch_all, round,
  account_all, account_for_sample, record_at, synthesized_phase, critique_phase, gate_phase,
  dispatch_phase, push_stats, outcome_of, push_outcome, measured, critique_all, length-critique_all,
  fresh_stats, saturating_add, u32_max, count_verdict,
}

-- Every candidate that was synthesized was dropped by the critic, dropped by the mutation gate or
-- dispatched, each verdict was counted at most once, and the token counts fit in a u32.
abbrev pub Consistent : IterationStats → Type 0
Consistent s =
    (s.synthesized ≡ s.dropped_critique + s.dropped_mutation + s.dispatched)
    × (s.verified + s.counterexamples ≤ s.dispatched)
    × (s.tokens_in ≤ u32_max)
    × (s.tokens_out ≤ u32_max)

saturating_add-bound : (a b : ℕ) → saturating_add a b ≤ u32_max
unfolding saturating_add
saturating_add-bound a b = ground arith

count_verdict-bound :
    (v : VerifierVerdict) (s : IterationStats)
    → (count_verdict v s).verified + (count_verdict v s).counterexamples
      ≤ s.verified + s.counterexamples + 1
unfolding count_verdict
count_verdict-bound not_run s = omega arith
count_verdict-bound (verified b d) s = omega arith
count_verdict-bound (counterexample m) s = omega arith
count_verdict-bound (unknown d) s = omega arith
count_verdict-bound (error d) s = omega arith

-- What the counting of a verdict leaves alone.
abbrev Alike : IterationStats → IterationStats → Type 0
Alike s t =
    (s.iteration ≡ t.iteration)
    × (s.synthesized ≡ t.synthesized)
    × (s.dropped_critique ≡ t.dropped_critique)
    × (s.tokens_in ≡ t.tokens_in)
    × (s.tokens_out ≡ t.tokens_out)

count_verdict-Alike :
    (v : VerifierVerdict) (s : IterationStats)
    → Alike (count_verdict v s) s
      × ((count_verdict v s).dropped_mutation ≡ s.dropped_mutation)
      × ((count_verdict v s).dispatched ≡ s.dispatched)
unfolding count_verdict
count_verdict-Alike not_run s = ((refl, refl, refl, refl, refl), refl, refl)
count_verdict-Alike (verified b d) s = ((refl, refl, refl, refl, refl), refl, refl)
count_verdict-Alike (counterexample m) s = ((refl, refl, refl, refl, refl), refl, refl)
count_verdict-Alike (unknown d) s = ((refl, refl, refl, refl, refl), refl, refl)
count_verdict-Alike (error d) s = ((refl, refl, refl, refl, refl), refl, refl)

module _ {F W : Type 0} (fl : Floats F) (out : Outside F W) (cfg : CegisConfig F) where
  -- The statistics before the sample accounting and after it.
  account_all-Alike :
      (ss : List (SampleStat F)) (l : Local F W)
      → l.stats.tokens_in ≤ u32_max
      → l.stats.tokens_out ≤ u32_max
      → let l' = account_all fl out cfg ss l in
        (l'.stats.iteration ≡ l.stats.iteration)
        × (l'.stats.synthesized ≡ l.stats.synthesized)
        × (l'.stats.dropped_mutation ≡ l.stats.dropped_mutation)
        × (l'.stats.dispatched ≡ l.stats.dispatched)
        × (l'.stats.verified ≡ l.stats.verified)
        × (l'.stats.counterexamples ≡ l.stats.counterexamples)
        × (l'.stats.tokens_in ≤ u32_max)
        × (l'.stats.tokens_out ≤ u32_max)
        × (l'.run.iterations ≡ l.run.iterations)
        × (l'.run.stop_reason ≡ l.run.stop_reason)
        × (l'.run.outcomes ≡ l.run.outcomes)
  unfolding account_all account_for_sample record_at
  account_all-Alike [] l hi ho = (refl, refl, refl, refl, refl, refl, hi, ho, refl, refl, refl)
  account_all-Alike (s ∷ ss) l hi ho =
      account_all-Alike ss _ (saturating_add-bound _ _) (saturating_add-bound _ _)

  gate_all-counts :
      (kept : List (SpecCandidate × CritiqueResult F)) (l : Local F W)
      → let g = gate_all fl out cfg kept l in
        (length g.0 + g.1.stats.dropped_mutation ≡ length kept + l.stats.dropped_mutation)
        × Alike g.1.stats l.stats
        × (g.1.stats.dispatched ≡ l.stats.dispatched)
        × (g.1.stats.verified ≡ l.stats.verified)
        × (g.1.stats.counterexamples ≡ l.stats.counterexamples)
        × (g.1.run.iterations ≡ l.run.iterations)
        × (g.1.run.stop_reason ≡ l.run.stop_reason)
        × (length g.1.run.outcomes + l.stats.dropped_mutation
            ≡ length l.run.outcomes + g.1.stats.dropped_mutation)
  unfolding gate_all pass_on drop_below push_outcome outcome_of
  gate_all-counts [] l = (refl, (refl, refl, refl, refl, refl), refl, refl, refl, refl, refl, refl)
  gate_all-counts ((c, r) ∷ kept) l =
      let cov = measured fl out cfg out.mutation_gate c l.world in
      let s : Survivor F = record { spec = c; critique = r; coverage = cov.0 } in
      let m : Local F W = record l { world = cov.1 } in
      elim (Bool-cases (is_below fl out cfg cov.0)) [
        | inl b ↦
            let (n, a, d, v, x, i, w, o) = gate_all-counts kept (drop_below fl out cfg true s m) in
            rw (b, pass_on)
              (
                omega (arith, n),
                a,
                d,
                v,
                x,
                i,
                w,
                omega
                    (arith, o, length-append l.run.outcomes (outcome_of fl out cfg s not_run ∷ [])),
              )
        | inr b ↦
            let (n, a, d, v, x, i, w, o) = gate_all-counts kept (drop_below fl out cfg false s m) in
            rw (b, pass_on) (omega (arith, n), a, d, v, x, i, w, o)
      ]

  dispatch_all-counts :
      (ss : List (Survivor F)) (l : Local F W)
      → let d = dispatch_all fl out cfg ss l in
        (d.stats.dispatched ≡ l.stats.dispatched + length ss)
        × Alike d.stats l.stats
        × (d.stats.dropped_mutation ≡ l.stats.dropped_mutation)
        × (d.stats.verified + d.stats.counterexamples
            ≤ l.stats.verified + l.stats.counterexamples + length ss)
        × (d.run.iterations ≡ l.run.iterations)
        × (d.run.stop_reason ≡ l.run.stop_reason)
        × (length d.run.outcomes ≡ length l.run.outcomes + length ss)
  unfolding dispatch_all dispatch_one push_outcome outcome_of
  dispatch_all-counts [] l =
      (omega arith, (refl, refl, refl, refl, refl), refl, omega arith, refl, refl, omega arith)
  dispatch_all-counts (s ∷ ss) l =
      let v = out.dispatcher s.spec l.world in
      let (n, (a1, a2, a3, a4, a5), m, b, i, w, o) =
        dispatch_all-counts ss (dispatch_one fl out cfg s l) in
      let ((c1, c2, c3, c4, c5), cm, cd) = count_verdict-Alike v.0 l.stats in
      (
        omega (arith, n, cd),
        (a1 ∙ c1, a2 ∙ c2, a3 ∙ c3, a4 ∙ c4, a5 ∙ c5),
        m ∙ cm,
        omega (arith, b, count_verdict-bound v.0 l.stats),
        i,
        w,
        omega (arith, o, length-append l.run.outcomes (outcome_of fl out cfg s v.0 ∷ [])),
      )

  -- A round pushes its statistics, which are consistent and carry the iteration's number, and adds
  -- an outcome for each candidate below the minimum coverage and each dispatched one.
  pub round-Consistent :
      (req : Request) (report : SynthesisReport F) (started : W) (i : ℕ) (run : CegisRun F) (w : W)
      → let r = round fl out cfg req report started i run w in
        (r.run.iterations ≡ run.iterations ++ r.stats ∷ [])
        × (r.stats.iteration ≡ i)
        × Consistent r.stats
        × (r.run.stop_reason ≡ run.stop_reason)
        × (length r.run.outcomes
            ≡ length run.outcomes + r.stats.dropped_mutation + r.stats.dispatched)
  unfolding round push_stats dispatch_phase gate_phase critique_phase synthesized_phase record_at
      filter_accepted fresh_stats
  round-Consistent req report started i run w =
      let l1 = synthesized_phase fl out cfg report i run w in
      let cs = critique_all fl out cfg req report.candidates l1.world in
      let l2 = critique_phase fl out cfg req report.candidates l1 in
      let f =
        length-filter fl cfg.min_axis report.candidates cs.0
          (length-critique_all fl out cfg req report.candidates l1.world) in
      let (a1, a2, a3, a4, a5, a6, a7, a8, a9, a10, a11) =
        account_all-Alike report.samples _ (omega arith) (omega arith) in
      let (n, (g1, g2, g3, g4, g5), gd, gv, gx, gi, gw, go) = gate_all-counts l2.0.kept l2.1 in
      let (d, (d1, d2, d3, d4, d5), dm, b, di, dw, o) =
        dispatch_all-counts (gate_phase fl out cfg l2.0.kept l2.1).0
          (gate_phase fl out cfg l2.0.kept l2.1).1 in
      (
        ap (λ is. is ++ (round fl out cfg req report started i run w).stats ∷ []) (di ∙ gi ∙ a9),
        d1 ∙ g1 ∙ a1,
        (
          omega (arith, f, n, d, dm, d2, d3, g2, g3, a2, a3, a4, gd),
          omega (arith, b, d, gd, gv, gx, a4, a5, a6),
          omega (arith, d4, g4, a7),
          omega (arith, d5, g5, a8),
        ),
        dw ∙ gw ∙ a10,
        omega (arith, o, go, ap length a11, a3, dm, d, gd, a4),
      )
