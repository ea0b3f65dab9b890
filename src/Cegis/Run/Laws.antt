-- ===== src/Cegis/Run/Laws.antt =====
-- What a whole CEGIS run satisfies (crates/vergil-core/src/cegis.rs).
use vergil.Prelude.{
  Option, Bool-cases, Option-cases, leb, ℕ, zero, suc, ◌+◌, ◌≤◌, ◌≡◌, refl, ap, ◌∙◌, String, true,
  false, none, some, List, [], ◌∷◌, ◌++◌, Result, ok, err, length, length-append, any, inl, inr,
  arith, Result-cases, All, All-append, ◌↔◌, ◌⊎◌,
}
use vergil.Prelude.Floats.{Floats}
use vergil.Synthesis.{SynthesisReport}
use vergil.Cegis.{CegisRun, CegisConfig, Request, Outside, IterationStats}
use vergil.Cegis.Round.{round}
use vergil.Cegis.Round.Gated.{AllGated, round-AllGated}
use vergil.Cegis.Round.Counted.{Consistent, round-Consistent}
use vergil.Cegis.Run.{
  outcome_is_verified, Ending, stopped, again, decide, rounds, proceed, with_report, loop_result,
  finish, default_reason, default_run, run_with_description, Looped,
}
use vergil.Cegis.Run.Decided.{accounted, some_differently, Kept, decide-Decided}

pub Ending-cases :
    {F W : Type 0} (e : Ending F W)
    → ((run : CegisRun F) × (w : W) × (e ≡ stopped run w))
      ⊎ ((run : CegisRun F) × (w : W) × (e ≡ again run w))
Ending-cases (stopped run w) = inl (run, w, refl)
Ending-cases (again run w) = inr (run, w, refl)

accounted-append :
    (is : List IterationStats) (s : IterationStats)
    → accounted (is ++ s ∷ []) ≡ accounted is + s.dropped_mutation + s.dispatched
accounted-append [] s = omega arith
accounted-append (t ∷ is) s = omega (arith, accounted-append is s)

leb-below : (m i : ℕ) → leb m i ≡ false → i + 1 ≤ m
leb-below m i h = ground arith

module _ {F W : Type 0} (fl : Floats F) (out : Outside F W) (cfg : CegisConfig F) where
  -- The rounds of a run; there are none behind an error.
  abbrev pub rounds_of : Result String (CegisRun F × W) → ℕ
  rounds_of (err e) = 0
  rounds_of (ok (run, w)) = length run.iterations

  abbrev Sound : Request → CegisRun F → Type 0
  Sound req run =
      AllGated fl out cfg req run
      × All Consistent run.iterations
      × (accounted run.iterations ≡ length run.outcomes)

  -- The run before a round.
  abbrev Going : Request → CegisRun F → Type 0
  Going req run =
      Sound req run × (any outcome_is_verified run.outcomes ≡ false) × (run.stop_reason ≡ none)

  -- The run after the loop.
  abbrev Ended : Request → CegisRun F → Type 0
  Ended req run =
      Sound req run
      × (length run.iterations ≤ cfg.max_iterations)
      × ((run.stop_reason ≡ some "verified") ↔ (any outcome_is_verified run.outcomes ≡ true))
      × ((why : String) × (run.stop_reason ≡ some why))

  Kept-Sound :
      (req : Request) (run next : CegisRun F) → Kept run next → Sound req run → Sound req next
  Kept-Sound req run next (o, n, c, a) (g, cs, e) = (rw o g, c cs, omega (arith, a, e, ap length o))

  round-Sound :
      (req : Request) (report : SynthesisReport F) (started : W) (i : ℕ) (run : CegisRun F) (w : W)
      → Sound req run
      → Sound req (round fl out cfg req report started i run w).run
  round-Sound req report started i run w (g, cs, a) =
      let r = round fl out cfg req report started i run w in
      let (is, n, c, s, o) = round-Consistent fl out cfg req report started i run w in
      (
        round-AllGated fl out cfg req report started i run w g,
        rw is (All-append Consistent run.iterations _ cs (c, tt)),
        omega (arith, ap accounted is, accounted-append run.iterations r.stats, o, a),
      )

  abbrev Ends : Request → Option (Result String (Looped fl out cfg)) → Type 0
  Ends req none = ⊥
  Ends req (some (err e)) = Unit {0}
  Ends req (some (ok (i, run, w))) = Ended req run

  after_round :
      (req : Request) (report : SynthesisReport F) (started : W) (i : ℕ) (run : CegisRun F) (w : W)
      → Going req run
      → length run.iterations ≡ i
      → let r = round fl out cfg req report started i run w in
        Sound req r.run × (length r.run.iterations ≡ i + 1) × (r.run.stop_reason ≡ none)
  after_round req report started i run w (s, fresh, reason) n =
      let r = round fl out cfg req report started i run w in
      let (is, k, c, same, o) = round-Consistent fl out cfg req report started i run w in
      (
        round-Sound req report started i run w s,
        omega (arith, ap length is, length-append run.iterations (r.stats ∷ []), n),
        same ∙ reason,
      )

  -- With fuel for the iterations that are left and one more, the loop ends.
  rounds-Ends :
      (req : Request) (fuel i : ℕ) (run : CegisRun F) (w : W)
      → Going req run
      → length run.iterations ≡ i
      → i ≤ cfg.max_iterations
      → cfg.max_iterations + 1 ≤ i + fuel
      → Ends req (rounds fl out cfg req fuel i run w)
  unfolding rounds
  rounds-Ends req zero i run w g n b enough = omega (arith, b, enough)
  rounds-Ends req (suc fuel) i run w (s, fresh, reason) n b enough =
      elim (Bool-cases (leb cfg.max_iterations i)) [
        | inl full ↦
            rw (Ends, rounds, full)
              (
                s,
                omega (arith, n, b),
                (
                  λ e. absurd (some_differently "max_iterations (" _ refl e),
                  λ found. cc (found, fresh),
                ),
                (_, refl),
              )
        | inr more ↦ elim (Result-cases (out.synthesize req w).0) [
          | inr (m, e) ↦ rw (Ends, rounds, more, e, with_report) tt
          | inl (report, e) ↦
              let w1 = (out.synthesize req w).1 in
              let r = round fl out cfg req report w i run w1 in
              let (s', n', reason') = after_round req report w i run w1 (s, fresh, reason) n in
              let d = decide-Decided fl out cfg req r.run r.world in
              let below : i + 1 ≤ cfg.max_iterations = leb-below cfg.max_iterations i more in
              elim (Ending-cases (decide fl out cfg req r.run r.world)) [
                | inl (done, w2, q) ↦
                    let (k, v, why) = rw q at d in
                    rw (Ends, rounds, more, e, with_report, q, proceed)
                      (Kept-Sound req r.run done k s', omega (arith, n', k.1, below), rw k.0 v, why)
                | inr (next, w2, q) ↦
                    let (k, same, none_yet) = rw q at d in
                    rw (Ends, rounds, more, e, with_report, q, proceed)
                      (rounds-Ends req fuel (i + 1) next w2
                        (Kept-Sound req r.run next k s', rw k.0 none_yet, same ∙ reason')
                        (omega (arith, n', k.1)) below (omega (arith, enough)))
              ]
        ]
      ]

  abbrev Returned : Request → Option (Result String (CegisRun F × W)) → Type 0
  Returned req none = ⊥
  Returned req (some (err e)) = Unit {0}
  Returned req (some (ok (run, w))) = Ended req run

  run-Returned : (req : Request) (w : W) → Returned req (run_with_description fl out cfg req w)
  unfolding run_with_description default_run loop_result finish default_reason
  run-Returned req w =
      let start = default_run fl out cfg in
      let looped = rounds fl out cfg req (suc cfg.max_iterations) 0 start w in
      let ends =
        rounds-Ends req (suc cfg.max_iterations) 0 start w ((tt, tt, refl), refl, refl) refl
          (omega arith) (omega arith) in
      elim (Option-cases looped) [
        | inl e ↦ absurd (rw e at ends)
        | inr (result, e) ↦ elim (Result-cases result) [
          | inr (m, f) ↦ rw (Returned, run_with_description, e, f, loop_result) tt
          | inl ((i, run, w2), f) ↦
              let (s, n, v, (why, h)) = rw (e, f) at ends in
              rw (Returned, run_with_description, e, f, loop_result, finish, h, default_reason)
                (s, n, rw h at v, (why, refl))
        ]
      ]

  run-Ended :
      (req : Request) (w : W) (run : CegisRun F) (w' : W)
      → run_with_description fl out cfg req w ≡ some (ok (run, w'))
      → Ended req run
  run-Ended req w run w' e = rw e at (run-Returned req w)

  pub run-AllGated :
      (req : Request) (w : W) (run : CegisRun F) (w' : W)
      → run_with_description fl out cfg req w ≡ some (ok (run, w'))
      → AllGated fl out cfg req run
  run-AllGated req w run w' e = (run-Ended req w run w' e).0.0

  -- A returned run has at most max_iterations rounds; in each, the candidates that were synthesized
  -- are those dropped by the critic, dropped by the mutation gate and dispatched, the verdicts
  -- counted are at most the dispatches and the token counts fit in a u32; and the outcomes are as
  -- many as the rounds dropped at the mutation gate and dispatched.
  pub run_with_description-Consistent :
      (req : Request) (w : W) (run : CegisRun F) (w' : W)
      → run_with_description fl out cfg req w ≡ some (ok (run, w'))
      → (length run.iterations ≤ cfg.max_iterations)
        × All Consistent run.iterations
        × (accounted run.iterations ≡ length run.outcomes)
  run_with_description-Consistent req w run w' e =
      let ((g, cs, a), n, v, why) = run-Ended req w run w' e in (n, cs, a)

  -- The reason that a returned run stopped for is always set, and it is "verified" exactly when
  -- some outcome is verified.
  pub run_with_description-verified_iff :
      (req : Request) (w : W) (run : CegisRun F) (w' : W)
      → run_with_description fl out cfg req w ≡ some (ok (run, w'))
      → ((why : String) × (run.stop_reason ≡ some why))
        × ((run.stop_reason ≡ some "verified") ↔ (any outcome_is_verified run.outcomes ≡ true))
  run_with_description-verified_iff req w run w' e =
      let (s, n, v, why) = run-Ended req w run w' e in (why, v)
