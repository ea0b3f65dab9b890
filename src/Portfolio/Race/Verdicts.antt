-- ===== src/Portfolio/Race/Verdicts.antt =====
-- What `dispatch` of crates/vergil-core/src/portfolio.rs reports, whatever the schedule.
use vergil.Prelude.{
  ℕ, String, ◌≡◌, refl, sym, ap, ◌∙◌, ◌⊎◌, ◌↔◌, inl, inr, false, Option, none, some, List, [], ◌∷◌,
  ok, err, ◌≢◌, arith,
}
use vergil.Solidity.Halmos.{HalmosResult}
use vergil.Solidity.SmtChecker.{SmtCheckerResult}
use vergil.Portfolio.{
  Backend, halmos, smt_checker, BackendState, BackendOutcome, Verdict, PortfolioConfig,
  PortfolioResult, Joined, halmos_to_outcome, smt_to_outcome, try_definitive, halmos_task, smt_task,
}
use vergil.Portfolio.Race.{
  Backends, Race, Poll, start, is_running, race, aggregate, conclude, dispatch,
}
use vergil.Portfolio.Race.Stage.{Stage, run_polls-Stage}

module _ (cfg : PortfolioConfig) (b : Backends) where
  abbrev pub halmos_yield : Joined HalmosResult
  halmos_yield = b.run_halmos (halmos_task cfg)

  abbrev pub smt_yield : Joined SmtCheckerResult
  smt_yield = b.run_smt (smt_task cfg)

  abbrev pub halmos_says : Option Verdict
  halmos_says = try_definitive cfg.property (halmos_to_outcome halmos_yield)

  abbrev pub smt_says : Option Verdict
  smt_says = try_definitive cfg.property (smt_to_outcome smt_yield)

  abbrev pub both_outcomes : List BackendOutcome
  both_outcomes = halmos_to_outcome halmos_yield ∷ smt_to_outcome smt_yield ∷ []

  pub race-Stage :
      (polls : List Poll) → Stage cfg.property halmos_yield smt_yield (race cfg b polls)
  unfolding race
  race-Stage polls =
      run_polls-Stage cfg.property halmos_yield smt_yield polls (start halmos_yield smt_yield)
        (Stage.waiting refl)

  pub dispatch-eq-some :
      (polls : List Poll) {res : PortfolioResult}
      → dispatch cfg b polls ≡ some res
      → (is_running (race cfg b polls) ≡ false)
        × (res.verdict ≡ conclude (race cfg b polls))
        × (res.property ≡ cfg.property)
  unfolding dispatch
  dispatch-eq-some polls h = ground arith

  -- The verdicts that a finished race can report.
  abbrev pub Reported : Verdict → Type 0
  Reported v =
      (halmos_says ≡ some v)
      ⊎ (smt_says ≡ some v)
      ⊎ ((halmos_says ≡ none) × (smt_says ≡ none) × (v ≡ aggregate both_outcomes))

  conclude-Reported :
      (r : Race)
      → Stage cfg.property halmos_yield smt_yield r
      → is_running r ≡ false
      → Reported (conclude r)
  unfolding conclude is_running
  conclude-Reported r (Stage.waiting e) n = cc (rw e at n)
  conclude-Reported r (Stage.halmos_open d e) n = cc (rw e at n)
  conclude-Reported r (Stage.smt_open d e) n = cc (rw e at n)
  conclude-Reported r (Stage.halmos_first v d e) n = rw e (inl d)
  conclude-Reported r (Stage.smt_first v d e) n = rw e (inr (inl d))
  conclude-Reported r (Stage.halmos_second v o d e) n = rw e (inl d)
  conclude-Reported r (Stage.smt_second v o d e) n = rw e (inr (inl d))
  conclude-Reported r (Stage.both_open o o' e) n = rw e (inr (inr (o, o', refl)))

  -- A returned verdict is the definitive verdict of one of the two backends, or, when neither is
  -- definitive, the aggregate of both outcomes in the order Halmos, SMTChecker; and the result
  -- names the property that was asked.
  pub dispatch-Reported :
      (polls : List Poll) {res : PortfolioResult}
      → dispatch cfg b polls ≡ some res
      → Reported res.verdict × (res.property ≡ cfg.property)
  dispatch-Reported polls h =
      let facts = dispatch-eq-some polls h in
      (rw facts.1 (conclude-Reported (race cfg b polls) (race-Stage polls) facts.0), facts.2)

halmos_verified :
    (property : String) (y : Joined HalmosResult) {backend : Backend} {ms : ℕ} {sha : Option String}
    → try_definitive property (halmos_to_outcome y) ≡ some (Verdict.verified backend ms sha)
    → (backend ≡ halmos)
      × (p : String) × (paths : ℕ) × (y ≡ ok (HalmosResult.verified p paths ms sha))
unfolding try_definitive halmos_to_outcome
halmos_verified property (ok (HalmosResult.verified p paths ms sha)) h =
    (cc, p, paths, ground arith)
halmos_verified property (ok (HalmosResult.counterexample t ms)) h = absurd (cc)
halmos_verified property (ok (HalmosResult.unknown p reason ms)) h = absurd (cc)
halmos_verified property (ok (HalmosResult.timeout p ms)) h = absurd (cc)
halmos_verified property (ok (HalmosResult.error stage m)) h = absurd (cc)
halmos_verified property (err e) h = absurd (cc)

smt_verified :
    (property : String) (y : Joined SmtCheckerResult) {backend : Backend} {ms : ℕ}
    {sha : Option String}
    → try_definitive property (smt_to_outcome y) ≡ some (Verdict.verified backend ms sha)
    → (backend ≡ smt_checker) × (count : ℕ) × (y ≡ ok (SmtCheckerResult.verified count ms sha))
unfolding try_definitive smt_to_outcome
smt_verified property (ok (SmtCheckerResult.verified count ms sha)) h = (cc, count, ground arith)
smt_verified property (ok (SmtCheckerResult.violation k m ms)) h = absurd (cc)
smt_verified property (ok (SmtCheckerResult.unknown reason ms)) h = absurd (cc)
smt_verified property (ok (SmtCheckerResult.error m)) h = absurd (cc)
smt_verified property (err e) h = absurd (cc)

aggregate-ne-verified :
    (os : List BackendOutcome) (backend : Backend) (ms : ℕ) (sha : Option String)
    → Verdict.verified backend ms sha ≢ aggregate os
unfolding aggregate
aggregate-ne-verified os backend ms sha h = ground arith

module _ (cfg : PortfolioConfig) (b : Backends) where
  -- If a schedule makes `dispatch` return Verified for a backend, with a time and a query digest,
  -- then that very backend's own run returned Verified with that time and that digest.
  pub dispatch-verified :
      (polls : List Poll) {res : PortfolioResult} {backend : Backend} {ms : ℕ} {sha : Option String}
      → dispatch cfg b polls ≡ some res
      → res.verdict ≡ Verdict.verified backend ms sha
      → (backend ≡ halmos)
          × ((p : String) × (paths : ℕ) × (halmos_yield cfg b
                ≡ ok (HalmosResult.verified p paths ms sha)))
        ⊎ (backend ≡ smt_checker)
          × ((count : ℕ) × (smt_yield cfg b ≡ ok (SmtCheckerResult.verified count ms sha)))
  dispatch-verified polls {backend = backend} {ms = ms} {sha = sha} h v =
      elim (dispatch-Reported cfg b polls h).0 [
        | inl e ↦
            let k = halmos_verified cfg.property (halmos_yield cfg b) (e ∙ ap some v) in
            inl (k.0, (k.1, k.2, k.3))
        | inr (inl e) ↦
            let k = smt_verified cfg.property (smt_yield cfg b) (e ∙ ap some v) in
            inr (k.0, (k.1, k.2))
        | inr (inr (o, o', e)) ↦
            absurd (aggregate-ne-verified (both_outcomes cfg b) backend ms sha (sym v ∙ e))
      ]

  -- When at most one backend is definitive, every two schedules on which `dispatch` returns give
  -- the same result: the order in which the backends finish does not matter.
  pub dispatch_order_free :
      (polls polls' : List Poll) {res res' : PortfolioResult}
      → (halmos_says cfg b ≡ none) ⊎ (smt_says cfg b ≡ none)
      → dispatch cfg b polls ≡ some res
      → dispatch cfg b polls' ≡ some res'
      → res ≡ res'
  dispatch_order_free polls polls' one h h' =
      ground (arith, dispatch-Reported cfg b polls h, dispatch-Reported cfg b polls' h')

error_is_open :
    (property : String) (o : BackendOutcome)
    → o.state ≡ BackendState.error
    → try_definitive property o ≡ none
unfolding try_definitive
error_is_open property o e = rw e

definitive-ne-error :
    (property : String) (o : BackendOutcome) (os : List BackendOutcome)
    → try_definitive property o ≢ some (Verdict.error os)
unfolding try_definitive
definitive-ne-error property o os h = ground arith

aggregate-error :
    (o o' : BackendOutcome) (os : List BackendOutcome)
    → Verdict.error os ≡ aggregate (o ∷ o' ∷ [])
    → (o.state ≡ BackendState.error) × (o'.state ≡ BackendState.error)
unfolding aggregate
aggregate-error o o' os h = ground arith

error-aggregate :
    (o o' : BackendOutcome)
    → o.state ≡ BackendState.error
    → o'.state ≡ BackendState.error
    → aggregate (o ∷ o' ∷ []) ≡ Verdict.error (o ∷ o' ∷ [])
unfolding aggregate
error-aggregate o o' e e' = ground arith

module _ (cfg : PortfolioConfig) (b : Backends) where
  abbrev BothFail : Type 0
  BothFail =
      ((halmos_to_outcome (halmos_yield cfg b)).state ≡ BackendState.error)
      × ((smt_to_outcome (smt_yield cfg b)).state ≡ BackendState.error)

  fail-of-error :
      {v : Verdict} (os : List BackendOutcome) → Reported cfg b v → v ≡ Verdict.error os → BothFail
  fail-of-error os (inl h) e = absurd (definitive-ne-error _ _ os (h ∙ ap some e))
  fail-of-error os (inr (inl h)) e = absurd (definitive-ne-error _ _ os (h ∙ ap some e))
  fail-of-error os (inr (inr (o, o', h))) e = aggregate-error _ _ os (sym e ∙ h)

  error-of-fail :
      {v : Verdict} → Reported cfg b v → BothFail → v ≡ Verdict.error (both_outcomes cfg b)
  error-of-fail (inl h) f =
      absurd (cc (error_is_open cfg.property (halmos_to_outcome (halmos_yield cfg b)) f.0))
  error-of-fail (inr (inl h)) f =
      absurd (cc (error_is_open cfg.property (smt_to_outcome (smt_yield cfg b)) f.1))
  error-of-fail (inr (inr (o, o', h))) f = h ∙ error-aggregate _ _ f.0 f.1

  -- A returned verdict is Error exactly when the outcomes of both backends are errors.
  pub dispatch-error_iff :
      (polls : List Poll) {res : PortfolioResult}
      → dispatch cfg b polls ≡ some res
      → ((os : List BackendOutcome) × (res.verdict ≡ Verdict.error os)) ↔ (
          ((halmos_to_outcome (halmos_yield cfg b)).state ≡ BackendState.error)
          × ((smt_to_outcome (smt_yield cfg b)).state ≡ BackendState.error))
  dispatch-error_iff polls h =
      let reported = (dispatch-Reported cfg b polls h).0 in
      (
        (λ p. fail-of-error p.0 reported p.1),
        (λ f. (both_outcomes cfg b, error-of-fail reported f)),
      )
