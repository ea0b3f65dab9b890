-- ===== src/Portfolio/Race/Waiting.antt =====
-- When `dispatch` of crates/vergil-core/src/portfolio.rs returns, and what it leaves running.
use vergil.Prelude.{
  ℕ, suc, ◌+◌, ◌≤◌, String, ◌≡◌, refl, ◌⊎◌, inl, inr, true, false, Option, none, some, List, [],
  ◌∷◌, arith, ◌&&◌, ◌-◌, Bool-cases, if◌then◌else◌,
}
use vergil.Portfolio.{Backend, halmos, smt_checker, PortfolioConfig, PortfolioResult}
use vergil.Portfolio.Race.{
  Backends, Race, Poll, is_running, run_polls, race, select, dispatch, start, conclude,
}
use vergil.Portfolio.Race.Stage.{Stage}
use vergil.Portfolio.Race.Verdicts.{halmos_yield, smt_yield, race-Stage, dispatch-eq-some}

-- The backends whose outcome the race has seen.
abbrev pub joined : Race → List Backend
joined r = elim r.halmos_outcome [
  | none ↦ elim r.smt_outcome [ none ↦ [] | some o ↦ smt_checker ∷ [] ]
  | some o ↦ halmos ∷ elim r.smt_outcome [ none ↦ [] | some o' ↦ smt_checker ∷ [] ]
]

module _ (cfg : PortfolioConfig) (b : Backends) where
  -- Each of the two tasks was either joined or aborted, and none was both.
  abbrev pub Accounted : Race → Type 0
  Accounted r =
      ((joined r ≡ halmos ∷ smt_checker ∷ []) × (r.aborted ≡ []))
      ⊎ ((joined r ≡ halmos ∷ []) × (r.aborted ≡ smt_checker ∷ []))
      ⊎ ((joined r ≡ smt_checker ∷ []) × (r.aborted ≡ halmos ∷ []))

  Stage-Accounted :
      (r : Race)
      → Stage cfg.property (halmos_yield cfg b) (smt_yield cfg b) r
      → is_running r ≡ false
      → Accounted r
  unfolding is_running
  Stage-Accounted r (Stage.waiting e) n = absurd (cc (rw e at n))
  Stage-Accounted r (Stage.halmos_open d e) n = absurd (cc (rw e at n))
  Stage-Accounted r (Stage.smt_open d e) n = absurd (cc (rw e at n))
  Stage-Accounted r (Stage.halmos_first v d e) n = rw e (inr (inl (refl, refl)))
  Stage-Accounted r (Stage.smt_first v d e) n = rw e (inr (inr (refl, refl)))
  Stage-Accounted r (Stage.halmos_second v o d e) n = rw e (inl (refl, refl))
  Stage-Accounted r (Stage.smt_second v o d e) n = rw e (inl (refl, refl))
  Stage-Accounted r (Stage.both_open o o' e) n = rw e (inl (refl, refl))

  -- When `dispatch` returns, no backend is left running: either both tasks were joined and none
  -- aborted, or one was joined and exactly the other one aborted.
  pub dispatch-Accounted :
      (polls : List Poll) {res : PortfolioResult}
      → dispatch cfg b polls ≡ some res
      → Accounted (race cfg b polls)
  dispatch-Accounted polls h =
      Stage-Accounted (race cfg b polls) (race-Stage cfg b polls) (dispatch-eq-some cfg b polls h).0

abbrev one_if {ℓ} : {A : Type ℓ} → Option A → ℕ
one_if none = 0
one_if (some a) = 1

abbrev pending : Race → ℕ
pending r = one_if r.pending_halmos + one_if r.pending_smt

-- The polls that find both tasks finished.
unfoldable pub full_polls : List Poll → ℕ
full_polls [] = 0
full_polls (p ∷ ps) = if p.halmos_ready && p.smt_ready then suc (full_polls ps) else full_polls ps

abbrev advance : String → Poll → Race → Race
advance property p r = if is_running r then select property p r else r

advance-le : (property : String) (p : Poll) (r : Race) → pending (advance property p r) ≤ pending r
unfolding is_running select
advance-le property p r = ground arith

advance-lt :
    (property : String) (p : Poll) (r : Race)
    → p.halmos_ready && p.smt_ready ≡ true
    → pending (advance property p r) ≤ pending r - 1
unfolding is_running select
advance-lt property p r h = ground arith

run_polls-pending :
    (property : String) (ps : List Poll) (r : Race)
    → pending (run_polls property ps r) ≤ pending r - full_polls ps
unfolding run_polls full_polls
run_polls-pending property [] r = omega arith
run_polls-pending property (p ∷ ps) r = elim (Bool-cases (p.halmos_ready && p.smt_ready)) [
  | inl e ↦ rw e (
      omega
        (arith, run_polls-pending property ps (advance property p r), advance-lt property p r e))
  | inr e ↦
      rw e (
        omega
          (arith, run_polls-pending property ps (advance property p r), advance-le property p r))
]

stopped : (r : Race) → pending r ≤ 0 → is_running r ≡ false
unfolding is_running
stopped r h = ground arith

race_over :
    (cfg : PortfolioConfig) (b : Backends) (ps : List Poll)
    → 2 ≤ full_polls ps
    → pending (race cfg b ps) ≤ 0
unfolding race
race_over cfg b ps h =
    omega (arith, run_polls-pending cfg.property ps (start (halmos_yield cfg b) (smt_yield cfg b)))

-- `dispatch` returns on every schedule in which two polls find both tasks finished: it needs no
-- more than that, since each poll handles one task.
pub dispatch_total :
    (cfg : PortfolioConfig) (b : Backends) (ps : List Poll)
    → 2 ≤ full_polls ps
    → (res : PortfolioResult) × (dispatch cfg b ps ≡ some res)
dispatch_total cfg b ps h = (
  record { property = cfg.property; verdict = conclude (race cfg b ps) },
  unfold dispatch in rw (stopped (race cfg b ps) (race_over cfg b ps h)),
)
