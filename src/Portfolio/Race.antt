-- ===== src/Portfolio/Race.antt =====
-- `dispatch` of crates/vergil-core/src/portfolio.rs: the two tasks race in a biased `select!`
-- loop. The scheduler is an explicit list of polls: at each, which of the tasks has finished.
pub mod Stage
pub mod Verdicts
pub mod Waiting
use vergil.Prelude.{
  String, Bool, true, false, Option, none, some, List, [], ◌∷◌, ◌++◌, ◌&&◌, ◌||◌, all,
  if◌then◌else◌,
}
use vergil.Solidity.Halmos.{HalmosResult, HalmosRun}
use vergil.Solidity.SmtChecker.{SmtCheckerResult, SmtCheckerRun}
use vergil.Portfolio.{
  Backend, halmos, smt_checker, BackendState, BackendOutcome, Verdict, PortfolioConfig,
  PortfolioResult, Joined, halmos_to_outcome, smt_to_outcome, try_definitive, halmos_task, smt_task,
}

-- What the spawned tasks yield when they are left to finish.
pub record Backends : Type 0 where
  pub run_halmos : HalmosRun → Joined HalmosResult
  pub run_smt : SmtCheckerRun → Joined SmtCheckerResult

-- One wake-up of the `select!`: which task has finished by now.
pub record Poll : Type 0 where
  pub halmos_ready : Bool
  pub smt_ready : Bool

-- The local variables of `dispatch`; a pending task carries what it will yield. `aborted` lists
-- the tasks whose `JoinHandle::abort` was called.
pub record Race : Type 0 where
  pub pending_halmos : Option (Joined HalmosResult)
  pub pending_smt : Option (Joined SmtCheckerResult)
  pub halmos_outcome : Option BackendOutcome
  pub smt_outcome : Option BackendOutcome
  pub definitive : Option Verdict
  pub aborted : List Backend

abbrev pub is_some {ℓ} : {A : Type ℓ} → Option A → Bool
is_some none = false
is_some (some a) = true

unfoldable pub is_running : Race → Bool
is_running r = is_some r.pending_halmos || is_some r.pending_smt

-- `if let Some(h) = pending.take() { h.abort() }`
abort_if : {A : Type 0} → Option A → Backend → List Backend → List Backend
abort_if none b done = done
abort_if (some task) b done = done ++ b ∷ []

-- The first arm of the `select!`, after the join: a definitive outcome aborts the other task.
settle_halmos : Option Verdict → BackendOutcome → Race → Race
unfolding abort_if
settle_halmos (some v) outcome r = record r {
  pending_halmos = none;
  pending_smt = none;
  halmos_outcome = some outcome;
  definitive = some v;
  aborted = abort_if r.pending_smt smt_checker r.aborted;
}
settle_halmos none outcome r = record r { pending_halmos = none; halmos_outcome = some outcome }

halmos_arm : String → Joined HalmosResult → Race → Race
unfolding settle_halmos
halmos_arm property res r =
    settle_halmos (try_definitive property (halmos_to_outcome res)) (halmos_to_outcome res) r

-- The second arm.
settle_smt : Option Verdict → BackendOutcome → Race → Race
unfolding abort_if
settle_smt (some v) outcome r = record r {
  pending_halmos = none;
  pending_smt = none;
  smt_outcome = some outcome;
  definitive = some v;
  aborted = abort_if r.pending_halmos halmos r.aborted;
}
settle_smt none outcome r = record r { pending_smt = none; smt_outcome = some outcome }

smt_arm : String → Joined SmtCheckerResult → Race → Race
unfolding settle_smt
smt_arm property res r =
    settle_smt (try_definitive property (smt_to_outcome res)) (smt_to_outcome res) r

-- `biased`: the arms are tried in their order, each only while its task is pending.
select_smt : String → Bool → Option (Joined SmtCheckerResult) → Race → Race
select_smt property true (some res) r = smt_arm property res r
select_smt property _ _ r = r

select_halmos : String → Poll → Option (Joined HalmosResult) → Race → Race
select_halmos property poll none r = select_smt property poll.smt_ready r.pending_smt r
select_halmos property poll (some res) r =
    if poll.halmos_ready
    then halmos_arm property res r
    else select_smt property poll.smt_ready r.pending_smt r

unfoldable pub select : String → Poll → Race → Race
unfolding select_halmos select_smt halmos_arm smt_arm
select property poll r = select_halmos property poll r.pending_halmos r

-- The `while` loop over the polls of a schedule; after `break` nothing is pending any more.
unfoldable pub run_polls : String → List Poll → Race → Race
run_polls property [] r = r
run_polls property (poll ∷ polls) r =
    run_polls property polls (if is_running r then select property poll r else r)

abbrev pub start : Joined HalmosResult → Joined SmtCheckerResult → Race
start h s = record {
  pending_halmos = some h;
  pending_smt = some s;
  halmos_outcome = none;
  smt_outcome = none;
  definitive = none;
  aborted = [];
}

abbrev pub to_list {ℓ} : {A : Type ℓ} → Option A → List A
to_list none = []
to_list (some a) = a ∷ []

abbrev pub is_error : BackendState → Bool
is_error BackendState.error = true
is_error _ = false

abbrev not_empty : List BackendOutcome → Bool
not_empty [] = false
not_empty (o ∷ os) = true

-- The verdict without a winner.
unfoldable pub aggregate : List BackendOutcome → Verdict
aggregate outcomes =
    if not_empty outcomes && all (λ o. is_error o.state) outcomes
    then Verdict.error outcomes
    else Verdict.unknown outcomes

verdict_or : Option Verdict → Race → Verdict
verdict_or (some v) r = v
verdict_or none r = aggregate (to_list r.halmos_outcome ++ to_list r.smt_outcome)

unfoldable pub conclude : Race → Verdict
unfolding verdict_or
conclude r = verdict_or r.definitive r

-- The race that `dispatch` runs on a schedule.
unfoldable pub race : PortfolioConfig → Backends → List Poll → Race
race cfg b polls =
    run_polls cfg.property polls (start (b.run_halmos (halmos_task cfg)) (b.run_smt (smt_task cfg)))

-- `none`: the schedule ends while `dispatch` still waits for a task.
unfoldable pub dispatch : PortfolioConfig → Backends → List Poll → Option PortfolioResult
dispatch cfg b polls =
    let r = race cfg b polls in
    if is_running r then none else some (record { property = cfg.property; verdict = conclude r })
