-- ===== src/Portfolio/Race/Stage.antt =====
-- Where a race can stand, whatever the schedule (crates/vergil-core/src/portfolio.rs, `dispatch`).
use vergil.Prelude.{
  String, ◌≡◌, refl, Option, none, some, List, [], ◌∷◌, inl, inr, Bool-cases, Option-cases,
  if◌then◌else◌,
}
use vergil.Solidity.Halmos.{HalmosResult}
use vergil.Solidity.SmtChecker.{SmtCheckerResult}
use vergil.Portfolio.{
  Backend, halmos, smt_checker, BackendOutcome, Verdict, Joined, halmos_to_outcome, smt_to_outcome,
  try_definitive,
}
use vergil.Portfolio.Race.{Race, Poll, start, select, run_polls, is_running}
use vergil.Portfolio.Race

-- The states after both tasks are gone: the two outcomes that were seen, the winner's verdict and
-- the aborted tasks.
abbrev pub over :
    Option BackendOutcome → Option BackendOutcome → Option Verdict → List Backend → Race
over ho so v gone = record {
  pending_halmos = none;
  pending_smt = none;
  halmos_outcome = ho;
  smt_outcome = so;
  definitive = v;
  aborted = gone;
}

module _ (property : String) (h : Joined HalmosResult) (s : Joined SmtCheckerResult) where
  abbrev pub settled_h : Option Verdict
  settled_h = try_definitive property (halmos_to_outcome h)

  abbrev pub settled_s : Option Verdict
  settled_s = try_definitive property (smt_to_outcome s)

  abbrev pub after_halmos : Race
  after_halmos = record {
    pending_halmos = none;
    pending_smt = some s;
    halmos_outcome = some (halmos_to_outcome h);
    smt_outcome = none;
    definitive = none;
    aborted = [];
  }

  abbrev pub after_smt : Race
  after_smt = record {
    pending_halmos = some h;
    pending_smt = none;
    halmos_outcome = none;
    smt_outcome = some (smt_to_outcome s);
    definitive = none;
    aborted = [];
  }

  pub data Stage (r : Race) : Type 0 where
    waiting : r ≡ start h s → Stage r
    halmos_open : settled_h ≡ none → r ≡ after_halmos → Stage r
    smt_open : settled_s ≡ none → r ≡ after_smt → Stage r
    halmos_first :
        (v : Verdict)
        → settled_h ≡ some v
        → r ≡ over (some (halmos_to_outcome h)) none (some v) (smt_checker ∷ [])
        → Stage r
    smt_first :
        (v : Verdict)
        → settled_s ≡ some v
        → r ≡ over none (some (smt_to_outcome s)) (some v) (halmos ∷ [])
        → Stage r
    halmos_second :
        (v : Verdict)
        → settled_s ≡ none
        → settled_h ≡ some v
        → r ≡ over (some (halmos_to_outcome h)) (some (smt_to_outcome s)) (some v) []
        → Stage r
    smt_second :
        (v : Verdict)
        → settled_h ≡ none
        → settled_s ≡ some v
        → r ≡ over (some (halmos_to_outcome h)) (some (smt_to_outcome s)) (some v) []
        → Stage r
    both_open :
        settled_h ≡ none
        → settled_s ≡ none
        → r ≡ over (some (halmos_to_outcome h)) (some (smt_to_outcome s)) none []
        → Stage r

  select-start : (poll : Poll) → Stage (select property poll (start h s))
  unfolding select
  select-start poll = elim (Bool-cases poll.halmos_ready) [
    | inl hr ↦ elim (Option-cases (try_definitive property (halmos_to_outcome h))) [
      | inl e ↦ halmos_open e (rw (hr, e, Race.settle_halmos))
      | inr (v, e) ↦ halmos_first v e (rw (hr, e, Race.settle_halmos))
    ]
    | inr hr ↦ elim (Bool-cases poll.smt_ready) [
      | inl sr ↦ elim (Option-cases (try_definitive property (smt_to_outcome s))) [
        | inl e ↦ smt_open e (rw (hr, sr, e, Race.settle_smt))
        | inr (v, e) ↦ smt_first v e (rw (hr, sr, e, Race.settle_smt))
      ]
      | inr sr ↦ waiting (rw (hr, sr))
    ]
  ]

  select-after_halmos : settled_h ≡ none → (poll : Poll) → Stage (select property poll after_halmos)
  unfolding select
  select-after_halmos u poll = elim (Bool-cases poll.smt_ready) [
    | inl sr ↦ elim (Option-cases (try_definitive property (smt_to_outcome s))) [
      | inl e ↦ both_open u e (rw (sr, e, Race.settle_smt))
      | inr (v, e) ↦ smt_second v u e (rw (sr, e, Race.settle_smt))
    ]
    | inr sr ↦ halmos_open u (rw sr)
  ]

  select-after_smt : settled_s ≡ none → (poll : Poll) → Stage (select property poll after_smt)
  unfolding select
  select-after_smt u poll = elim (Bool-cases poll.halmos_ready) [
    | inl hr ↦ elim (Option-cases (try_definitive property (halmos_to_outcome h))) [
      | inl e ↦ both_open e u (rw (hr, e, Race.settle_halmos))
      | inr (v, e) ↦ halmos_second v u e (rw (hr, e, Race.settle_halmos))
    ]
    | inr hr ↦ elim (Bool-cases poll.smt_ready) [
      | inl sr ↦ smt_open u (rw (hr, sr))
      | inr sr ↦ smt_open u (rw (hr, sr))
    ]
  ]

  abbrev advance : Poll → Race → Race
  advance poll r = if is_running r then select property poll r else r

  advance-Stage : (poll : Poll) (r : Race) → Stage r → Stage (advance poll r)
  unfolding is_running
  advance-Stage poll r (waiting e) = rw e (select-start poll)
  advance-Stage poll r (halmos_open o e) = rw e (select-after_halmos o poll)
  advance-Stage poll r (smt_open o e) = rw e (select-after_smt o poll)
  advance-Stage poll r (halmos_first v d e) = rw e (halmos_first v d refl)
  advance-Stage poll r (smt_first v d e) = rw e (smt_first v d refl)
  advance-Stage poll r (halmos_second v o d e) = rw e (halmos_second v o d refl)
  advance-Stage poll r (smt_second v o d e) = rw e (smt_second v o d refl)
  advance-Stage poll r (both_open a b e) = rw e (both_open a b refl)

  pub run_polls-Stage :
      (polls : List Poll) (r : Race) → Stage r → Stage (run_polls property polls r)
  unfolding run_polls
  run_polls-Stage [] r st = st
  run_polls-Stage (poll ∷ polls) r st =
      run_polls-Stage polls (advance poll r) (advance-Stage poll r st)
