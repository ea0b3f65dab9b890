-- ===== src/Retry/Examples.antt =====
-- A retried call at concrete inputs (crates/vergil-llm/src/retry.rs).
use vergil.Prelude.{
  ℕ, suc, ◌+◌, ◌≡◌, ◌<◌, ◌≤◌, true, false, refl, String, ok, err, if◌then◌else◌, ltb,
}
use vergil.Retry.{transient, Outside, with_retry}
use vergil.Retry.Laws.{Counter, Counts, gives_up, with_retry-gives_up, with_retry-returns}

-- The state counts the calls and the sleeps.
abbrev Log : Type 0
Log = ℕ × ℕ

-- A provider that answers from its third call on.
abbrev outside : Outside String Log
outside = record {
  call = λ w. (if ltb w.0 2 then err (transient "503") else ok "answer", (suc w.0, w.1));
  sleep = λ d w. (w.0, suc w.1);
  jitter = λ w. (17, w);
}

abbrev counter : Counter Log
counter = record { calls = λ w. w.0; sleeps = λ w. w.1 }

abbrev outside_counts : Counts outside counter
outside_counts = ((λ w. (refl, refl)), (λ d w. (refl, refl)), (λ w. (refl, refl)))

-- A provider that never answers.
abbrev busy : Outside String Log
busy = record outside { call = λ w. (err (transient "503"), (suc w.0, w.1)) }

abbrev busy_counts : Counts busy counter
busy_counts = ((λ w. (refl, refl)), (λ d w. (refl, refl)), (λ w. (refl, refl)))

retry_run : with_retry outside (0, 0) ≡ (ok "answer", (3, 2))
unfolding with_retry
retry_run = refl

answered : gives_up (with_retry outside (0, 0)).0 ≡ false
unfolding with_retry
answered = refl

gave_up : gives_up (with_retry busy (0, 0)).0 ≡ true
unfolding with_retry
gave_up = refl

with_retry-returns_example :
    (0 < counter.calls (with_retry outside (0, 0)).1)
    × (counter.calls (with_retry outside (0, 0)).1 ≤ 3)
    × (counter.sleeps (with_retry outside (0, 0)).1 + 0 + 1
        ≡ 0 + counter.calls (with_retry outside (0, 0)).1)
with_retry-returns_example = with_retry-returns outside counter (0, 0) outside_counts answered

with_retry-gives_up_example :
    (counter.calls (with_retry busy (0, 0)).1 ≡ 3) × (counter.sleeps (with_retry busy (0, 0)).1 ≡ 3)
with_retry-gives_up_example = with_retry-gives_up busy counter (0, 0) busy_counts gave_up
