-- ===== src/Retry/Laws.antt =====
-- How often the retry loop calls and sleeps (crates/vergil-llm/src/retry.rs).
use vergil.Prelude.{
  ℕ, zero, suc, ◌+◌, ◌≤◌, ◌<◌, ◌≡◌, refl, Bool, true, false, some, Result, ok, err, arith,
}
use vergil.Retry.{
  LlmError, transient, permanent, auth, schema, rate_limit, context_length, Outside, is_retried,
  with_retry, attempts, settle, wait, retry_delay, delayed, exp_with_jitter, or_none_made,
}

-- A counter of the outside's calls, or of its sleeps.
pub record Counter (W : Type 0) : Type 0 where
  pub calls : W → ℕ
  pub sleeps : W → ℕ

abbrev pub gives_up : {A : Type 0} → Result LlmError A → Bool
gives_up (ok v) = false
gives_up (err e) = is_retried e

module _ {A W : Type 0} (out : Outside A W) (n : Counter W) where
  -- The counters count what the loop does with the outside.
  abbrev pub Counts : Type 0
  Counts =
      ((w : W)
        → (n.calls (out.call w).1 ≡ suc (n.calls w)) × (n.sleeps (out.call w).1 ≡ n.sleeps w))
      × ((d : ℕ) (w : W)
          → (n.calls (out.sleep d w) ≡ n.calls w) × (n.sleeps (out.sleep d w) ≡ suc (n.sleeps w)))
      × ((w : W)
          → (n.calls (out.jitter w).1 ≡ n.calls w) × (n.sleeps (out.jitter w).1 ≡ n.sleeps w))

  -- From the state `w`, with `left` attempts: when the loop gives up on an error that is retried,
  -- every attempt was made and was followed by a sleep; otherwise at least one was made, and all
  -- but the last were followed by a sleep.
  abbrev pub Ran : ℕ → W → Result LlmError A × W → Type 0
  Ran left w r =
      (gives_up r.0 ≡ true → (n.calls r.1 ≡ n.calls w + left) × (n.sleeps r.1 ≡ n.sleeps w + left))
      × (gives_up r.0 ≡ false
          → (n.calls w < n.calls r.1)
            × (n.calls r.1 ≤ n.calls w + left)
            × (n.sleeps r.1 + n.calls w + 1 ≡ n.sleeps w + n.calls r.1))

  slept-Ran :
      (d : ℕ) (left : ℕ) (w w1 w2 : W) (r : Result LlmError A × W)
      → Counts
      → (n.calls w1 ≡ suc (n.calls w)) × (n.sleeps w1 ≡ n.sleeps w)
      → (n.calls w2 ≡ n.calls w1) × (n.sleeps w2 ≡ n.sleeps w1)
      → Ran left (out.sleep d w2) r
      → Ran (suc left) w r
  slept-Ran d left w w1 w2 r (call, sleep, jitter) (c1, s1) (c2, s2) (up, down) =
      let (c3, s3) = sleep d w2 in
      (
        (λ g. let (a, b) = up g in (omega (arith, a, c1, c2, c3), omega (arith, b, s1, s2, s3))),
        (λ g.
            let (a, b, c) = down g in
            (
              omega (arith, a, c1, c2, c3),
              omega (arith, b, c1, c2, c3),
              omega (arith, c, c1, c2, c3, s1, s2, s3),
            )),
      )

  settle-Ran :
      (p : Result LlmError A × W) (attempt left : ℕ) (w : W)
      (rest : LlmError → W → Result LlmError A × W)
      → Counts
      → (n.calls p.1 ≡ suc (n.calls w)) × (n.sleeps p.1 ≡ n.sleeps w)
      → ((e : LlmError) (w2 : W) → is_retried e ≡ true → Ran left w2 (rest e w2))
      → Ran (suc left) w (settle out p attempt rest)
  unfolding settle wait retry_delay exp_with_jitter delayed
  settle-Ran (ok v, w1) attempt left w rest k (c, s) ih =
      ((λ g. cc g), λ g. (omega (arith, c), omega (arith, c), omega (arith, c, s)))
  settle-Ran (err (transient m), w1) attempt left w rest k (c, s) ih =
      slept-Ran _ left w w1 (out.jitter w1).1 _ k (c, s) (k.2 w1) (ih (transient m) _ refl)
  settle-Ran (err (rate_limit d), w1) attempt left w rest k (c, s) ih =
      slept-Ran _ left w w1 (out.jitter w1).1 _ k (c, s) (k.2 w1) (ih (rate_limit d) _ refl)
  settle-Ran (err (permanent m), w1) attempt left w rest k (c, s) ih =
      ((λ g. cc g), λ g. (omega (arith, c), omega (arith, c), omega (arith, c, s)))
  settle-Ran (err (auth m), w1) attempt left w rest k (c, s) ih =
      ((λ g. cc g), λ g. (omega (arith, c), omega (arith, c), omega (arith, c, s)))
  settle-Ran (err (schema m), w1) attempt left w rest k (c, s) ih =
      ((λ g. cc g), λ g. (omega (arith, c), omega (arith, c), omega (arith, c, s)))
  settle-Ran (err (context_length a b), w1) attempt left w rest k (c, s) ih =
      ((λ g. cc g), λ g. (omega (arith, c), omega (arith, c), omega (arith, c, s)))

  attempts-Ran :
      (left attempt : ℕ) (e : LlmError) (w : W)
      → Counts
      → is_retried e ≡ true
      → Ran left w (attempts out left attempt (some e) w)
  unfolding attempts or_none_made
  attempts-Ran zero attempt e w k h = ((λ g. (omega arith, omega arith)), λ g. cc (g, h))
  attempts-Ran (suc left) attempt e w k h =
      settle-Ran (out.call w) attempt left w _ k (k.0 w)
        (λ e2 w2 h2. attempts-Ran left (suc attempt) e2 w2 k h2)

  with_retry-Ran : (w : W) → Counts → Ran 3 w (with_retry out w)
  unfolding with_retry attempts
  with_retry-Ran w k =
      settle-Ran (out.call w) 0 2 w _ k (k.0 w) (λ e w2 h. attempts-Ran 2 1 e w2 k h)

  -- When the counters count the calls and the sleeps, a loop that gives up on a transient error or a
  -- rate limit has made exactly three calls and has slept three times, also after the last call.
  pub with_retry-gives_up :
      (w : W)
      → Counts
      → gives_up (with_retry out w).0 ≡ true
      → (n.calls (with_retry out w).1 ≡ n.calls w + 3)
        × (n.sleeps (with_retry out w).1 ≡ n.sleeps w + 3)
  with_retry-gives_up w k g = (with_retry-Ran w k).0 g

  -- When the counters count the calls and the sleeps, a loop that returns a value or any other error
  -- has made one to three calls, and has slept exactly once between each two of them.
  pub with_retry-returns :
      (w : W)
      → Counts
      → gives_up (with_retry out w).0 ≡ false
      → (n.calls w < n.calls (with_retry out w).1)
        × (n.calls (with_retry out w).1 ≤ n.calls w + 3)
        × (n.sleeps (with_retry out w).1 + n.calls w + 1
            ≡ n.sleeps w + n.calls (with_retry out w).1)
  with_retry-returns w k g = (with_retry-Ran w k).1 g
