-- ===== src/Retry.antt =====
-- The retry loop of the providers (crates/vergil-llm/src/retry.rs), with the errors of
-- crates/vergil-llm/src/lib.rs. Durations are in milliseconds; `W` is the state of the outside.
pub mod Laws
pub mod Examples
use vergil.Prelude.{
  ℕ, zero, suc, ◌+◌, ◌*◌, ◌^◌, ◌≡◌, String, Bool, true, false, Option, none, some, Result, ok, err,
  min,
}

pub data LlmError : Type 0 where
  transient permanent auth schema : (message : String) → LlmError
  rate_limit : (wait : ℕ) → LlmError
  context_length : (needed max_tokens : ℕ) → LlmError

abbrev pub max_attempts : ℕ
max_attempts = 3

abbrev base_delay : ℕ
base_delay = 200

-- `Duration::MAX` in whole milliseconds, where `saturating_mul` stops.
abbrev duration_max : ℕ
duration_max = 18446744073709551615 * 1000 + 999

-- A call of the provider, the sleep, and the random jitter below 250 milliseconds.
pub record Outside (A W : Type 0) : Type 0 where
  pub call : W → Result LlmError A × W
  pub sleep : ℕ → W → W
  pub jitter : W → ℕ × W

or_none_made : Option LlmError → LlmError
or_none_made none = permanent "retry: no attempts made"
or_none_made (some e) = e

abbrev pub is_retried : LlmError → Bool
is_retried (transient m) = true
is_retried (rate_limit d) = true
is_retried _ = false

module _ {A W : Type 0} (out : Outside A W) where
  delayed : ℕ → ℕ × W → Option ℕ × W
  delayed base (j, w) = (some (base + j), w)

  exp_with_jitter : ℕ → W → Option ℕ × W
  unfolding delayed
  exp_with_jitter attempt w = delayed (min (base_delay * 2 ^ attempt) duration_max) (out.jitter w)

  retry_delay : LlmError → ℕ → W → Option ℕ × W
  unfolding exp_with_jitter delayed
  retry_delay (transient m) attempt w = exp_with_jitter attempt w
  retry_delay (rate_limit d) attempt w = delayed d (out.jitter w)
  retry_delay _ attempt w = (none, w)

  -- The match on the delay.
  wait : Option ℕ × W → LlmError → (LlmError → W → Result LlmError A × W) → Result LlmError A × W
  wait (none, w) e rest = (err e, w)
  wait (some d, w) e rest = rest e (out.sleep d w)

  settle :
      Result LlmError A × W → ℕ → (LlmError → W → Result LlmError A × W) → Result LlmError A × W
  unfolding wait retry_delay
  settle (ok v, w) attempt rest = (ok v, w)
  settle (err e, w) attempt rest = wait (retry_delay e attempt w) e rest

  -- The loop over the attempts that are left, after the last error.
  attempts : (left attempt : ℕ) → Option LlmError → W → Result LlmError A × W
  unfolding settle
  attempts zero attempt last w = (err (or_none_made last), w)
  attempts (suc left) attempt last w =
      settle (out.call w) attempt (λ e w2. attempts left (suc attempt) (some e) w2)

  unfoldable pub with_retry : W → Result LlmError A × W
  unfolding attempts or_none_made
  with_retry w = attempts max_attempts 0 none w
