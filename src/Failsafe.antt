-- ===== src/Failsafe.antt =====
-- The retry executor of the failsafe-go library, which stdtx and stdent call. It is not code of the
-- repository: a function `execute` stands for it, and `Runs` states what its documentation says of
-- a run: attempts count from 1, an attempt is repeated only after a handled failure and at most
-- `max_retries` times, and a cancelled context may end the run with an error after any attempt.
use stdgo.Base.{ℕ, suc, ◌≤◌, ◌<◌, ◌≡◌, Bool, true, false, Option, some}
use stdgo.Go.Context.{Context}
use stdgo.Go.Errors.{GoError}
use stdgo.Go.Outcome.{Outcome, returned, panicked, exited}

-- What `retrypolicy.Builder` is given. Delays are in milliseconds; `jitter` is in percent.
pub record RetryPolicy (A : Type 0) : Type 0 where
  pub handle_if : A → Option GoError → Bool
  pub backoff : Option (ℕ × ℕ)
  pub jitter : Option ℕ
  pub max_retries : ℕ

-- Panics and `Goexit` pass through the executor.
abbrev pub handled : {A : Type 0} → RetryPolicy A → Outcome A → Bool
handled p (returned a e) = p.handle_if a e
handled p (panicked v) = false
handled p exited = false

abbrev pub Execute : Type 0 → Type 0 → Type 0
Execute A S = RetryPolicy A → Context → (ℕ → S → S × Outcome A) → S → S × Outcome A

module _ {A S : Type 0} where
  -- `Runs p cancelled fn k s s' o`: from attempt `k` at state `s` the run ends at `s'` with `o`.
  pub data Runs (p : RetryPolicy A) (cancelled : S → Bool) (fn : ℕ → S → S × Outcome A)
      : ℕ → S → S → Outcome A → Type 0 where
    finished :
        {k : ℕ} {s s' : S} {o : Outcome A}
        → fn k s ≡ (s', o)
        → handled p o ≡ false
        → Runs p cancelled fn k s s' o
    again :
        {k : ℕ} {s s₁ s' : S} {o₁ o : Outcome A}
        → fn k s ≡ (s₁, o₁)
        → handled p o₁ ≡ true
        → k ≤ p.max_retries
        → Runs p cancelled fn (suc k) s₁ s' o
        → Runs p cancelled fn k s s' o
    exceeded :
        {k : ℕ} {s s' : S} {o₁ : Outcome A} (a : A) (e : GoError)
        → fn k s ≡ (s', o₁)
        → handled p o₁ ≡ true
        → p.max_retries < k
        → Runs p cancelled fn k s s' (returned a (some e))
    aborted :
        {k : ℕ} {s s' : S} {o₁ : Outcome A} (a : A) (e : GoError)
        → fn k s ≡ (s', o₁)
        → cancelled s' ≡ true
        → Runs p cancelled fn k s s' (returned a (some e))

  -- The documented behaviour of `execute`, where `cancelled` tells which contexts are done.
  abbrev pub IsExecutor : (Context → S → Bool) → Execute A S → Type 0
  IsExecutor cancelled execute =
      (p : RetryPolicy A) (ctx : Context) (fn : ℕ → S → S × Outcome A) (s : S)
      → Runs p (cancelled ctx) fn 1 s (execute p ctx fn s).0 (execute p ctx fn s).1
