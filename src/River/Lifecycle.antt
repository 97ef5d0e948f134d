-- ===== src/River/Lifecycle.antt =====
-- `Workers` of fx/stdriverfx/work.go: its hooks and its queries. A call with a context that times out
-- is given the timeout, in nanoseconds.
pub mod Stopping
use stdgo.Base.{
  ℕ, String, Bool, true, false, not, ◌&&◌, ◌||◌, Option, none, some, List, ◌∷◌, ◌≡◌, ◌≢◌, ◌⊎◌, inl,
  inr, refl, if◌then◌else◌, Bool-cases,
}
use stdgo.Go.Context.{Context}
use stdgo.Go.Errors.{
  GoError, Sentinel, deadline_exceeded, context_canceled, wrap, is, Result, ok, err,
}
use stdgo.Go.Results.{wrapping, wrap_error}

pub record Config : Type 0 where
  pub soft_stop_timeout : ℕ
  pub hard_stop_timeout : ℕ

-- `Client`; `J` is the type of lists of jobs.
pub record Client (S Tx J : Type 0) : Type 0 where
  pub start : Context → S → S × Option GoError
  pub stop : Context → (timeout : ℕ) → S → S × Option GoError
  pub stop_and_cancel : Context → (timeout : ℕ) → S → S × Option GoError
  pub first_job : Context → S → S × Result J
  pub jobs_of_kinds_tx : Context → Tx → List String → S → S × Result J

pub record Workers (S Tx J : Type 0) : Type 0 where
  pub cfg : Config
  pub client : Client S Tx J
  pub ctx : Context

abbrev error_of : {A : Type 0} → Result A → Option GoError
error_of (ok a) = none
error_of (err e) = some e

module _ {S Tx J : Type 0} (w : Workers S Tx J) where
  unfoldable pub ping : Context → S → S × Option GoError
  ping ctx s =
      let (s', r) = w.client.first_job ctx s in (s', wrap_error "list worker jobs" (error_of r))

  unfoldable pub get_job_by_kinds :
      Context → Tx → (kind : String) → (more_kinds : List String) → S → S × Result J
  get_job_by_kinds ctx tx kind more_kinds s =
      let (s', r) = w.client.jobs_of_kinds_tx ctx tx (kind ∷ more_kinds) s in
      (s', wrapping "job list tx" r)

  -- The hook's own context is not used.
  unfoldable pub start : S → S × Option GoError
  start s = let (s', e) = w.client.start w.ctx s in (s', wrap_error "start River client" e)

  abbrev pub after_hard_stop : S × Option GoError → S × Option GoError
  after_hard_stop (s, none) = (s, none)
  after_hard_stop (s, some e) =
      if is e deadline_exceeded then (s, none) else (s, some (wrap "hard stop" e))

  abbrev pub timed_out : GoError → Bool
  timed_out e = is e deadline_exceeded || is e context_canceled

  abbrev pub after_soft_stop : Context → S × Option GoError → S × Option GoError
  after_soft_stop ctx (s, none) = (s, none)
  after_soft_stop ctx (s, some e) =
      if timed_out e
      then after_hard_stop (w.client.stop_and_cancel ctx w.cfg.hard_stop_timeout s)
      else (s, some (wrap "soft stop" e))

  unfoldable pub stop : Context → S → S × Option GoError
  unfolding is
  stop ctx s = after_soft_stop ctx (w.client.stop ctx w.cfg.soft_stop_timeout s)
