-- ===== src/Stdtx/Sample.antt =====
-- A one-transaction database and a retry loop that meet the laws of a driver and of the retry
-- executor, for the examples.
use stdgo.Base.{
  ℕ, zero, suc, ◌+◌, Bool, true, false, Option, none, some, [], ◌∷◌, ◌≡◌, refl, arith, ap, sym,
  if◌then◌else◌, inl, inr, Bool-cases,
}
use stdgo.Go.Context.{Context}
use stdgo.Go.Errors.{GoError, sentinel, message, tx_closed, ok, is}
use stdgo.Go.Outcome.{Outcome, returned, panicked, exited}
use stdgo.Failsafe.{RetryPolicy, Execute, IsExecutor, Runs, finished, again, exceeded, handled}
use stdgo.Stdtx.Driver.{Driver, IsDriver, Status, active, committed, rolled_back}

pub record Db : Type 0 where
  pub current : Status
  pub total : ℕ

abbrev pub db_rollback : Db → Status → Db × Option GoError
db_rollback d active = (record d { current = rolled_back }, none)
db_rollback d committed = (d, some (sentinel tx_closed))
db_rollback d rolled_back = (d, some (sentinel tx_closed))

abbrev pub db_commit : Db → Status → Db × Option GoError
db_commit d active = (record { current = committed; total = suc d.total }, none)
db_commit d committed = (d, some (sentinel tx_closed))
db_commit d rolled_back = (d, some (sentinel tx_closed))

abbrev pub db_driver : Driver Db (Unit {0})
db_driver = record {
  begin_tx = λ _ d. (record d { current = active }, ok tt);
  rollback_tx = λ _ _ d. db_rollback d d.current;
  commit_tx = λ _ _ d. db_commit d d.current;
  serialization_failure_codes = "40001" ∷ "40P01" ∷ [];
  serialization_failure_max_retries = 10;
  tx_done_error = tx_closed;
}

abbrev pub db_status : Db → Unit {0} → Status
db_status d _ = d.current

pub db_driver-IsDriver : IsDriver db_driver db_status (λ d. d.total)
unfolding is
db_driver-IsDriver = record {
  begin_ok = λ ctx s s' tx h. (ap (λ r. r.0.current) (sym h), ap (λ r. r.0.total) (sym h));
  begin_err = λ ctx s s' e h. cc;
  rollback_active = λ ctx tx s h. ground arith;
  rollback_closed = λ ctx tx s h. ground arith;
  rollback_commits = λ ctx tx s. ground arith;
  commit_ok = λ ctx tx s s' h e. ground arith;
  commit_err = λ ctx tx s s' x h e. (ground arith, ground arith, ground arith);
  commit_closed = λ ctx tx s h. (s, sentinel tx_closed, ground arith, refl, refl, refl);
}

abbrev pub never : Context → Db → Bool
never ctx d = false

abbrev give_up : {A : Type 0} → Outcome A → Outcome A
give_up (returned a e) = returned a (some (message "retries exceeded"))
give_up (panicked v) = panicked v
give_up exited = exited

-- `n` is the number of retries left.
retry_loop : {A S : Type 0} → RetryPolicy A → (ℕ → S → S × Outcome A) → ℕ → ℕ → S → S × Outcome A
retry_loop p fn zero k s = let (s', o) = fn k s in (s', (if handled p o then give_up o else o))
retry_loop p fn (suc n) k s =
    let rest = retry_loop p fn n (suc k) (fn k s).0 in if handled p (fn k s).1 then rest else fn k s

unfoldable pub retry : {A S : Type 0} → Execute A S
unfolding retry_loop
retry p ctx fn s = retry_loop p fn p.max_retries 1 s

give_up-handled :
    {A : Type 0} (p : RetryPolicy A) (o : Outcome A)
    → handled p o ≡ true
    → (a : A) × (e : GoError) × (give_up o ≡ returned a (some e))
give_up-handled p (returned a e) h = (a, message "retries exceeded", refl)
give_up-handled p (panicked v) h = cc
give_up-handled p exited h = cc

retry_loop-Runs :
    {A S : Type 0} (p : RetryPolicy A) (cancelled : S → Bool) (fn : ℕ → S → S × Outcome A) (n k : ℕ)
    (s : S)
    → k + n ≡ suc p.max_retries
    → Runs p cancelled fn k s (retry_loop p fn n k s).0 (retry_loop p fn n k s).1
unfolding retry_loop
retry_loop-Runs p cancelled fn zero k s h = elim (Bool-cases (handled p (fn k s).1)) [
  | inl hit ↦
      let (a, e, g) = give_up-handled p (fn k s).1 hit in
      rw (hit, g) (exceeded a e refl hit (omega arith))
  | inr miss ↦ rw miss (finished refl miss)
]
retry_loop-Runs p cancelled fn (suc n) k s h = elim (Bool-cases (handled p (fn k s).1)) [
  | inl hit ↦ rw hit (
      again refl hit (omega arith)
        (retry_loop-Runs p cancelled fn n (suc k) (fn k s).0 (omega arith)))
  | inr miss ↦ rw miss (finished refl miss)
]

pub retry-IsExecutor :
    {A S : Type 0} (cancelled : Context → S → Bool) → IsExecutor cancelled (retry {A = A} {S = S})
unfolding retry
retry-IsExecutor cancelled p ctx fn s =
    retry_loop-Runs p (cancelled ctx) fn p.max_retries 1 s (omega arith)
