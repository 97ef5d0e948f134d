-- ===== src/River/Tests.antt =====
-- The theorems of this package at a job whose transaction is that of a one-transaction database.
use stdgo.Base.{
  Bool, true, false, Option, ◌⊎◌, subst, ap, ℕ, String, none, some, List, [], ◌≡◌, refl, str_eq,
  if◌then◌else◌,
}
use stdgo.Base.Int.{pos}
use stdgo.Go.Context.{value}
use stdgo.Go.Errors.{GoError, is, sentinel, message, wrap, deadline_exceeded, ok}
use stdgo.Go.Format.{format_int}
use stdgo.Go.Outcome.{returned}
use stdgo.Stdtx.Scope.{context_with_attempts, attempts_from_context}
use stdgo.Stdtx.Driver.{Status, active, committed, rolled_back}
use stdgo.Stdtx.Transact.{
  attempt, transact0, transact1, retry_policy, should_retry, begun, in_tx, conclude,
}
use stdgo.Stdtx.Transact.Attempt.{LeavesOpen}
use stdgo.Stdtx.Sample.{
  Db, db_driver, db_status, db_driver-IsDriver, never, retry, retry-IsExecutor,
}
use stdgo.River.{Library, Work, wrap_outcome, timeout_sql, work_in_tx, transact, enqueue}
use stdgo.River.Completion.{Completes, TimeoutsSet, transact-Completes, transact-enqueue}
use stdgo.River.Lifecycle.{Client, Workers, stop}
use stdgo.River.Lifecycle.Stopping.{Stops, IsClient, GivesUp, stop-Stops}
use stdgo.Stdtx.Transact.Successes.{commit_state}

abbrev library : Library Db (Unit {0}) String String
library = record {
  validate_args = λ a. if str_eq a "" then some (message "invalid") else none;
  validate_output = λ _. none;
  job_cancel = wrap "job cancel";
  until_deadline = λ _ _. some (pos 7_000_000_000);
  exec = λ _ _ _ s. (s, none);
  record_output = λ _ _ s. (s, none);
  job_complete_tx = λ _ _ _ s. (s, none);
  insert_tx = λ _ _ _ s. (s, none);
}

abbrev work : Work Db (Unit {0}) String String
work ctx tx args s = (s, returned "done" none)

work-LeavesOpen : LeavesOpen db_status (λ d. d.total) (work_in_tx library work "job")
unfolding work_in_tx
work-LeavesOpen ctx tx s h = (h, refl)

abbrev start : Db
start = record { current = active; total = 3 }

-- The statement of a deadline in seven seconds.
timeout_sql_run :
    timeout_sql (pos 7_000_000_000)
    ≡ "\n\t\t\t\tSET SESSION idle_in_transaction_session_timeout = 12000;\n\t\t\t\tSET SESSION transaction_timeout = 12000;\n\t\t\t"
unfolding timeout_sql format_int
timeout_sql_run = refl

transact-Completes_example :
    (library.validate_args "job" ≡ none)
    × ((transact library db_driver retry work [] "job" start).0.total ≡ 4)
    × (k : ℕ) × (t s₁ s₂ s₃ : Db) × (tx : Unit {0}) × (db_driver.begin_tx [] t ≡ (s₁, ok tx))
    × TimeoutsSet library work
        (context_with_attempts [] k)
        tx
        (library.until_deadline (context_with_attempts [] k) s₁)
        s₁
        s₂
    × Completes library work (context_with_attempts [] k) tx "job" s₂ s₃
    × ((transact library db_driver retry work [] "job" start).0
        ≡ commit_state db_driver (context_with_attempts [] k) tx s₃)
unfolding transact transact0 transact1 attempt begun in_tx conclude retry work_in_tx retry_policy
    attempts_from_context context_with_attempts value should_retry
transact-Completes_example =
    transact-Completes library work db_driver db_status (λ d. d.total) retry never [] "job" start
      db_driver-IsDriver (retry-IsExecutor never) work-LeavesOpen refl

transact-enqueue_example :
    transact library db_driver retry work [] "job" start
    ≡ wrap_outcome "work transact"
        (transact0 db_driver retry [] (work_in_tx library work "job") start)
unfolding enqueue
transact-enqueue_example =
    transact-enqueue library work db_driver retry [] [] tt "job" start start start refl

abbrev is_active : Status → Bool
is_active active = true
is_active committed = false
is_active rolled_back = false

abbrev client : Client Db (Unit {0}) (List String)
client = record {
  start = λ _ s. (s, none);
  stop = λ _ _ s. (s, some (sentinel deadline_exceeded));
  stop_and_cancel = λ _ _ s. (record s { current = rolled_back }, none);
  first_job = λ _ s. (s, ok []);
  jobs_of_kinds_tx = λ _ _ kinds s. (s, ok kinds);
}

abbrev workers : Workers Db (Unit {0}) (List String)
workers = record {
  cfg = record { soft_stop_timeout = 5_000_000_000; hard_stop_timeout = 5_000_000_000 };
  client = client;
  ctx = [];
}

-- A client whose soft stop leaves the last job to the hard stop; a state with an open transaction
-- works.
abbrev working : Db → Bool
working s = is_active s.current

workers-IsClient : IsClient workers working
workers-IsClient = record {
  stop_ends = λ ctx timeout s s' h. cc;
  stop_and_cancel_ends = λ ctx timeout s s' h.
      subst (λ t. working t ≡ false) (ap (λ (r : Db × Option GoError). r.0) h) refl;
}

stop-Stops_example :
    let (s', result) = stop workers [] start in
    Stops workers [] start s' result
    × (result ≡ none → (working s' ≡ false) ⊎ GivesUp workers [] s')
    × ((e : GoError) → result ≡ some e → is e deadline_exceeded ≡ false)
stop-Stops_example = stop-Stops workers working [] start workers-IsClient

stop_run : stop workers [] start ≡ (record start { current = rolled_back }, none)
unfolding stop
stop_run = refl
