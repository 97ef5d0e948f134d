-- ===== src/Temporal/Interceptors.antt =====
-- fx/stdtemporalfx/interceptor_client.go and interceptor_worker.go. An argument is a protobuf message
-- `M` or another value; a call that passes goes to `next`. `validate` is protovalidate's.
use stdgo.Base.{ltb, Option, none, some, List, [], ◌∷◌, ◌≡◌, refl, if◌then◌else◌, length, arith}
use stdgo.Go.Context.{Context}
use stdgo.Go.Errors.{GoError, message, wrap, Result, ok, err}

pub data Arg (M : Type 0) : Type 0 where
  proto : M → Arg M
  other : Arg M

-- `next` of the client, by the four calls that are intercepted; `R` is what it returns.
pub record ClientOutbound (M R : Type 0) : Type 0 where
  pub execute_workflow : Context → List (Arg M) → Result R
  pub signal_with_start_workflow : Context → (signal : Option (Arg M)) → List (Arg M) → Result R
  pub signal_workflow : Context → (arg : Option (Arg M)) → Result R
  pub update_workflow : Context → List (Arg M) → Result R

-- `next` of a worker, with what it returns.
pub record Inbound (M R : Type 0) : Type 0 where
  pub execute_workflow : Context → List (Arg M) → Result R
  pub execute_activity : Context → List (Arg M) → Result R

module _ {M : Type 0} (validate : M → Option GoError) where
  -- `non_retryable` is `temporal.NewNonRetryableApplicationError` with the type "InvalidInput".
  abbrev pub non_retryable : GoError → GoError
  non_retryable e = wrap "validation failed for input" e

  abbrev pub first_error : Option GoError → Option GoError → Option GoError
  first_error (some e) rest = some (non_retryable (wrap "validate input" e))
  first_error none rest = rest

  abbrev pub validate_next : Arg M → Option GoError → Option GoError
  validate_next other rest = some (non_retryable (message "argument is not a proto.Messsage"))
  validate_next (proto m) rest = first_error (validate m) rest

  -- The loop of `validateArgs`.
  unfoldable pub validate_each : List (Arg M) → Option GoError
  validate_each [] = none
  validate_each (a ∷ l) = validate_next a (validate_each l)

  unfoldable pub validate_args : List (Arg M) → Option GoError
  unfolding validate_each
  validate_args args =
      if ltb 1 (length args)
      then some (non_retryable (message "more than 1 args"))
      else validate_each args

  -- An argument that may be nil.
  abbrev pub validate_optional : Option (Arg M) → Option GoError
  validate_optional none = none
  validate_optional (some a) = validate_args (a ∷ [])

  abbrev pub guarded : {R : Type 0} → Option GoError → Result R → Result R
  guarded (some e) r = err e
  guarded none r = r

  abbrev pub wrapped : Option GoError → Option GoError
  wrapped none = none
  wrapped (some e) = some (wrap "client validation" e)

  unfoldable pub intercept_client : {R : Type 0} → ClientOutbound M R → ClientOutbound M R
  unfolding validate_args
  intercept_client next = record {
    execute_workflow =
        λ ctx args. guarded (wrapped (validate_args args)) (next.execute_workflow ctx args);
    signal_with_start_workflow = λ ctx signal args.
        guarded (validate_optional signal)
          (guarded (validate_args args) (next.signal_with_start_workflow ctx signal args));
    signal_workflow = λ ctx arg. guarded (validate_optional arg) (next.signal_workflow ctx arg);
    update_workflow = λ ctx args. guarded (validate_args args) (next.update_workflow ctx args);
  }

  -- `with_logger` puts an activity's logger on its context.
  unfoldable pub intercept_worker :
      {R : Type 0} → (with_logger : Context → Context) → Inbound M R → Inbound M R
  unfolding validate_args
  intercept_worker with_logger next = record {
    execute_workflow = λ ctx args. guarded (validate_args args) (next.execute_workflow ctx args);
    execute_activity =
        λ ctx args. guarded (validate_args args) (next.execute_activity (with_logger ctx) args);
  }

  -- At most one argument, a valid message.
  pub data IsValid : List (Arg M) → Type 0 where
    no_args : IsValid []
    one_arg : (m : M) → validate m ≡ none → IsValid (proto m ∷ [])

  abbrev pub AreValid : Option (Arg M) → Type 0
  AreValid none = Unit
  AreValid (some a) = IsValid (a ∷ [])

  first_error-eq-none :
      (checked rest : Option GoError) → first_error checked rest ≡ none → checked ≡ none
  first_error-eq-none none rest h = refl
  first_error-eq-none (some e) rest h = cc

  validate_args-IsValid : (args : List (Arg M)) → validate_args args ≡ none → IsValid args
  unfolding validate_args
  validate_args-IsValid [] h = no_args
  validate_args-IsValid (other ∷ []) h = cc
  validate_args-IsValid (proto m ∷ []) h = one_arg m (first_error-eq-none (validate m) none h)
  validate_args-IsValid (a ∷ b ∷ l) h = absurd (ground arith)

  validate_optional-AreValid : (o : Option (Arg M)) → validate_optional o ≡ none → AreValid o
  validate_optional-AreValid none h = tt
  validate_optional-AreValid (some a) h = validate_args-IsValid (a ∷ []) h

  guarded-eq-ok :
      {R : Type 0} (c : Option GoError) (r : Result R) {a : R}
      → guarded c r ≡ ok a
      → (c ≡ none) × (r ≡ ok a)
  guarded-eq-ok none r h = (refl, h)
  guarded-eq-ok (some e) r h = cc

  wrapped-eq-none : (c : Option GoError) → wrapped c ≡ none → c ≡ none
  wrapped-eq-none none h = refl
  wrapped-eq-none (some e) h = cc

  -- The intercepted calls.
  pub data Call : Type 0 where
    starts : List (Arg M) → Call
    signals_with_start : (signal : Option (Arg M)) → List (Arg M) → Call
    signals : Option (Arg M) → Call
    updates : List (Arg M) → Call
    runs_workflow : List (Arg M) → Call
    runs_activity : List (Arg M) → Call

  abbrev pub Accepted : Call → Type 0
  Accepted (starts args) = IsValid args
  Accepted (signals_with_start signal args) = AreValid signal × IsValid args
  Accepted (signals arg) = AreValid arg
  Accepted (updates args) = IsValid args
  Accepted (runs_workflow args) = IsValid args
  Accepted (runs_activity args) = IsValid args

  module _ {R : Type 0} (client : ClientOutbound M R) (worker : Inbound M R)
      (with_logger : Context → Context) (ctx : Context) where
    abbrev pub intercepted : Call → Result R
    intercepted (starts args) = (intercept_client client).execute_workflow ctx args
    intercepted (signals_with_start signal args) =
        (intercept_client client).signal_with_start_workflow ctx signal args
    intercepted (signals arg) = (intercept_client client).signal_workflow ctx arg
    intercepted (updates args) = (intercept_client client).update_workflow ctx args
    intercepted (runs_workflow args) =
        (intercept_worker with_logger worker).execute_workflow ctx args
    intercepted (runs_activity args) =
        (intercept_worker with_logger worker).execute_activity ctx args

    abbrev pub direct : Call → Result R
    direct (starts args) = client.execute_workflow ctx args
    direct (signals_with_start signal args) = client.signal_with_start_workflow ctx signal args
    direct (signals arg) = client.signal_workflow ctx arg
    direct (updates args) = client.update_workflow ctx args
    direct (runs_workflow args) = worker.execute_workflow ctx args
    direct (runs_activity args) = worker.execute_activity (with_logger ctx) args

    -- An intercepted call of the client or of a worker that succeeds had at most one argument in
    -- each list, a valid message each, a signal's argument included where there is one, and is the
    -- call behind the interceptor, with an activity's logger on its context.
    pub intercepted-Accepted :
        (call : Call) {r : R} → intercepted call ≡ ok r → Accepted call × (direct call ≡ ok r)
    unfolding intercept_client intercept_worker
    intercepted-Accepted (starts args) h =
        let (valid, went) = guarded-eq-ok (wrapped (validate_args args)) _ h in
        (validate_args-IsValid args (wrapped-eq-none _ valid), went)
    intercepted-Accepted (signals_with_start signal args) h =
        let (valid, went) = guarded-eq-ok (validate_optional signal) _ h in
        let (valid', went') = guarded-eq-ok (validate_args args) _ went in
        ((validate_optional-AreValid signal valid, validate_args-IsValid args valid'), went')
    intercepted-Accepted (signals arg) h =
        let (valid, went) = guarded-eq-ok (validate_optional arg) _ h in
        (validate_optional-AreValid arg valid, went)
    intercepted-Accepted (updates args) h =
        let (valid, went) = guarded-eq-ok (validate_args args) _ h in
        (validate_args-IsValid args valid, went)
    intercepted-Accepted (runs_workflow args) h =
        let (valid, went) = guarded-eq-ok (validate_args args) _ h in
        (validate_args-IsValid args valid, went)
    intercepted-Accepted (runs_activity args) h =
        let (valid, went) = guarded-eq-ok (validate_args args) _ h in
        (validate_args-IsValid args valid, went)
