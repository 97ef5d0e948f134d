-- ===== src/Temporal/Workers.antt =====
-- `Workers` of fx/stdtemporalfx/workers.go. A worker `K` of the SDK is made, registered upon, started
-- and stopped on a state `S`.
use stdgo.Base.{String, Option, none, some, List, [], ◌∷◌, ◌++◌, ◌≡◌, refl, ap, ◌∙◌}
use stdgo.Go.Errors.{GoError, wrap}

-- `Registration`
pub record Registration (S K : Type 0) : Type 0 where
  pub queue_name : String
  pub reg_fn : K → S → S

pub record Sdk (S K : Type 0) : Type 0 where
  pub new_worker : (queue : String) → S → S × K
  pub start : K → S → S × Option GoError
  pub stop : K → S → S

module _ {S K : Type 0} (sdk : Sdk S K) where
  -- A started worker joins those that `stop` will stop.
  abbrev pub appended : List K → K → S × Option GoError → (S × List K) × Option GoError
  appended workers worker (s, some e) = ((s, workers), some (wrap "start worker" e))
  appended workers worker (s, none) = ((s, workers ++ (worker ∷ [])), none)

  unfoldable pub register : Registration S K → S × List K → (S × List K) × Option GoError
  register registration (s, workers) =
      let (s₁, worker) = sdk.new_worker registration.queue_name s in
      appended workers worker (sdk.start worker (registration.reg_fn worker s₁))

  abbrev pub unless_failed :
      (S × List K) × Option GoError
      → (S × List K → (S × List K) × Option GoError)
      → (S × List K) × Option GoError
  unless_failed (w, some e) k = (w, some (wrap "register" e))
  unless_failed (w, none) k = k w

  unfoldable pub start : List (Registration S K) → S × List K → (S × List K) × Option GoError
  unfolding register
  start [] w = (w, none)
  start (r ∷ l) w = unless_failed (register r w) (start l)

  unfoldable pub stop : S × List K → S
  stop (s, []) = s
  stop (s, worker ∷ l) = stop (sdk.stop worker s, l)

  -- What the SDK documents, with `running` for the workers that poll, the earliest first: a worker
  -- runs from a start without an error until it is stopped.
  pub record IsSdk (running : S → List K) : Type 0 where
    pub new_keeps : (queue : String) (s : S) → running (sdk.new_worker queue s).0 ≡ running s
    pub start_ok :
        (k : K) (s s' : S) → sdk.start k s ≡ (s', none) → running s' ≡ running s ++ (k ∷ [])
    pub start_err :
        (k : K) (s s' : S) (e : GoError) → sdk.start k s ≡ (s', some e) → running s' ≡ running s
    pub stop_first : (k : K) (s : S) (l : List K) → running s ≡ k ∷ l → running (sdk.stop k s) ≡ l

  module _ (running : S → List K) (laws : IsSdk running) where
    -- The workers on the list are those that run.
    abbrev pub Tracked : S × List K → Type 0
    Tracked (s, workers) = running s ≡ workers

    appended-Tracked :
        (workers : List K) (worker : K) (s : S) (r : S × Option GoError)
        → sdk.start worker s ≡ r
        → running s ≡ workers
        → Tracked (appended workers worker r).0
    appended-Tracked workers worker s (s', some e) started same =
        laws.start_err worker s s' e started ∙ same
    appended-Tracked workers worker s (s', none) started same =
        laws.start_ok worker s s' started ∙ ap (λ l. l ++ (worker ∷ [])) same

    -- A registration only tells the worker what it runs.
    abbrev pub Registers : Registration S K → Type 0
    Registers r = (k : K) (s : S) → running (r.reg_fn k s) ≡ running s

    abbrev pub AllRegister : List (Registration S K) → Type 0
    AllRegister [] = Unit
    AllRegister (r ∷ l) = Registers r × AllRegister l

    register-Tracked :
        (r : Registration S K) (w : S × List K) → Registers r → Tracked w → Tracked (register r w).0
    unfolding register
    register-Tracked r (s, workers) quiet same =
        let (s₁, worker) = sdk.new_worker r.queue_name s in
        appended-Tracked workers worker (r.reg_fn worker s₁) (sdk.start worker (r.reg_fn worker s₁))
          refl (quiet worker s₁ ∙ laws.new_keeps r.queue_name s ∙ same)

    unless_failed-Tracked :
        (r : (S × List K) × Option GoError) (k : S × List K → (S × List K) × Option GoError)
        → Tracked r.0
        → ((w : S × List K) → Tracked w → Tracked (k w).0)
        → Tracked (unless_failed r k).0
    unless_failed-Tracked (w, some e) k same go = same
    unless_failed-Tracked (w, none) k same go = go w same

    start-Tracked :
        (l : List (Registration S K)) (w : S × List K)
        → AllRegister l
        → Tracked w
        → Tracked (start l w).0
    unfolding start
    start-Tracked [] w quiet same = same
    start-Tracked (r ∷ l) w quiet same =
        unless_failed-Tracked (register r w) (start l) (register-Tracked r w quiet.0 same)
          (λ w same. start-Tracked l w quiet.1 same)

    stop-Tracked :
        (s : S) (workers : List K) → running s ≡ workers → running (stop (s, workers)) ≡ []
    unfolding stop
    stop-Tracked s [] same = same
    stop-Tracked s (k ∷ l) same = stop-Tracked (sdk.stop k s) l (laws.stop_first k s l same)

    -- When no worker runs before, the workers that Workers keeps after Start are those that run, in
    -- the order of their start and also when Start failed midway, and after Stop no worker runs;
    -- registrations only tell a worker what it runs.
    pub stop-start :
        (l : List (Registration S K)) (s : S)
        → AllRegister l
        → running s ≡ []
        → Tracked (start l (s, [])).0 × (running (stop (start l (s, [])).0) ≡ [])
    stop-start l s quiet none_run =
        let same = start-Tracked l (s, []) quiet none_run in
        (same, stop-Tracked (start l (s, [])).0.0 (start l (s, [])).0.1 same)
