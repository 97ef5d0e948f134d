-- ===== src/River/Lifecycle/Stopping.antt =====
-- How the workers stop, on every branch.
use stdgo.Base.{
  Bool, ℕ, subst, ◌⊎◌, true, false, Option, none, some, ◌≡◌, refl, ap, sym, Bool-cases, inl, inr,
}
use stdgo.Go.Context.{Context}
use stdgo.Go.Errors.{GoError, deadline_exceeded, context_canceled, is, wrap}
use stdgo.River.Lifecycle.{Workers, timed_out, after_hard_stop, after_soft_stop, stop}

-- What becomes of the error of a hard stop: none after a hard stop that ends, or that its own timeout
-- ends; any other error is reported.
pub data HardResult : Option GoError → Option GoError → Type 0 where
  ended : HardResult none none
  given_up : (e : GoError) → is e deadline_exceeded ≡ true → HardResult (some e) none
  reported :
      (e : GoError)
      → is e deadline_exceeded ≡ false
      → HardResult (some e) (some (wrap "hard stop" e))

module _ {S Tx J : Type 0} (w : Workers S Tx J) where
  -- The calls that a stop makes, and its result.
  pub data Stops (ctx : Context) (s s' : S) (result : Option GoError) : Type 0 where
    softly :
        w.client.stop ctx w.cfg.soft_stop_timeout s ≡ (s', none)
        → result ≡ none
        → Stops ctx s s' result
    soft_failure :
        (e : GoError)
        → w.client.stop ctx w.cfg.soft_stop_timeout s ≡ (s', some e)
        → is e deadline_exceeded ≡ false
        → is e context_canceled ≡ false
        → result ≡ some (wrap "soft stop" e)
        → Stops ctx s s' result
    hard :
        (s₁ : S) (e : GoError) (hard_error : Option GoError)
        → w.client.stop ctx w.cfg.soft_stop_timeout s ≡ (s₁, some e)
        → (is e deadline_exceeded ≡ true) ⊎ (is e context_canceled ≡ true)
        → w.client.stop_and_cancel ctx w.cfg.hard_stop_timeout s₁ ≡ (s', hard_error)
        → HardResult hard_error result
        → Stops ctx s s' result

  after_hard_stop-HardResult :
      (r : S × Option GoError)
      → ((after_hard_stop w r).0 ≡ r.0) × HardResult r.1 (after_hard_stop w r).1
  after_hard_stop-HardResult (s, none) = (refl, ended)
  after_hard_stop-HardResult (s, some e) = elim (Bool-cases (is e deadline_exceeded)) [
    | inl late ↦ rw late (refl, given_up e late)
    | inr other ↦ rw other (refl, reported e other)
  ]

  timed_out_inv :
      (e : GoError)
      → timed_out w e ≡ true
      → (is e deadline_exceeded ≡ true) ⊎ (is e context_canceled ≡ true)
  timed_out_inv e h = elim (Bool-cases (is e deadline_exceeded)) [
    | inl late ↦ inl late
    | inr other ↦ inr (rw other at h)
  ]

  not_timed_out_inv :
      (e : GoError)
      → timed_out w e ≡ false
      → (is e deadline_exceeded ≡ false) × (is e context_canceled ≡ false)
  not_timed_out_inv e h = elim (Bool-cases (is e deadline_exceeded)) [
    | inl late ↦ cc (rw late at h)
    | inr other ↦ (other, rw other at h)
  ]

  after_soft_stop-Stops :
      (ctx : Context) (s : S) (r : S × Option GoError)
      → w.client.stop ctx w.cfg.soft_stop_timeout s ≡ r
      → Stops ctx s (after_soft_stop w ctx r).0 (after_soft_stop w ctx r).1
  after_soft_stop-Stops ctx s (s₁, none) h = softly h refl
  after_soft_stop-Stops ctx s (s₁, some e) h = elim (Bool-cases (timed_out w e)) [
    | inl late ↦
        let r = w.client.stop_and_cancel ctx w.cfg.hard_stop_timeout s₁ in
        let (same, result) = after_hard_stop-HardResult r in
        rw late (hard s₁ e r.1 h (timed_out_inv e late) (ap (λ s. (s, r.1)) (sym same)) result)
    | inr other ↦
        let (in_time, live) = not_timed_out_inv e other in
        rw other (soft_failure e h in_time live refl)
  ]

  -- What River documents of its client, with `working` for whether it still works on jobs: a stop
  -- without an error has waited for them.
  pub record IsClient (working : S → Bool) : Type 0 where
    pub stop_ends :
        (ctx : Context) (timeout : ℕ) (s s' : S)
        → w.client.stop ctx timeout s ≡ (s', none)
        → working s' ≡ false
    pub stop_and_cancel_ends :
        (ctx : Context) (timeout : ℕ) (s s' : S)
        → w.client.stop_and_cancel ctx timeout s ≡ (s', none)
        → working s' ≡ false

  -- The hard stop was not over by its deadline, and left the state `s'`.
  abbrev pub GivesUp : Context → S → Type 0
  GivesUp ctx s' =
      (s₁ : S) × (e : GoError) × (w.client.stop_and_cancel ctx w.cfg.hard_stop_timeout s₁
        ≡ (s', some e))
      × (is e deadline_exceeded ≡ true)

  HardResult-ends :
      (working : S → Bool) (ctx : Context) (s₁ s' : S) {hard_error result : Option GoError}
      → IsClient working
      → HardResult hard_error result
      → w.client.stop_and_cancel ctx w.cfg.hard_stop_timeout s₁ ≡ (s', hard_error)
      → result ≡ none
      → (working s' ≡ false) ⊎ GivesUp ctx s'
  HardResult-ends working ctx s₁ s' laws ended h quiet =
      inl (laws.stop_and_cancel_ends ctx w.cfg.hard_stop_timeout s₁ s' h)
  HardResult-ends working ctx s₁ s' laws (given_up e late) h quiet = inr (s₁, e, h, late)
  HardResult-ends working ctx s₁ s' laws (reported e other) h quiet = cc

  Stops-ends :
      (working : S → Bool) (ctx : Context) (s s' : S) (result : Option GoError)
      → IsClient working
      → Stops ctx s s' result
      → result ≡ none
      → (working s' ≡ false) ⊎ GivesUp ctx s'
  Stops-ends working ctx s s' result laws (softly h _) quiet =
      inl (laws.stop_ends ctx w.cfg.soft_stop_timeout s s' h)
  Stops-ends working ctx s s' result laws (soft_failure e h _ _ fails) quiet = cc
  Stops-ends working ctx s s' result laws (hard s₁ e hard_error h _ h' r) quiet =
      HardResult-ends working ctx s₁ s' laws r h' quiet

  HardResult-in_time :
      {hard_error result : Option GoError} (e : GoError)
      → HardResult hard_error result
      → result ≡ some e
      → is e deadline_exceeded ≡ false
  unfolding is
  HardResult-in_time e ended h = cc
  HardResult-in_time e (given_up x _) h = cc
  HardResult-in_time e (reported x other) h =
      let same : wrap "hard stop" x ≡ e = cc in
      subst (λ e. is e deadline_exceeded ≡ false) same other

  Stops-in_time :
      (ctx : Context) (s s' : S) (result : Option GoError) (e : GoError)
      → Stops ctx s s' result
      → result ≡ some e
      → is e deadline_exceeded ≡ false
  unfolding is
  Stops-in_time ctx s s' result e (softly _ fine) h = cc
  Stops-in_time ctx s s' result e (soft_failure x _ in_time _ fails) h =
      let same : wrap "soft stop" x ≡ e = cc in
      subst (λ e. is e deadline_exceeded ≡ false) same in_time
  Stops-in_time ctx s s' result e (hard s₁ x hard_error _ _ _ r) h = HardResult-in_time e r h

  -- Stopping the workers that reports no error leaves the client without jobs at work, unless its
  -- hard stop was not over by its deadline; and no reported error is that of a deadline. One hard
  -- stop is issued, on the state that the soft stop left, exactly when the soft stop fails by a
  -- deadline or a cancellation; any other error of the soft stop is reported, and so is an error of
  -- the hard stop that is no deadline. This holds for a client that works on no job after a stop of
  -- either kind without an error.
  pub stop-Stops :
      (working : S → Bool) (ctx : Context) (s : S)
      → IsClient working
      → let (s', result) = stop w ctx s in
        Stops ctx s s' result
        × (result ≡ none → (working s' ≡ false) ⊎ GivesUp ctx s')
        × ((e : GoError) → result ≡ some e → is e deadline_exceeded ≡ false)
  unfolding stop
  stop-Stops working ctx s laws =
      let r = after_soft_stop w ctx (w.client.stop ctx w.cfg.soft_stop_timeout s) in
      let stops = after_soft_stop-Stops ctx s (w.client.stop ctx w.cfg.soft_stop_timeout s) refl in
      (
        stops,
        Stops-ends working ctx s r.0 r.1 laws stops,
        λ e h. Stops-in_time ctx s r.0 r.1 e stops h,
      )
