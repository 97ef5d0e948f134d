-- ===== src/Writefence/Intent/Laws.antt =====
-- When the interceptor sets the flag of its context.
use stdgo.Base.{
  ℕ, Bool, true, false, not, ◌&&◌, ◌||◌, some, ◌≡◌, refl, ◌∙◌, arith, Bool-cases, inl, inr,
}
use stdgo.Go.Context.{Context, fence_intent_key, value, with_value}
use stdgo.Go.Errors.{Result, ok, err}
use stdgo.Writefence.Intent.{
  Flags, as_flag, store_true, mark_fence_intent, is_no_side_effects, AnyRequest, UnaryFunc,
  after_next, interceptor, with_fence_intent,
}

abbrev pub is_ok : {A : Type 0} → Result A → Bool
is_ok (ok a) = true
is_ok (err e) = false

-- A call that is to be fenced: it succeeded on the server and may have side effects.
abbrev pub is_write : {Body Resp : Type 0} → AnyRequest Body → Result Resp → Bool
is_write req r = is_ok r && (not req.is_client && not (is_no_side_effects req.idempotency_level))

or_false : (b : Bool) → b ≡ b || false
or_false true = refl
or_false false = refl

or_true : (b : Bool) → true ≡ b || true
or_true true = refl
or_true false = refl

stored : (a : ℕ) (h : Flags) → (store_true a h).load a ≡ true
stored a h = ground arith

module _ {S Body Resp : Type 0} (ctx : Context) (req : AnyRequest Body) where
  after_next-load :
      (a : ℕ) (h : Flags) (s : S) (r : Result Resp)
      → as_flag (value ctx fence_intent_key) ≡ some a
      → (((after_next ctx req ((h, s), r)).0.0).load a ≡ h.load a || is_write req r)
        × ((after_next ctx req ((h, s), r)).1 ≡ r)
  unfolding mark_fence_intent
  after_next-load a h s (err x) e = (or_false (h.load a), refl)
  after_next-load a h s (ok resp) e = elim (Bool-cases req.is_client) [
    | inl client ↦ rw client (or_false (h.load a), refl)
    | inr server ↦ elim (Bool-cases (is_no_side_effects req.idempotency_level)) [
      | inl quiet ↦ rw (server, quiet) (or_false (h.load a), refl)
      | inr loud ↦ rw (server, loud, e) (stored a h ∙ or_true (h.load a), refl)
    ]
  ]

  -- On a context with a flag the interceptor returns what the next function returned and marks the
  -- flag just when the call succeeded on the server with a procedure that may have side effects.
  pub interceptor_marks :
      (next : UnaryFunc S Body Resp) (a : ℕ) (st : Flags × S)
      → as_flag (value ctx fence_intent_key) ≡ some a
      → let r = next ctx req st in
        (((interceptor next ctx req st).0.0).load a ≡ r.0.0.load a || is_write req r.1)
        × ((interceptor next ctx req st).1 ≡ r.1)
  unfolding interceptor
  interceptor_marks next a st e = let r = next ctx req st in after_next-load a r.0.0 r.0.1 r.1 e

-- The flag that the context holds is the fresh one, and it is not set.
pub with_fence_intent-fresh :
    (ctx : Context) (h : Flags)
    → let (h', ctx', a) = with_fence_intent ctx h in
      (as_flag (value ctx' fence_intent_key) ≡ some a) × (h'.load a ≡ false)
unfolding with_fence_intent value with_value
with_fence_intent-fresh ctx h = (refl, ground arith)
