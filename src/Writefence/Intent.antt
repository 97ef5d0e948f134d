-- ===== src/Writefence/Intent.antt =====
-- The fence-intent flag of stdcrpc/stdcrpcwritefence/writefence.go and the interceptor that sets it.
-- A flag is an `atomic.Bool` on a heap, and the context holds its address.
pub mod Laws
use stdgo.Base.{ℕ, suc, ◌+◌, Bool, true, false, Option, none, some, if◌then◌else◌, ◌==◌}
use stdgo.Go.Context.{Context, Any, flag_pointer, fence_intent_key, with_value, value}
use stdgo.Go.Errors.{GoError, Result, ok, err}

-- The flags allocated so far; a fresh one is false.
pub record Flags : Type 0 where
  pub next_address : ℕ
  pub load : ℕ → Bool

abbrev pub store_true : ℕ → Flags → Flags
store_true a h = record h { load = λ i. if i == a then true else h.load i }

abbrev pub allocate : Flags → Flags × ℕ
allocate h =
    let a = h.next_address in
    (record { next_address = suc a; load = λ i. if i == a then false else h.load i }, a)

unfoldable pub with_fence_intent : Context → Flags → Flags × Context × ℕ
with_fence_intent ctx h =
    let (h', a) = allocate h in (h', with_value ctx fence_intent_key (flag_pointer a), a)

-- A type assertion to `*atomic.Bool`.
abbrev pub as_flag : Option Any → Option ℕ
as_flag (some (flag_pointer a)) = some a
as_flag _ = none

abbrev pub mark_address : Option ℕ → Flags → Flags
mark_address none h = h
mark_address (some a) h = store_true a h

unfoldable pub mark_fence_intent : Context → Flags → Flags
mark_fence_intent ctx h = mark_address (as_flag (value ctx fence_intent_key)) h

-- `connect.IdempotencyLevel`
pub data IdempotencyLevel : Type 0 where
  idempotency_unknown idempotency_no_side_effects idempotency_idempotent : IdempotencyLevel

abbrev pub is_no_side_effects : IdempotencyLevel → Bool
is_no_side_effects idempotency_no_side_effects = true
is_no_side_effects _ = false

pub record AnyRequest (Body : Type 0) : Type 0 where
  pub is_client : Bool
  pub idempotency_level : IdempotencyLevel
  pub body : Body

abbrev pub UnaryFunc : Type 0 → Type 0 → Type 0 → Type 0
UnaryFunc S Body Resp = Context → AnyRequest Body → Flags × S → (Flags × S) × Result Resp

module _ {S Body Resp : Type 0} where
  abbrev pub after_next :
      Context → AnyRequest Body → (Flags × S) × Result Resp → (Flags × S) × Result Resp
  after_next ctx req (st, err e) = (st, err e)
  after_next ctx req ((h, s), ok resp) =
      if req.is_client
      then ((h, s), ok resp)
      else if is_no_side_effects req.idempotency_level
      then ((h, s), ok resp)
      else ((mark_fence_intent ctx h, s), ok resp)

  unfoldable pub interceptor : UnaryFunc S Body Resp → UnaryFunc S Body Resp
  interceptor next ctx req st = after_next ctx req (next ctx req st)
