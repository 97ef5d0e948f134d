-- ===== src/Writefence/Tests.antt =====
-- The theorems of this package at a writer that records what it is told.
use Prim.Native.String.{◌++◌ as concat}
use stdgo.Base.{
  ℕ, ◌+◌, ◌≤◌, ◌<◌, String, false, ◌||◌, none, some, List, [], ◌∷◌, ◌++◌, ◌≡◌, refl, arith, leb,
  if◌then◌else◌, ◌==◌,
}
use stdgo.Go.Context.{Context, fence_intent_key, flag_pointer, value, with_value}
use stdgo.Go.Errors.{ok}
use stdgo.Go.Outcome.{returned}
use stdgo.Stdent.Scope
use stdgo.Stdent.Promotion.{pick_read_transactor}
use stdgo.Stdent.Sample.{transactor, ro_transactor}
use stdgo.Writefence.Intent.{
  Flags, with_fence_intent, mark_fence_intent, idempotency_unknown, AnyRequest, UnaryFunc,
  interceptor,
}
use stdgo.Writefence.Intent.Laws.{is_write, interceptor_marks}
use stdgo.Writefence.Middleware
use stdgo.Writefence.Middleware.{
  Config, default_config, with_read_promotion, max_age_seconds, Codec, Writer, Event, write_header,
  write, mark, Handler, Response, Request, read_context, pin, serve,
}
use stdgo.Writefence.Middleware.Pinning.{
  before_write, from_write, run_marks, run_plain, pin_and_run, pinned, serve_pins,
}
use stdgo.Writefence.Middleware.Promotion.{IsCodecs, handler_context, pick_read_transactor_fenced}

-- The text of a value is the value, at time zero; it is accepted up to its age.
abbrev codecs : List ℕ → ℕ → Codec
codecs key age = record {
  encode = λ now name v. if now == 0 then some v else none;
  decode = λ now name v. if leb now age then some v else none;
}

codecs-IsCodecs : IsCodecs codecs
codecs-IsCodecs = record {
  fresh = λ key age made now name v text h soon. ground arith;
  stale = λ key age made now name v text h some_age late. ground arith;
}

abbrev config : Config
config = with_read_promotion Scope.with_read_promotion default_config

abbrev recorder : Writer (List String)
recorder = record {
  set_cookie = λ c log. log ++ (concat "cookie " c.name ∷ []);
  write_header = λ code log. log ++ ("header" ∷ []);
  write = λ p log. log ++ (p ∷ []);
}

-- Marks its context, writes a header and then a body.
abbrev marking : Handler (List String)
marking ctx = (mark ctx ∷ write_header 200 ∷ write "body" ∷ [], returned tt none)

abbrev plain : Request
plain = record { context = []; cookie = λ _. none }

abbrev fenced : Request
fenced = record { context = []; cookie = λ _. some "1" }

abbrev no_flags : Flags
no_flags = record { next_address = 0; load = λ _. false }

serve_pins_example :
    let (h', ctx, intent) =
      with_fence_intent (read_context config (codecs [] 3) 0 plain) no_flags in
    let (events, o) = marking ctx in
    let marked = (run_marks (before_write events) h').load intent in
    (serve recorder config (codecs [] 3) 0 0 marking plain ([], no_flags)).0.writer
    ≡ pin_and_run recorder
        (pinned recorder config (codecs [] 3) 0 marked)
        o
        (from_write events)
        (run_plain recorder (before_write events) [])
serve_pins_example = serve_pins recorder config (codecs [] 3) 0 0 marking plain [] no_flags

marking_run :
    (serve recorder config (codecs [] 3) 0 0 marking plain ([], no_flags)).0.writer
    ≡ "cookie _wfence" ∷ "header" ∷ "body" ∷ []
unfolding serve Middleware.run_events Middleware.run_event Middleware.set_cookie pin
    with_fence_intent mark_fence_intent read_context value with_value
marking_run = refl

pick_read_transactor_fenced_example :
    let pick =
      pick_read_transactor
        (handler_context config (codecs [] 3) 2 fenced no_flags)
        ro_transactor
        transactor in
    (2 ≤ 0 + 3 → pick ≡ transactor) × (0 + 3 < 2 → pick ≡ ro_transactor)
unfolding Scope.has_read_promotion value
pick_read_transactor_fenced_example =
    pick_read_transactor_fenced codecs [] config ro_transactor transactor 0 2 "1" fenced no_flags
      codecs-IsCodecs refl refl refl refl

abbrev next : UnaryFunc ℕ ℕ ℕ
next ctx req st = (st, ok req.body)

abbrev call : AnyRequest ℕ
call = record { is_client = false; idempotency_level = idempotency_unknown; body = 4 }

interceptor_marks_example :
    let ctx : Context = (fence_intent_key, flag_pointer 6) ∷ [] in
    let r = next ctx call (no_flags, 9) in
    (((interceptor next ctx call (no_flags, 9)).0.0).load 6 ≡ r.0.0.load 6 || is_write call r.1)
    × ((interceptor next ctx call (no_flags, 9)).1 ≡ r.1)
unfolding value
interceptor_marks_example =
    interceptor_marks ((fence_intent_key, flag_pointer 6) ∷ []) call next 6 (no_flags, 9) refl
