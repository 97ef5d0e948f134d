-- ===== src/Lambda.antt =====
-- stdlambda/invoker.go and handler_func.go: a function of AWS Lambda and the client that invokes it.
-- JSON, AWS's client and the error that a payload may carry are parameters; payloads are texts.
pub mod Roundtrip
mod Tests
use stdgo.Base.{
  ℕ, ◌==◌, String, Bool, true, false, Option, none, some, if◌then◌else◌, str_eq, ◌≡◌, refl,
}
use stdgo.Go.Context.{Context}
use stdgo.Go.Errors.{GoError, message, wrap, Result, ok, err}
use stdgo.Go.Results.{wrapping, ◌>>=◌}

-- `error_message` is the text at "errorMessage", blank where there is none; `response_error` decodes
-- such a payload.
pub record Client : Type 0 where
  pub invoke : Context → (function_name payload : String) → Result (ℕ × String)
  pub error_message : (payload : String) → String
  pub response_error : (payload : String) → Result GoError

-- The encoding of a type.
pub record Json (A : Type 0) : Type 0 where
  pub marshal : A → Result String
  pub unmarshal : String → Result A

module _ {I O : Type 0} (input : Json I) (output : Json O) where
  -- `JSONHandlerFunc.Invoke`
  unfoldable pub handle : (Context → I → Result O) → Context → (payload : String) → Result String
  handle f ctx payload = do
    inp ← wrapping "failed to unmarshal payload" (input.unmarshal payload)
    out ← f ctx inp
    wrapping "failed to marshal output" (output.marshal out)

  abbrev pub failed_response : Result GoError → Result O
  failed_response (err e) = err (wrap "failed to marshal invoke response error" e)
  failed_response (ok e) = err (wrap "" e)

  abbrev pub of_response : Client → ℕ × String → Result O
  of_response client (status, payload) =
      if status == 200
      then if str_eq (client.error_message payload) ""
        then wrapping "failed to unmarshal output" (output.unmarshal payload)
        else failed_response (client.response_error payload)
      else err (message "unexpected status code")

  -- `invoke`, as the two kinds of invoker call it.
  unfoldable pub invoke : Client → (function_name : String) → Context → I → Result O
  invoke client function_name ctx inp = do
    payload ← wrapping "failed to marshal input" (input.marshal inp)
    result ← wrapping "failed to invoke" (client.invoke ctx function_name payload)
    of_response client result
