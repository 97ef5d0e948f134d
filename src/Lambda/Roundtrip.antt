-- ===== src/Lambda/Roundtrip.antt =====
-- An invoker in front of the function that it names gives what the function computes.
use stdgo.Base.{ℕ, String, true, str_eq, ◌≡◌, refl, ◌∙◌}
use stdgo.Go.Context.{Context}
use stdgo.Go.Errors.{GoError, Result, ok, err}
use stdgo.Lambda.{Client, Json, handle, invoke}

-- What JSON documents: what it encodes it decodes to the same.
abbrev pub Encodes : {A : Type 0} → Json A → Type 0
Encodes {A} json = (a : A) (s : String) → json.marshal a ≡ ok s → json.unmarshal s ≡ ok a

-- What the platform hands back for a function's outcome: its response, or a payload with its error.
abbrev pub deployed : (error_payload : GoError → String) → Result String → Result (ℕ × String)
deployed error_payload (ok response) = ok (200, response)
deployed error_payload (err e) = ok (200, error_payload e)

module _ {I O : Type 0} (input : Json I) (output : Json O) where
  -- An invoker whose client reaches the platform that runs a JSON handler gives what the handler's
  -- function computes for the input, when the function succeeds, its output encodes to a payload
  -- with no error message in it, and both encodings decode what they encode.
  pub invoke-handle :
      (client : Client) (error_payload : GoError → String) (name : String) (ctx ctx' : Context)
      (f : Context → I → Result O) (inp : I) (out : O) (payload response : String)
      → Encodes input
      → Encodes output
      → client.invoke ctx name payload ≡ deployed error_payload (handle input output f ctx' payload)
      → input.marshal inp ≡ ok payload
      → f ctx' inp ≡ ok out
      → output.marshal out ≡ ok response
      → str_eq (client.error_message response) "" ≡ true
      → invoke input output client name ctx inp ≡ ok out
  unfolding handle invoke
  invoke-handle client error_payload name ctx ctx' f inp out payload response reads writes routes
        sent ran made quiet =
      let answers : client.invoke ctx name payload ≡ ok (200, response) =
        routes ∙ rw (reads inp payload sent, ran, made) refl in
      rw (sent, answers, quiet, writes out response made) refl
