-- ===== src/Authn/Interceptors.antt =====
-- fx/stdauthnfx/interceptors.go. `R` is the type of responses; an inner handler gets the context.
use stdgo.Base.{ℕ, String, Option, none, some, List, [], ◌∷◌}
use stdgo.Go.Context.{Context}
use stdgo.Go.Errors.{GoError, message, connect_error}
use stdgo.Go.Outcome.{Outcome, returned, panicked, exited}
use stdgo.Authn.Library.{Library, AccessControl}
use stdgo.Authn.Authenticate.{authenticate}

-- `connect.CodeUnauthenticated`, which gRPC numbers alike.
abbrev pub code_unauthenticated : ℕ
code_unauthenticated = 16

-- The values of the incoming metadata's "authorization", where there is metadata.
abbrev pub first_value : Option (List String) → String
first_value none = ""
first_value (some []) = ""
first_value (some (v ∷ l)) = v

abbrev pub refusal : GoError
refusal = connect_error code_unauthenticated (message "failed to authenticate")

module _ {K S T C : Type 0} (lib : Library K S T C) where
  -- `nil_response` is the zero response.
  abbrev pub answer :
      {R : Type 0} → (nil_response : R) → (Context → Outcome R) → Outcome Context → Outcome R
  answer nil_response next (returned ctx none) = next ctx
  answer nil_response next (returned ctx (some e)) = returned nil_response (some refusal)
  answer nil_response next (panicked v) = panicked v
  answer nil_response next exited = exited

  unfoldable pub crpc_interceptor :
      {R : Type 0}
      → AccessControl K S C
      → (nil_response : R) → (Context → Outcome R)
      → Context
      → (procedure authorization : String) → Outcome R
  unfolding authenticate
  crpc_interceptor ac nil_response next ctx procedure authorization =
      answer nil_response next (authenticate lib ac ctx procedure authorization)

  unfoldable pub grpc_interceptor :
      {R : Type 0}
      → AccessControl K S C
      → (nil_response : R) → (Context → Outcome R)
      → Context
      → (full_method : String) → (metadata : Option (List String)) → Outcome R
  unfolding authenticate
  grpc_interceptor ac nil_response next ctx full_method metadata =
      answer nil_response next (authenticate lib ac ctx full_method (first_value metadata))
