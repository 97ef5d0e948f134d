-- ===== src/Crpc.antt =====
-- stdcrpc/arg_read.go and stdcrpc/stdcrpcintercept/validate_response.go. `uuid.Parse`, the type `U` of
-- its results and protovalidate are parameters.
pub mod Reading
mod Tests
use stdgo.Base.{
  ℕ, String, Bool, true, false, Option, none, some, List, [], ◌∷◌, ◌++◌, if◌then◌else◌,
}
use stdgo.Go.Context.{Context}
use stdgo.Go.Errors.{GoError, message, wrap, connect_error, Result, ok, err}

pub record Uuids (U : Type 0) : Type 0 where
  pub parse : String → Result U
  pub nil_uuid : U
  pub is_nil : U → Bool

-- `ArgRead`: the errors so far.
abbrev pub ArgRead : Type 0
ArgRead = List GoError

-- `connect.CodeInvalidArgument` and `connect.CodeInternal`
abbrev pub code_invalid_argument : ℕ
code_invalid_argument = 3

abbrev pub code_internal : ℕ
code_internal = 13

module _ {U : Type 0} (lib : Uuids U) where
  abbrev pub of_parse : Result U → ArgRead → U × ArgRead
  of_parse (ok u) abi = (u, abi)
  of_parse (err e) abi = (lib.nil_uuid, abi ++ (e ∷ []))

  unfoldable pub uuid : String → ArgRead → U × ArgRead
  uuid s abi = of_parse (lib.parse s) abi

  abbrev pub pointer_of : U × ArgRead → Option U × ArgRead
  pointer_of (u, abo) = ((if lib.is_nil u then none else some u), abo)

  unfoldable pub uuid_pointer : Option String → ArgRead → Option U × ArgRead
  unfolding uuid
  uuid_pointer none abi = (none, abi)
  uuid_pointer (some s) abi = pointer_of (uuid s abi)

-- `errors.Join` of a list that is not empty.
abbrev pub join : GoError → List GoError → GoError
join e [] = e
join e (e' ∷ l) = wrap "" (join e' l)

unfoldable pub error : ArgRead → Option GoError
error [] = none
error (e ∷ l) = some (connect_error code_invalid_argument (join e l))

-- A response's message, or another value.
pub data Body (M : Type 0) : Type 0 where
  proto : M → Body M
  other : Body M

module _ {M : Type 0} (validator : M → Option GoError) where
  abbrev pub as_internal : Option GoError → Option GoError
  as_internal none = none
  as_internal (some e) = some (connect_error code_internal (wrap "response" e))

  unfoldable pub validate : Body M → Option GoError
  validate other = some (message "expected proto.Message")
  validate (proto m) = as_internal (validator m)

  -- A response with the error that comes with it; its body is its message.
  abbrev pub validated : {R : Type 0} → (R → Body M) → R × Option GoError → R × Option GoError
  validated body (resp, some e) = (resp, some e)
  validated body (resp, none) = (resp, validate (body resp))

  unfoldable pub validate_response :
      {Q R : Type 0}
      → (R → Body M)
      → (Context → Q → R × Option GoError)
      → (is_client : Bool) → Context
      → Q
      → R × Option GoError
  unfolding validate
  validate_response body next is_client ctx req =
      if is_client then next ctx req else validated body (next ctx req)
