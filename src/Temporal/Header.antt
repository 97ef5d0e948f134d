-- ===== src/Temporal/Header.antt =====
-- What the propagators use of the Temporal SDK: headers of payloads, and the four calls of
-- `workflow.ContextPropagator`. A workflow's context holds values like any other.
use stdgo.Base.{String, Option, none, some, if◌then◌else◌, str_eq}
use stdgo.Go.Context.{Context}
use stdgo.Go.Errors.{GoError, Result}

-- What a reader gets for a name; a payload may be nil.
abbrev pub Header : Type 0 → Type 0
Header P = String → Option (Option P)

abbrev pub no_header : {P : Type 0} → Header P
no_header name = none

-- `HeaderWriter.Set`
abbrev pub set : {P : Type 0} → String → P → Header P → Header P
set key p h name = if str_eq key name then some (some p) else h name

pub record Propagator (P : Type 0) : Type 0 where
  pub inject : Context → Header P → Result (Header P)
  pub extract : Context → Header P → Context × Option GoError
  pub inject_from_workflow : Context → Header P → Result (Header P)
  pub extract_to_workflow : Context → Header P → Context × Option GoError
