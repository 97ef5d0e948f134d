-- ===== src/Temporal/Role.antt =====
-- stdcrpcenttenancytemporalfx.go. The data converter is a parameter.
use stdgo.Base.{ℕ, ◌-◌, ◌%◌, ◌^◌, ◌==◌, ltb, String, Option, none, some, if◌then◌else◌}
use stdgo.Base.Int.{ℤ, pos, negsuc}
use stdgo.Go.Context.{
  Context, Any, DatabaseRole, unspecified, anonymous, webuser, sysuser, unknown_role, role_value,
  role_workflow_key, with_value, value,
}
use stdgo.Go.Errors.{GoError, message, wrap, Result, ok, err}
use stdgo.Tenancy.Roles.{with_database_role, database_role_from_context}
use stdgo.Temporal.Header.{Header, set, Propagator}

pub record Converter (P : Type 0) : Type 0 where
  pub to_payload : ℤ → Result P
  pub from_payload : P → Result ℤ

abbrev pub role_header_key : String
role_header_key = "advdv.stdgo.stdcrpcenttenancy.db_role.v1"

-- The number of a role, as `iota` counts them.
abbrev pub role_number : DatabaseRole → ℕ
role_number unspecified = 0
role_number anonymous = 1
role_number webuser = 2
role_number sysuser = 3
role_number (unknown_role n) = n

-- The conversion to int32.
abbrev pub int32 : ℕ → ℤ
int32 n = let m = n % 2 ^ 32 in if ltb m (2 ^ 31) then pos m else negsuc (2 ^ 32 - m - 1)

module _ {P : Type 0} (conv : Converter P) where
  abbrev pub write_payload : Header P → Result P → Result (Header P)
  write_payload h (err e) = err (wrap "encode stdcrpcenttenancyfx db_role" e)
  write_payload h (ok p) = ok (set role_header_key p h)

  unfoldable pub write : Header P → DatabaseRole → Result (Header P)
  write h role = write_payload h (conv.to_payload (int32 (role_number role)))

  -- The switch on the decoded number.
  abbrev pub of_number : ℤ → Result (Option DatabaseRole)
  of_number (negsuc n) = err (message "stdcrpcenttenancytemporalfx: unknown db_role enum value")
  of_number (pos n) =
      if n == 1
      then ok (some anonymous)
      else if n == 2
      then ok (some webuser)
      else if n == 3
      then ok (some sysuser)
      else if n == 0
      then ok none
      else err (message "stdcrpcenttenancytemporalfx: unknown db_role enum value")

  abbrev pub of_wire : Result ℤ → Result (Option DatabaseRole)
  of_wire (err e) = err (wrap "decode stdcrpcenttenancyfx db_role" e)
  of_wire (ok raw) = of_number raw

  abbrev pub of_stored : Option (Option P) → Result (Option DatabaseRole)
  of_stored none = ok none
  of_stored (some none) = ok none
  of_stored (some (some p)) = of_wire (conv.from_payload p)

  unfoldable pub read : Header P → Result (Option DatabaseRole)
  read h = of_stored (h role_header_key)

  -- No write for a missing or an unspecified role.
  abbrev pub write_carried : Header P → Option DatabaseRole → Result (Header P)
  write_carried h none = ok h
  write_carried h (some unspecified) = ok h
  write_carried h (some role) = write h role

  unfoldable pub inject : Context → Header P → Result (Header P)
  unfolding write
  inject ctx h = write_carried h (database_role_from_context ctx)

  abbrev pub stamped :
      (Context → DatabaseRole → Context)
      → Context
      → Result (Option DatabaseRole)
      → Context × Option GoError
  stamped stamp ctx (err e) = (ctx, some e)
  stamped stamp ctx (ok none) = (ctx, none)
  stamped stamp ctx (ok (some role)) = (stamp ctx role, none)

  unfoldable pub extract : Context → Header P → Context × Option GoError
  unfolding read
  extract ctx h = stamped with_database_role ctx (read h)

  -- A type assertion to `DatabaseRole`.
  abbrev pub as_role : Option Any → Option DatabaseRole
  as_role (some (role_value r)) = some r
  as_role _ = none

  unfoldable pub inject_from_workflow : Context → Header P → Result (Header P)
  unfolding write
  inject_from_workflow ctx h = write_carried h (as_role (value ctx role_workflow_key))

  unfoldable pub extract_to_workflow : Context → Header P → Context × Option GoError
  unfolding read
  extract_to_workflow ctx h =
      stamped (λ ctx r. with_value ctx role_workflow_key (role_value r)) ctx (read h)

  abbrev pub propagator : Propagator P
  propagator = record {
    inject = inject;
    extract = extract;
    inject_from_workflow = inject_from_workflow;
    extract_to_workflow = extract_to_workflow;
  }
