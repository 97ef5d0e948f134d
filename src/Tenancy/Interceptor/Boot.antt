-- ===== src/Tenancy/Interceptor/Boot.antt =====
-- What a start that succeeded promises of every call of a procedure.
use Prim.Native.Char.{code}
use Prim.Native.String.{String, ◌++◌ as concat}
use text.Mathlib.TextLemmas.{nil-append, cons-append}
use stdgo.Base.{none, some, List, [], ◌∷◌, ◌≡◌, ◌≢◌, refl, arith, inl, inr, All, Option-cases, ◌↔◌}
use stdgo.Go.Context.{Context, DatabaseRole}
use stdgo.Go.Errors.{ok, Result-cases}
use stdgo.Tenancy.Hook.{Config}
use stdgo.Tenancy.Hook.Text.{role_name}
use stdgo.Tenancy.Interceptor.{
  DatabaseRoleResolver, Registry, replace_slash, full_name_of, procedure_of, required_database_role,
  interceptor, Params, Provided, validate, authorize_of, new,
}

abbrev pub NoSlash : String → Type 0
NoSlash String.[] = Unit
NoSlash (String.◌∷◌ c s) = (code c ≢ 47) × NoSlash s

replace_slash_first :
    (svc m : String)
    → NoSlash svc
    → replace_slash (concat svc (concat "/" m)) ≡ concat svc (concat "." m)
unfolding replace_slash
replace_slash_first String.[] m h = rw (nil-append, nil-append, cons-append, nil-append) refl
replace_slash_first (String.◌∷◌ c s) m (h, hs) =
    rw (cons-append c s (concat "/" m), cons-append c s (concat "." m))
      (ground (arith, replace_slash_first s m hs))

-- A procedure that AllProcedures names is looked up under its service's full name, a dot and the
-- method's name, when no slash is in the service's name.
pub full_name_of-procedure_of :
    (svc m : String) → NoSlash svc → full_name_of (procedure_of svc m) ≡ concat svc (concat "." m)
unfolding replace_slash
full_name_of-procedure_of svc m h = rw (cons-append, nil-append) (replace_slash_first svc m h)

-- A procedure whose role resolves.
abbrev pub Resolves : DatabaseRoleResolver → String → Type 0
Resolves r proc = (role : DatabaseRole) × (r.required_database_role proc ≡ ok role)

validate-All :
    (r : DatabaseRoleResolver) (procs : List String)
    → validate r procs ≡ none
    → All (Resolves r) procs
unfolding validate
validate-All r [] h = tt
validate-All r (proc ∷ l) h = elim (Result-cases (r.required_database_role proc)) [
  | inl (e, failed) ↦ cc (rw (failed, validate) at h)
  | inr (role, good) ↦ ((role, good), validate-All r l (rw (good, validate) at h))
]

All-validate :
    (r : DatabaseRoleResolver) (procs : List String)
    → All (Resolves r) procs
    → validate r procs ≡ none
unfolding validate
All-validate r [] h = refl
All-validate r (proc ∷ l) ((role, good), h) = rw (good, validate) (All-validate r l h)

module _ {S Body Resp : Type 0} where
  -- What the start hands out when the resolver is there and all is well.
  abbrev pub provided : Params → DatabaseRoleResolver → Provided S Body Resp
  provided params r = record { authorize = authorize_of params; interceptor = interceptor r }

  -- With a resolver whose procedures are known, New hands out the interceptor just when the role of
  -- every procedure resolves.
  pub new-All :
      (params : Params) (r : DatabaseRoleResolver) (procs : List String)
      → params.role_resolver ≡ some r
      → r.all_procedures ≡ ok procs
      → (new params ≡ ok (provided params r)) ↔ All (Resolves r) procs
  unfolding new
  new-All params r procs wired known =
      (λ h. validate-All r procs (no_error h), λ h. rw (wired, known, All-validate r procs h) refl)
    where
      no_error : new params ≡ ok (provided params r) → validate r procs ≡ none
      no_error h = elim (Option-cases (validate r procs)) [
        | inl none_left ↦ none_left
        | inr (e, failed) ↦ cc (rw (new, wired, known, failed) at h)
      ]

module _ {Method Opts Raw : Type 0} (reg : Registry Method Opts Raw) (cfg : Config) where
  Named : DatabaseRole → Type 0
  Named role = (name : String) × (role_name cfg role ≡ some name)
