-- ===== src/Tenancy/Hook/Text.antt =====
-- The text that the hook writes, read back by the rules of SQL.
use Prim.Native.String.{String, ◌++◌ as concat}
use mathlib.Core.List.{[], ◌∷◌, ◌++◌}
use text.Mathlib.TextLemmas.{nil-append, cons-append, append-nil, append_assoc}
use stdgo.Base.{
  length-append, ℕ, zero, suc, true, Option, none, some, ◌≡◌, refl, ap, subst, sym, ◌∙◌, arith,
  Bool-cases, inl, inr, if◌then◌else◌, str_eq, List, length, ◌<◌,
}
use stdgo.Go.Context.{Context, DatabaseRole, unspecified, anonymous, webuser, sysuser, unknown_role}
use stdgo.Go.Errors.{ok}
use stdgo.Tenancy.Roles.{has_managed_tx, database_role_from_context}
use stdgo.Tenancy.Quote.{set_config_sql}
use stdgo.Tenancy.Quote.Roundtrip.{strip, read_set_config, read_set_config-set_config_sql}
use stdgo.Tenancy.Hook.{
  Config, Authorize, resolve, write_tenant, write_subject, write_role, write_all, hook_role,
  begin_hook_sql,
}

-- The configured name of a posture's database role.
abbrev pub role_name : Config → DatabaseRole → Option String
role_name cfg sysuser = some cfg.system_database_role
role_name cfg anonymous = some cfg.anonymous_database_role
role_name cfg webuser = some cfg.web_user_database_role
role_name cfg _ = none

-- The settings that a transaction is to carry: the tenant for a web user only, and the subject
-- whenever one is known.
abbrev pub tenant_settings : Authorize → Context → DatabaseRole → List (String × String)
tenant_settings a ctx webuser = (a.cfg.tenant_id_guc, a.tenant_id ctx) ∷ []
tenant_settings a ctx _ = []

abbrev pub subject_settings :
    Authorize → Context → Option (Context → String) → List (String × String)
subject_settings a ctx none = []
subject_settings a ctx (some subject_from) =
    if str_eq (subject_from ctx) "" then [] else (a.cfg.subject_guc, subject_from ctx) ∷ []

abbrev pub settings : Authorize → Context → DatabaseRole → List (String × String)
settings a ctx role = tenant_settings a ctx role ++ subject_settings a ctx a.subject

unfoldable pub render : List (String × String) → String
render [] = ""
render ((name, v) ∷ l) = concat (set_config_sql name v) (render l)

-- The `set_config` statements at the head of a text, and what follows them; at most `fuel`.
unfoldable pub read_script : (fuel : ℕ) → String → List (String × String) × String
read_script zero s = ([], s)
read_script (suc fuel) s = elim (read_set_config s) [
  | none ↦ ([], s)
  | some (name, v, rest) ↦ let (l, end) = read_script fuel rest in ((name, v) ∷ l, end)
]

abbrev pub role_sql : (String → String) → String → String
role_sql sanitize name = concat "SET LOCAL ROLE " (concat (sanitize name) "; ")

strip-role_sql :
    (sanitize : String → String) (name : String)
    → strip "SELECT set_config(" (role_sql sanitize name) ≡ none
unfolding strip
strip-role_sql sanitize name = rw (cons-append, cons-append, cons-append) refl

read_set_config-role_sql :
    (sanitize : String → String) (name : String) → read_set_config (role_sql sanitize name) ≡ none
unfolding read_set_config
read_set_config-role_sql sanitize name = rw (strip-role_sql sanitize name) refl

read_script-render :
    (l : List (String × String)) (fuel : ℕ) (end : String)
    → length l < fuel
    → read_set_config end ≡ none
    → read_script fuel (concat (render l) end) ≡ (l, end)
unfolding read_script render
read_script-render l zero end h stop = absurd (omega arith)
read_script-render [] (suc fuel) end h stop =
    subst (λ t. read_script (suc fuel) t ≡ ([], end)) (sym (nil-append end))
      (rw (stop, read_script) refl)
read_script-render ((name, v) ∷ l) (suc fuel) end h stop =
    subst (λ t. read_script (suc fuel) t ≡ ((name, v) ∷ l, end))
      (sym (append_assoc (set_config_sql name v) (render l) end))
      (rw (read_set_config-set_config_sql name v (concat (render l) end), read_script)
        (ap (λ q. ((name, v) ∷ q.0, q.1)) (read_script-render l fuel end (omega arith) stop)))

write_subject-eq :
    (a : Authorize) (sanitize : String → String) (ctx : Context) (f : Option (Context → String))
    (sqlb : String)
    → write_subject a sanitize ctx f sqlb ≡ concat sqlb (render (subject_settings a ctx f))
unfolding render
write_subject-eq a sanitize ctx none sqlb = sym (append-nil sqlb)
write_subject-eq a sanitize ctx (some f) sqlb = elim (Bool-cases (str_eq (f ctx) "")) [
  | inl empty ↦ rw empty (sym (append-nil sqlb))
  | inr named ↦ rw named (ap (concat sqlb) (sym (append-nil _)))
]

render-append :
    (xs ys : List (String × String)) → render (xs ++ ys) ≡ concat (render xs) (render ys)
unfolding render
render-append [] ys = sym (nil-append (render ys))
render-append ((name, v) ∷ xs) ys =
    ap (concat (set_config_sql name v)) (render-append xs ys)
    ∙ sym (append_assoc (set_config_sql name v) (render xs) (render ys))

-- The text of the hook behind the builder's text.
abbrev pub hook_text : Authorize → (String → String) → Context → DatabaseRole → String → String
hook_text a sanitize ctx role name = concat (render (settings a ctx role)) (role_sql sanitize name)

module _ (a : Authorize) (sanitize : String → String) (ctx : Context) (sqlb : String) where
  some_inj : {A : Type 0} {x y : A} → some x ≡ some y → x ≡ y
  some_inj h = cc

  write_role-eq :
      (guc : Option String) (ts : List (String × String)) (name : String)
      → write_tenant a sanitize guc sqlb ≡ concat sqlb (render ts)
      → write_role a sanitize name
          (write_subject a sanitize ctx a.subject (write_tenant a sanitize guc sqlb))
        ≡ concat sqlb
            (concat (render (ts ++ subject_settings a ctx a.subject)) (role_sql sanitize name))
  write_role-eq guc ts name h =
      rw
        (
          h,
          write_subject-eq a sanitize ctx a.subject (concat sqlb (render ts)),
          render-append,
          append_assoc,
        )
        (simp append_assoc)

  write_all-eq :
      (role : DatabaseRole) (name : String)
      → role_name a.cfg role ≡ some name
      → write_all a sanitize ctx sqlb (resolve a sanitize ctx role)
        ≡ ok (concat sqlb (hook_text a sanitize ctx role name))
  unfolding resolve render
  write_all-eq sysuser name h =
      subst
        (λ n.
          write_all a sanitize ctx sqlb (resolve a sanitize ctx sysuser)
          ≡ ok (concat sqlb (hook_text a sanitize ctx sysuser n)))
        (some_inj h)
        (ap ok (write_role-eq none [] a.cfg.system_database_role (sym (append-nil sqlb))))
  write_all-eq anonymous name h =
      subst
        (λ n.
          write_all a sanitize ctx sqlb (resolve a sanitize ctx anonymous)
          ≡ ok (concat sqlb (hook_text a sanitize ctx anonymous n)))
        (some_inj h)
        (ap ok (write_role-eq none [] a.cfg.anonymous_database_role (sym (append-nil sqlb))))
  write_all-eq webuser name h =
      subst
        (λ n.
          write_all a sanitize ctx sqlb (resolve a sanitize ctx webuser)
          ≡ ok (concat sqlb (hook_text a sanitize ctx webuser n)))
        (some_inj h)
        (ap ok (
          write_role-eq (some (a.tenant_id ctx)) ((a.cfg.tenant_id_guc, a.tenant_id ctx) ∷ [])
            a.cfg.web_user_database_role (ap (concat sqlb) (sym (append-nil _)))))
  write_all-eq unspecified name h = cc
  write_all-eq (unknown_role n) name h = cc

  hook_role-eq :
      (role : DatabaseRole) (name : String)
      → role_name a.cfg role ≡ some name
      → hook_role a sanitize ctx sqlb (some role)
        ≡ ok (concat sqlb (hook_text a sanitize ctx role name))
  hook_role-eq sysuser name h = write_all-eq sysuser name h
  hook_role-eq anonymous name h = write_all-eq anonymous name h
  hook_role-eq webuser name h = write_all-eq webuser name h
  hook_role-eq unspecified name h = cc
  hook_role-eq (unknown_role n) name h = cc

tenant_settings_size :
    (a : Authorize) (ctx : Context) (role : DatabaseRole) → length (tenant_settings a ctx role) < 2
tenant_settings_size a ctx sysuser = omega arith
tenant_settings_size a ctx anonymous = omega arith
tenant_settings_size a ctx webuser = omega arith
tenant_settings_size a ctx unspecified = omega arith
tenant_settings_size a ctx (unknown_role n) = omega arith

subject_settings_size :
    (a : Authorize) (ctx : Context) (f : Option (Context → String))
    → length (subject_settings a ctx f) < 2
subject_settings_size a ctx none = omega arith
subject_settings_size a ctx (some f) = elim (Bool-cases (str_eq (f ctx) "")) [
  | inl h ↦ rw h (omega arith)
  | inr h ↦ rw h (omega arith)
]

settings_size :
    (a : Authorize) (ctx : Context) (role : DatabaseRole) → length (settings a ctx role) < 3
settings_size a ctx role =
    rw (length-append (tenant_settings a ctx role) (subject_settings a ctx a.subject))
      (omega (arith, tenant_settings_size a ctx role, subject_settings_size a ctx a.subject))

-- On a marked context that carries a role with a configured name the hook succeeds, and what it
-- writes reads back, by the rules of SQL for string literals, as the settings of that role followed
-- by the statement that sets the role, whatever the tenant and the subject are.
pub begin_hook_script :
    (a : Authorize) (sanitize : String → String) (ctx : Context) (sqlb : String)
    (role : DatabaseRole) (name : String)
    → has_managed_tx ctx ≡ true
    → database_role_from_context ctx ≡ some role
    → role_name a.cfg role ≡ some name
    → let text = hook_text a sanitize ctx role name in
      (begin_hook_sql a sanitize ctx sqlb ≡ ok (concat sqlb text))
      × (read_script 3 text ≡ (settings a ctx role, role_sql sanitize name))
unfolding begin_hook_sql
begin_hook_script a sanitize ctx sqlb role name managed h named = (
  rw (managed, h) (hook_role-eq a sanitize ctx sqlb role name named),
  read_script-render (settings a ctx role) 3 (role_sql sanitize name) (settings_size a ctx role)
      (read_set_config-role_sql sanitize name),
)
