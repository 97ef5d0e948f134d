-- ===== src/Tenancy/Hook/Posture.antt =====
-- What a transaction that is handed out under the tenancy hook runs as.
use Prim.Native.String.{String}
use Prim.Native.String.{◌++◌ as concat}
use text.Mathlib.TextLemmas.{nil-append, append-nil, append_assoc}
use stdgo.Base.{true, Option, none, some, ◌≡◌, refl, ap, subst, sym, ◌∙◌, Bool-cases, inl, inr}
use stdgo.Go.Context.{Context, DatabaseRole, unspecified, anonymous, webuser, sysuser, unknown_role}
use stdgo.Go.Errors.{ok}
use stdgo.Stdent.Transactor.{TxOptions}
use stdgo.Stdent.Driver.{Driver, Wtx, begin_tx, timeout_sql, seq_scan_sql}
use stdgo.Base.Int.{ℤ}
use stdgo.Stdent.Driver.Laws.{setup_sql, begin_tx-IsSetUp}
use stdgo.Tenancy.Roles.{
  has_managed_tx, database_role_from_context, context_with_managed_tx,
  has_managed_tx-context_with_managed_tx, database_role_from_context-context_with_managed_tx,
}
use stdgo.Tenancy.Gate.{enter_managed_tx}
use stdgo.Tenancy.Hook.{Authorize, resolve, hook_role, begin_hook_sql, begin_hook}
use stdgo.Tenancy.Hook.Text.{role_name, hook_text, begin_hook_script}

-- The context's role has a configured name, and the text is what the hook writes for it.
pub record IsPosture (a : Authorize) (sanitize : String → String) (ctx : Context) (text : String)
    : Type 0 where
  pub role : DatabaseRole
  pub name : String
  pub managed : has_managed_tx ctx ≡ true
  pub carried : database_role_from_context ctx ≡ some role
  pub named : role_name a.cfg role ≡ some name
  pub written : text ≡ hook_text a sanitize ctx role name

ok_inj : {x y : String} → ok x ≡ ok y → x ≡ y
ok_inj h = cc

hook_role_inv :
    (a : Authorize) (sanitize : String → String) (ctx : Context) (r : Option DatabaseRole)
    (text : String)
    → hook_role a sanitize ctx "" r ≡ ok text
    → (role : DatabaseRole) × (name : String) × (r ≡ some role) × (role_name a.cfg role ≡ some name)
unfolding resolve
hook_role_inv a sanitize ctx none text h = cc
hook_role_inv a sanitize ctx (some unspecified) text h = cc
hook_role_inv a sanitize ctx (some (unknown_role n)) text h = cc
hook_role_inv a sanitize ctx (some sysuser) text h =
    (sysuser, a.cfg.system_database_role, refl, refl)
hook_role_inv a sanitize ctx (some anonymous) text h =
    (anonymous, a.cfg.anonymous_database_role, refl, refl)
hook_role_inv a sanitize ctx (some webuser) text h =
    (webuser, a.cfg.web_user_database_role, refl, refl)

-- The hook accepts nothing but a managed context with a role that has a configured name.
pub begin_hook_sql-IsPosture :
    (a : Authorize) (sanitize : String → String) (ctx : Context) (text : String)
    → begin_hook_sql a sanitize ctx "" ≡ ok text
    → IsPosture a sanitize ctx text
unfolding begin_hook_sql
begin_hook_sql-IsPosture a sanitize ctx text h = elim (Bool-cases (has_managed_tx ctx)) [
  | inr free ↦ cc (rw free at h)
  | inl managed ↦
      let (role, name, carried, named) =
        hook_role_inv a sanitize ctx (database_role_from_context ctx) text (rw managed at h) in
      let said = (begin_hook_script a sanitize ctx "" role name managed carried named).0 in
      record {
        role = role;
        name = name;
        managed = managed;
        carried = carried;
        named = named;
        written = ok_inj (sym h ∙ said) ∙ nil-append _;
      }
]

timeout_sql-begins :
    {S Cost : Type 0} (d : Driver S Cost) (until : Option ℤ) (sql : String)
    → (rest : String) × (timeout_sql d until sql ≡ concat sql rest)
timeout_sql-begins d none sql = ("", sym (append-nil sql))
timeout_sql-begins d (some until) sql = (_, refl)

seq_scan_sql-begins :
    {S Cost : Type 0} (d : Driver S Cost) (sql rest built : String)
    → built ≡ concat sql rest
    → (rest' : String) × (seq_scan_sql d built ≡ concat sql rest')
seq_scan_sql-begins d sql rest built same = elim (Bool-cases d.discourage_seq_scans) [
  | inl off ↦ (
    concat rest "SET LOCAL enable_seqscan = OFF",
    rw (off, same) (append_assoc sql rest "SET LOCAL enable_seqscan = OFF"),
  )
  | inr on ↦ (rest, rw on same)
]

-- The driver only adds behind the text that the hook wrote.
setup_sql-begins :
    {S Cost : Type 0} (d : Driver S Cost) (ctx : Context) (s : S) (sql : String)
    → (rest : String) × (setup_sql d ctx s sql ≡ concat sql rest)
setup_sql-begins d ctx s sql =
    let (rest, same) = timeout_sql-begins d (d.base.until_deadline ctx s) sql in
    seq_scan_sql-begins d sql rest (timeout_sql d (d.base.until_deadline ctx s) sql) same

-- Under the tenancy hook, whenever the ent driver hands a transaction out, its context was marked
-- by the gate and carries a role with a configured name, and the statement that the database
-- executed in the transaction before that begins with the settings of that role and the statement
-- that sets it.
pub begin_tx-IsPosture :
    {S Cost : Type 0} (a : Authorize) (sanitize : String → String) (d : Driver S Cost)
    (ctx : Context) (opts : TxOptions) (s s' : S) (w : Wtx Cost)
    → d.begin_hook ≡ begin_hook a sanitize
    → begin_tx d ctx opts s ≡ (s', ok w)
    → (s₂ : S) × (text : String) × IsPosture a sanitize ctx text
      × (rest : String) × (d.base.exec ctx w.tx (concat text rest) s₂ ≡ (s', none))
unfolding begin_hook
begin_tx-IsPosture a sanitize d ctx opts s s' w hook h =
    let up = (begin_tx-IsSetUp d ctx opts s s' w h).1 in
    let said = subst (λ b. b ctx "" w.tx up.s₁ ≡ (up.s₂, ok up.sql)) hook up.hooked in
    let (rest, begins) = setup_sql-begins d ctx up.s₂ up.sql in
    (
      up.s₂,
      up.sql,
      begin_hook_sql-IsPosture a sanitize ctx up.sql (ap (λ r. r.1) said),
      rest,
      subst (λ sql. d.base.exec ctx w.tx sql up.s₂ ≡ (s', none)) begins up.executed,
    )

-- A context that the gate let through with a role that has a configured name is accepted by the
-- hook, which writes the text of that role.
pub enter_managed_tx-begin_hook_sql :
    (a : Authorize) (sanitize : String → String) (ctx ctx' : Context) (role : DatabaseRole)
    (name : String)
    → enter_managed_tx ctx ≡ ok ctx'
    → database_role_from_context ctx ≡ some role
    → role_name a.cfg role ≡ some name
    → begin_hook_sql a sanitize ctx' "" ≡ ok (hook_text a sanitize ctx' role name)
unfolding enter_managed_tx
enter_managed_tx-begin_hook_sql a sanitize ctx ctx' role name gate carried named =
    let p : context_with_managed_tx ctx ≡ ctx' = ctx_inj (rw (carried, enter_managed_tx) at gate) in
    subst (λ c. begin_hook_sql a sanitize c "" ≡ ok (hook_text a sanitize c role name)) p
      ((begin_hook_script a sanitize (context_with_managed_tx ctx) "" role name
          (has_managed_tx-context_with_managed_tx ctx)
          (database_role_from_context-context_with_managed_tx ctx ∙ carried) named).0
        ∙ ap ok (nil-append _))
  where
    ctx_inj : {x y : Context} → ok x ≡ ok y → x ≡ y
    ctx_inj h = cc
