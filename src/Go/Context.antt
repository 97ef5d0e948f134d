-- ===== src/Go/Context.antt =====
-- Go's context values: `context.WithValue` extends the chain and `ctx.Value` finds the innermost
-- value of a key. Each package's keys are of a type of their own, so they never collide.
use stdgo.Base.{
  ℕ, String, Bool, true, false, Option, none, some, List, [], ◌∷◌, if◌then◌else◌, str_eq,
}

-- `stdcrpcenttenancyfx.DatabaseRole`; a value outside the named ones is kept by its number.
pub data DatabaseRole : Type 0 where
  unspecified anonymous webuser sysuser : DatabaseRole
  unknown_role : ℕ → DatabaseRole

-- `stdcrpcauthfx.Claims`.
pub record Claims : Type 0 where
  pub subject : String
  pub scopes : List String
  pub tenant_id : String

-- The oneof of `stdauthnfxv1.Access`; an identity may be nil.
pub data Access : Type 0 where
  no_info : Access
  is_anonymous : Bool → Access
  is_system : Bool → Access
  webuser_identity : (subject : Option String) → Access

pub data Key : Type 0 where
  stdtx_key stdent_key : String → Key
  read_promotion_key managed_tx_key database_role_key fence_intent_key authn_info_key
        claims_workflow_key role_workflow_key access_key api_key_fingerprint_key :
      Key

-- A value of type `any`: its dynamic type is its constructor. A transaction handle carries the
-- number of its Go type, and a pointer to an `atomic.Bool` its address.
pub data Any : Type 0 where
  int : ℕ → Any
  bool : Bool → Any
  tx_handle : (type_id : ℕ) (id : ℕ) → Any
  role_value : DatabaseRole → Any
  flag_pointer : ℕ → Any
  claims_value : Claims → Any
  access_value : Access → Any
  bytes_value : String → Any

abbrev pub key_eq : Key → Key → Bool
key_eq (stdtx_key a) (stdtx_key b) = str_eq a b
key_eq (stdent_key a) (stdent_key b) = str_eq a b
key_eq read_promotion_key read_promotion_key = true
key_eq managed_tx_key managed_tx_key = true
key_eq database_role_key database_role_key = true
key_eq fence_intent_key fence_intent_key = true
key_eq authn_info_key authn_info_key = true
key_eq claims_workflow_key claims_workflow_key = true
key_eq role_workflow_key role_workflow_key = true
key_eq access_key access_key = true
key_eq api_key_fingerprint_key api_key_fingerprint_key = true
key_eq _ _ = false

abbrev pub Context : Type 0
Context = List (Key × Any)

unfoldable pub with_value : Context → Key → Any → Context
with_value ctx k v = (k, v) ∷ ctx

unfoldable pub value : Context → Key → Option Any
value [] k = none
value ((j, v) ∷ ctx) k = if key_eq j k then some v else value ctx k
