-- ===== src/Pools.antt =====
-- fx/stdpgxfx/db.go: the configuration of connection pools, their hosts, and the authentication of
-- their connections by tokens of AWS. Parsing a connection string, building a token from credentials
-- `C`, and the driver that makes pools `D` on a state `S` are parameters. Logging is left out.
pub mod Connecting
mod Tests
use Prim.Native.Char.{code}
use Prim.Native.String
use Prim.Native.String.{◌++◌ as concat}
use stdgo.Base.{
  ℕ, ◌==◌, leb, String, Bool, true, false, ◌&&◌, ◌||◌, not, Option, none, some, List, [], ◌∷◌, ◌++◌,
  if◌then◌else◌, str_eq,
}
use stdgo.Base.Int.{pos}
use stdgo.Go.Context.{Context}
use stdgo.Go.Errors.{GoError, Result, ok, err, message, wrap}
use stdgo.Go.Results.{wrapping}
use stdgo.Go.Format.{format_int}
use stdgo.Go.Strings.{has_suffix, replace_first}
use stdgo.Httpware.{split_dots, join_dots}

pub record Config : Type 0 where
  pub main_database_url : String
  pub iam_auth : Bool
  pub hosts : List (String × String)

-- `pgx.ConnConfig`
pub record ConnConfig : Type 0 where
  pub host : String
  pub port : ℕ
  pub user : String
  pub password : String

-- A hook changes the configuration of the connection that it is given.
abbrev pub BeforeConnect : Type 0
BeforeConnect = Context → ConnConfig → ConnConfig × Option GoError

-- `pgxpool.Config`
pub record PoolConfig : Type 0 where
  pub conn_config : ConnConfig
  pub before_connect : Option BeforeConnect

-- The expression `[a-z]{2}-[a-z]+-\d+` of a region's name.
abbrev is_lower : ℕ → Bool
is_lower c = leb 97 c && leb c 122

abbrev is_digit : ℕ → Bool
is_digit c = leb 48 c && leb c 57

abbrev pub after : (ℕ → Bool) → (String → Bool) → String → Bool
after test rest String.[] = false
after test rest (String.◌∷◌ c s) = test (code c) && rest s

unfoldable pub is_number : String → Bool
is_number String.[] = false
is_number (String.◌∷◌ c s) = let rest = is_number s in is_digit (code c) && (str_eq s "" || rest)

unfoldable pub is_area : (has_letter : Bool) → String → Bool
is_area has_letter String.[] = false
is_area has_letter (String.◌∷◌ c s) =
    let rest = is_area true s in
    if is_lower (code c) then rest else has_letter && (code c == 45) && is_number s

abbrev pub is_region : String → Bool
is_region = after is_lower (after is_lower (after (λ c. c == 45) (is_area false)))

-- The parts of a host between its dots, against the whole expression.
unfoldable pub region_of : String → List String → String
region_of a [] = ""
region_of a (b ∷ []) = ""
region_of a (b ∷ region ∷ l) =
    if not (str_eq a "")
      && not (str_eq b "")
      && is_region region
      && (str_eq (join_dots l) "rds.amazonaws.com" || str_eq (join_dots l) "rds.amazonaws.com.")
    then region
    else ""

unfoldable pub derive_signing_region : String → String
unfolding split_dots region_of
derive_signing_region host = let (a, l) = split_dots host in region_of a l

abbrev pub with_host : String → PoolConfig → PoolConfig
with_host host pcfg = record pcfg { conn_config = record pcfg.conn_config { host = host } }

abbrev pub with_password : String → ConnConfig → ConnConfig
with_password password c = record c { password = password }

unfoldable pub look_up : String → List (String × String) → Option String
look_up name [] = none
look_up name ((key, host) ∷ l) =
    let rest = look_up name l in if str_eq key name then some host else rest

abbrev pub overridden : PoolConfig → Option String → PoolConfig × Bool
overridden pcfg none = (pcfg, false)
overridden pcfg (some host) = if str_eq host "" then (pcfg, false) else (with_host host pcfg, true)

unfoldable pub apply_pool_host_override :
    (name : String) → PoolConfig → (hosts : List (String × String)) → PoolConfig × Bool
unfolding look_up
apply_pool_host_override name pcfg hosts = overridden pcfg (look_up name hosts)

abbrev pub reader_host : (host : String) → Option String → String
reader_host host none = host
reader_host host (some new) = if has_suffix host ".rds.amazonaws.com" then new else host

unfoldable pub apply_pool_host_conventions : (name : String) → PoolConfig → PoolConfig
unfolding has_suffix replace_first
apply_pool_host_conventions name pcfg =
    let host = pcfg.conn_config.host in
    if str_eq name "ro"
    then with_host (reader_host host (replace_first host ".cluster-" ".cluster-ro-")) pcfg
    else pcfg

abbrev pub derived : Option (PoolConfig → PoolConfig) → PoolConfig → PoolConfig
derived none pcfg = pcfg
derived (some deriver) pcfg = deriver pcfg

abbrev pub unless_overridden : (name : String) → PoolConfig × Bool → PoolConfig
unless_overridden name (pcfg, true) = pcfg
unless_overridden name (pcfg, false) = apply_pool_host_conventions name pcfg

-- The configuration that `newDB` gives to its driver.
unfoldable pub pool_config :
    (name : String) → Option (PoolConfig → PoolConfig) → Config → PoolConfig → PoolConfig
unfolding apply_pool_host_override
pool_config name deriver cfg pcfg =
    unless_overridden name (apply_pool_host_override name (derived deriver pcfg) cfg.hosts)

abbrev pub with_token : ConnConfig → Result String → ConnConfig × Option GoError
with_token c (err e) = (c, some (wrap "failed to build iam token" e))
with_token c (ok token) = (with_password token c, none)

-- What a connection runs before it is made.
abbrev pub connect : Option BeforeConnect → Context → ConnConfig → ConnConfig × Option GoError
connect none ctx c = (c, none)
connect (some hook) ctx c = hook ctx c

module _ {C : Type 0}
    (build_auth_token : Context → (endpoint region user : String) → C → Result String) where
  unfoldable pub build_iam_auth_token :
      Context → ℕ → (user region : String) → C → (host : String) → Result String
  build_iam_auth_token ctx port user region credentials host = wrapping "underlying" (
      build_auth_token ctx (concat host (concat ":" (format_int (pos port)))) region user
        credentials)

  -- The hook, from the result of the one before it.
  unfoldable pub signed : C → Context → ConnConfig × Option GoError → ConnConfig × Option GoError
  unfolding build_iam_auth_token
  signed credentials ctx (c, some e) = (c, some e)
  signed credentials ctx (c, none) =
      let region = derive_signing_region c.host in
      if str_eq region ""
      then (c, some (message "could not derive IAM signing region from host"))
      else with_token c (build_iam_auth_token ctx c.port c.user region credentials c.host)

  unfoldable pub install_iam_auth_before_connect : Option C → PoolConfig → Result PoolConfig
  unfolding signed
  install_iam_auth_before_connect none pcfg =
      err (message "IAM authentication is enabled but no AWS configuration provided")
  install_iam_auth_before_connect (some credentials) pcfg = ok (record pcfg {
    before_connect = some (λ ctx c. signed credentials ctx (connect pcfg.before_connect ctx c));
  })

  abbrev pub with_iam_auth : Bool → Option C → Result PoolConfig → Result PoolConfig
  with_iam_auth iam credentials (err e) = err (wrap "failed to parse connecting string" e)
  with_iam_auth true credentials (ok pcfg) = install_iam_auth_before_connect credentials pcfg
  with_iam_auth false credentials (ok pcfg) = ok pcfg

  unfoldable pub new :
      (parse_config : String → Result PoolConfig) → Option C → Config → Result PoolConfig
  unfolding install_iam_auth_before_connect
  new parse_config credentials cfg =
      with_iam_auth cfg.iam_auth credentials (parse_config cfg.main_database_url)

pub record Driver (S D : Type 0) : Type 0 where
  pub new_pool : PoolConfig → S → S × Result D
  pub close : D → S → S × Option GoError

module _ {S D : Type 0} (drv : Driver S D) where
  -- The pools of a lifecycle are those that its stop closes.
  abbrev pub kept_open : List D → S × Result D → (S × List D) × Result D
  kept_open pools (s, err e) = ((s, pools), err e)
  kept_open pools (s, ok db) = ((s, pools ++ (db ∷ [])), ok db)

  unfoldable pub new_db :
      (name : String)
      → Option (PoolConfig → PoolConfig)
      → Config
      → PoolConfig
      → S × List D
      → (S × List D) × Result D
  unfolding pool_config
  new_db name deriver cfg pcfg (s, pools) =
      kept_open pools (drv.new_pool (pool_config name deriver cfg pcfg) s)

  unfoldable pub new_derived_db :
      (name : String)
      → Option (PoolConfig → PoolConfig)
      → Config
      → PoolConfig
      → S × List D
      → (S × List D) × Result D
  unfolding new_db
  new_derived_db name deriver cfg pcfg w =
      let (w, db) = new_db name deriver cfg pcfg w in
      (w, wrapping "failed to created derived pool" db)
