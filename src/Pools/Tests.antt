-- ===== src/Pools/Tests.antt =====
-- The pools of a cluster of Aurora, and a connection of its read-only pool.
use Prim.Native.String.{◌++◌ as concat}
use stdgo.Base.{String, true, none, some, [], ◌∷◌, ◌≡◌, refl}
use stdgo.Go.Context.{Context}
use stdgo.Go.Errors.{Result, ok}
use stdgo.Pools
use stdgo.Pools.{Config, ConnConfig, PoolConfig}
use stdgo.Pools.Connecting.{connect-Authenticates}

abbrev writer : ConnConfig
writer = record {
  host = "c.cluster-a1.eu-central-1.rds.amazonaws.com";
  port = 5432;
  user = "app";
  password = "";
}

abbrev reader : ConnConfig
reader = record writer { host = "c.cluster-ro-a1.eu-central-1.rds.amazonaws.com" }

abbrev pool : ConnConfig → PoolConfig
pool c = record { conn_config = c; before_connect = none }

abbrev config : Config
config = record {
  main_database_url = "postgres://";
  iam_auth = true;
  hosts = ("rw", "writer.example.com") ∷ ("ro", "") ∷ [];
}

-- A token that tells what it is for.
abbrev build_auth_token : Context → (endpoint region user : String) → String → Result String
build_auth_token ctx endpoint region user key =
    ok (concat key (concat user (concat region endpoint)))

-- An empty override is none, and the read-only pool goes to the readers.
read_only : (Pools.pool_config "ro" none config (pool writer)).conn_config ≡ reader
unfolding Pools.pool_config Pools.apply_pool_host_override Pools.apply_pool_host_conventions
read_only = refl

read_write :
    (Pools.pool_config "rw" none config (pool writer)).conn_config.host ≡ "writer.example.com"
unfolding Pools.pool_config Pools.apply_pool_host_override
read_write = refl

-- A host that is a reader's already changes as well.
twice :
    (Pools.pool_config "ro" none config (pool reader)).conn_config.host
    ≡ "c.cluster-ro-ro-a1.eu-central-1.rds.amazonaws.com"
unfolding Pools.pool_config Pools.apply_pool_host_override Pools.apply_pool_host_conventions
twice = refl

regions :
    (Pools.derive_signing_region "c.global-a1.global.rds.amazonaws.com" ≡ "")
    × (Pools.derive_signing_region "i.a1.ap-southeast-1.rds.amazonaws.com." ≡ "ap-southeast-1")
    × (Pools.derive_signing_region "localhost" ≡ "")
unfolding Pools.derive_signing_region Pools.region_of Pools.is_area Pools.is_number
regions = (refl, refl, refl)

connect-Authenticates_example :
    (k : String) × (base : PoolConfig) × (some "key:" ≡ some k)
    × (ok (pool writer) ≡ ok base)
    × Pools.Connecting.Authenticates build_auth_token [] k base.before_connect reader
        (record reader {
          password = "key:appeu-central-1c.cluster-ro-a1.eu-central-1.rds.amazonaws.com:5432";
        })
unfolding Pools.new Pools.install_iam_auth_before_connect Pools.signed Pools.pool_config
    Pools.apply_pool_host_override Pools.apply_pool_host_conventions Pools.build_iam_auth_token
    Pools.derive_signing_region Pools.region_of Pools.is_area Pools.is_number
    stdgo.Go.Format.format_int
connect-Authenticates_example =
    connect-Authenticates build_auth_token (λ url. ok (pool writer)) (some "key:") config
      (record (pool writer) {
        before_connect = some (λ ctx c. Pools.signed build_auth_token "key:" ctx (c, none));
      })
      "ro" none [] reader
      (record reader {
        password = "key:appeu-central-1c.cluster-ro-a1.eu-central-1.rds.amazonaws.com:5432";
      })
      refl refl refl refl
