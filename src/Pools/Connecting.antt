-- ===== src/Pools/Connecting.antt =====
-- fx/stdpgxfx/db.go: what a connection of a pool has when its hooks have run, and the hosts of pools.
use stdgo.Base.{
  String, Bool, true, false, Option, none, some, ◌≡◌, refl, sym, ap, ◌∙◌, str_eq, Bool-cases, inl,
  inr,
}
use stdgo.Go.Context.{Context}
use stdgo.Go.Errors.{GoError, Result, ok, err}
use stdgo.Pools.{
  Config, ConnConfig, BeforeConnect, PoolConfig, derive_signing_region, with_password, look_up,
  overridden, apply_pool_host_override, apply_pool_host_conventions, derived, unless_overridden,
  pool_config, build_iam_auth_token, with_token, signed, connect, install_iam_auth_before_connect,
  with_iam_auth, new,
}

-- Neither the override nor the convention changes more than the host.
overridden-before_connect :
    (pcfg : PoolConfig) (o : Option String)
    → (overridden pcfg o).0.before_connect ≡ pcfg.before_connect
overridden-before_connect pcfg none = refl
overridden-before_connect pcfg (some host) = elim (Bool-cases (str_eq host "")) [
  | inl blank ↦ rw blank refl
  | inr named ↦ rw named refl
]

conventions-before_connect :
    (name : String) (pcfg : PoolConfig)
    → (apply_pool_host_conventions name pcfg).before_connect ≡ pcfg.before_connect
unfolding apply_pool_host_conventions
conventions-before_connect name pcfg = elim (Bool-cases (str_eq name "ro")) [
  | inl ro ↦ rw ro refl
  | inr other ↦ rw other refl
]

unless_overridden-before_connect :
    (name : String) (r : PoolConfig × Bool)
    → (unless_overridden name r).before_connect ≡ r.0.before_connect
unless_overridden-before_connect name (pcfg, true) = refl
unless_overridden-before_connect name (pcfg, false) = conventions-before_connect name pcfg

pool_config-before_connect :
    (name : String) (deriver : Option (PoolConfig → PoolConfig)) (cfg : Config) (pcfg : PoolConfig)
    → (pool_config name deriver cfg pcfg).before_connect ≡ (derived deriver pcfg).before_connect
unfolding pool_config apply_pool_host_override
pool_config-before_connect name deriver cfg pcfg =
    let o = look_up name cfg.hosts in
    unless_overridden-before_connect name (overridden (derived deriver pcfg) o)
    ∙ overridden-before_connect (derived deriver pcfg) o

module _ {C : Type 0}
    (build_auth_token : Context → (endpoint region user : String) → C → Result String) where
  -- The configuration `c'` is `p` with a token for its own host, port and user in its region.
  abbrev pub HasToken : Context → C → (p c' : ConnConfig) → Type 0
  HasToken ctx credentials p c' =
      (str_eq (derive_signing_region p.host) "" ≡ false)
      × ((token : String) × (build_iam_auth_token build_auth_token ctx p.port p.user
              (derive_signing_region p.host) credentials p.host
            ≡ ok token)
          × (c' ≡ with_password token p))

  with_token-ok :
      (p c' : ConnConfig) (r : Result String)
      → with_token p r ≡ (c', none)
      → (token : String) × (r ≡ ok token) × (c' ≡ with_password token p)
  with_token-ok p c' (err e) h = cc
  with_token-ok p c' (ok token) h =
      (token, refl, ap (λ (r : ConnConfig × Option GoError). r.0) (sym h))

  signed-HasToken :
      (ctx : Context) (credentials : C) (r : ConnConfig × Option GoError) (c' : ConnConfig)
      → signed build_auth_token credentials ctx r ≡ (c', none)
      → (p : ConnConfig) × (r ≡ (p, none)) × HasToken ctx credentials p c'
  unfolding signed
  signed-HasToken ctx credentials (p, some e) c' h = cc
  signed-HasToken ctx credentials (p, none) c' h =
      elim (Bool-cases (str_eq (derive_signing_region p.host) "")) [
        | inl none_found ↦ absurd (cc (rw none_found at h))
        | inr found ↦ (
          p,
          refl,
          (
            found,
            with_token-ok p c'
                (build_iam_auth_token build_auth_token ctx p.port p.user
                  (derive_signing_region p.host) credentials p.host)
                (rw found at h),
          ),
        )
      ]

  abbrev hook_of : Result PoolConfig → Option BeforeConnect
  hook_of (err e) = none
  hook_of (ok pcfg) = pcfg.before_connect

  -- What a connection goes through: the hook of the parsed configuration, and then a token.
  abbrev pub Authenticates : Context → C → Option BeforeConnect → (c c' : ConnConfig) → Type 0
  Authenticates ctx credentials before c c' =
      (p : ConnConfig) × (connect before ctx c ≡ (p, none)) × HasToken ctx credentials p c'

  with_iam_auth-Authenticates :
      (credentials : Option C) (parsed : Result PoolConfig) (pcfg : PoolConfig) (ctx : Context)
      (c c' : ConnConfig)
      → with_iam_auth build_auth_token true credentials parsed ≡ ok pcfg
      → connect pcfg.before_connect ctx c ≡ (c', none)
      → (k : C) × (base : PoolConfig) × (credentials ≡ some k)
        × (parsed ≡ ok base)
        × Authenticates ctx k base.before_connect c c'
  unfolding install_iam_auth_before_connect
  with_iam_auth-Authenticates credentials (err e) pcfg ctx c c' made conn = cc
  with_iam_auth-Authenticates none (ok base) pcfg ctx c c' made conn = cc
  with_iam_auth-Authenticates (some k) (ok base) pcfg ctx c c' made conn =
      let (p, before, token) =
        signed-HasToken ctx k (connect base.before_connect ctx c) c'
          (ap (λ r. connect (hook_of r) ctx c) made ∙ conn) in
      (k, base, refl, refl, (p, before, token))

  -- With IAM authentication on, a connection of any pool is prepared without an error only when
  -- there are credentials, the hook of the parsed configuration had no error, and the host it left
  -- has a signing region; the connection is then what that hook left, with a token for its own
  -- host, port and user in that region as the password. This holds whatever host the pool's
  -- override or convention chooses, for a deriver that keeps the hook.
  pub connect-Authenticates :
      (parse_config : String → Result PoolConfig) (credentials : Option C) (cfg : Config)
      (pcfg : PoolConfig) (name : String) (deriver : Option (PoolConfig → PoolConfig))
      (ctx : Context) (c c' : ConnConfig)
      → cfg.iam_auth ≡ true
      → new build_auth_token parse_config credentials cfg ≡ ok pcfg
      → (derived deriver pcfg).before_connect ≡ pcfg.before_connect
      → connect (pool_config name deriver cfg pcfg).before_connect ctx c ≡ (c', none)
      → (k : C) × (base : PoolConfig) × (credentials ≡ some k)
        × (parse_config cfg.main_database_url ≡ ok base)
        × Authenticates ctx k base.before_connect c c'
  unfolding new
  connect-Authenticates parse_config credentials cfg pcfg name deriver ctx c c' iam made keeps
        conn =
      with_iam_auth-Authenticates credentials (parse_config cfg.main_database_url) pcfg ctx c c'
        (rw iam at made)
        (ap (λ b. connect b ctx c) (sym (pool_config-before_connect name deriver cfg pcfg ∙ keeps))
          ∙ conn)
