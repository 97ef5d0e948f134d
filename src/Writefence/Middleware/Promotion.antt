-- ===== src/Writefence/Middleware/Promotion.antt =====
-- Which transactor a read goes to when its request brings the cookie of an earlier response.
use stdgo.Base.{arith, ℕ, ◌+◌, ◌≤◌, ◌<◌, false, String, none, some, List, ◌≡◌, refl}
use stdgo.Go.Context.{Context, value, with_value}
use stdgo.Stdent.Scope.{
  with_read_promotion, has_read_promotion, has_read_promotion-with_read_promotion,
}
use stdgo.Stdent.Transactor.{Transactor}
use stdgo.Stdent.Promotion.{pick_read_transactor}
use stdgo.Writefence.Intent.{Flags, with_fence_intent}
use stdgo.Writefence.Middleware.{
  Config, Codec, Request, read_context, max_age_seconds, at_least_one,
}
use stdgo.Base.Int.{ℤ, pos, negsuc, quot}

-- What securecookie documents of the codecs that it makes: a text of theirs decodes to its value for
-- as long as its age allows, and to nothing later. An age of zero restricts nothing.
pub record IsCodecs (new_codec : List ℕ → ℕ → Codec) : Type 0 where
  pub fresh :
      (key : List ℕ) (age made now : ℕ) (name v text : String)
      → (new_codec key age).encode made name v ≡ some text
      → now ≤ made + age
      → (new_codec key age).decode now name text ≡ some v
  pub stale :
      (key : List ℕ) (age made now : ℕ) (name v text : String)
      → (new_codec key age).encode made name v ≡ some text
      → 0 < age
      → made + age < now
      → (new_codec key age).decode now name text ≡ none

at_least_one-positive : (z : ℤ) → 0 < at_least_one z
at_least_one-positive (negsuc n) = ground arith
at_least_one-positive (pos n) = ground arith

-- Whatever the TTL, the age that the codec is made with does restrict.
max_age_seconds-positive : (ttl : ℤ) → 0 < max_age_seconds ttl
max_age_seconds-positive ttl = at_least_one-positive (quot ttl 1_000_000_000)

-- The context that the handler is given.
abbrev pub handler_context : Config → Codec → ℕ → Request → Flags → Context
handler_context cfg codec now r h = (with_fence_intent (read_context cfg codec now r) h).1

-- The flag hides no promotion.
has_read_promotion-with_fence_intent :
    (ctx : Context) (h : Flags)
    → has_read_promotion (with_fence_intent ctx h).1 ≡ has_read_promotion ctx
unfolding has_read_promotion with_fence_intent value with_value
has_read_promotion-with_fence_intent ctx h = refl

module _ {S : Type 0} (new_codec : List ℕ → ℕ → Codec) (key : List ℕ) (cfg : Config)
    (ro read_write : Transactor S) where
  -- A request that brings the cookie of an earlier response goes to the read-write transactor as
  -- long as the cookie's age is at most the maximal age and to the read-only one after it, whatever
  -- the configured TTL. This holds for codecs that keep their documented behaviour, where a maximal
  -- age of zero restricts nothing, a middleware wired with stdent's promoter and a request context
  -- that carries no promotion of its own.
  pub pick_read_transactor_fenced :
      (made now : ℕ) (text : String) (r : Request) (h : Flags)
      → IsCodecs new_codec
      → cfg.promote ≡ some with_read_promotion
      → let age = max_age_seconds cfg.ttl in
        let codec = new_codec key age in
        codec.encode made cfg.cookie_name "1" ≡ some text
        → r.cookie cfg.cookie_name ≡ some text
        → has_read_promotion r.context ≡ false
        → let pick = pick_read_transactor (handler_context cfg codec now r h) ro read_write in
          (now ≤ made + age → pick ≡ read_write) × (made + age < now → pick ≡ ro)
  unfolding pick_read_transactor read_context
  pick_read_transactor_fenced made now text r h laws wired made_it sent plain =
      let codec = new_codec key (max_age_seconds cfg.ttl) in
      (
        λ soon.
            rw
              (
                has_read_promotion-with_fence_intent (read_context cfg codec now r) h,
                sent,
                laws.fresh key (max_age_seconds cfg.ttl) made now cfg.cookie_name "1" text made_it
                    soon,
                wired,
              )
              (rw (has_read_promotion-with_read_promotion r.context) refl),
        λ late.
            rw
              (
                has_read_promotion-with_fence_intent (read_context cfg codec now r) h,
                sent,
                laws.stale key (max_age_seconds cfg.ttl) made now cfg.cookie_name "1" text made_it
                    (max_age_seconds-positive cfg.ttl) late,
              )
              (rw plain refl),
      )
