-- ===== src/Writefence/Middleware/Pinning.antt =====
-- Where the middleware puts its cookie into what the handler does.
use stdgo.Base.{ℕ, ap, ◌∙◌, String, Bool, Option, none, some, true, false, List, [], ◌∷◌, ◌≡◌, refl}
use stdgo.Go.Outcome.{Outcome, returned, panicked, exited}
use stdgo.Writefence.Intent.{Flags, mark_fence_intent, with_fence_intent}
use stdgo.Writefence.Middleware.{
  Config, Codec, Writer, Event, write_header, write, unhooked, mark, Handler, pin, set_cookie,
  add_encoded, max_age_seconds, run_event, run_events, finish, Request, read_context, serve,
}

module _ {W : Type 0} where
  -- The events before the first hooked call, and those from it on.
  unfoldable pub before_write : List (Event W) → List (Event W)
  before_write [] = []
  before_write (write_header code ∷ es) = []
  before_write (write p ∷ es) = []
  before_write (unhooked f ∷ es) = unhooked f ∷ before_write es
  before_write (mark ctx ∷ es) = mark ctx ∷ before_write es

  unfoldable pub from_write : List (Event W) → List (Event W)
  from_write [] = []
  from_write (write_header code ∷ es) = write_header code ∷ es
  from_write (write p ∷ es) = write p ∷ es
  from_write (unhooked f ∷ es) = from_write es
  from_write (mark ctx ∷ es) = from_write es

  unfoldable pub run_marks : List (Event W) → Flags → Flags
  run_marks [] h = h
  run_marks (mark ctx ∷ es) h = run_marks es (mark_fence_intent ctx h)
  run_marks (write_header code ∷ es) h = run_marks es h
  run_marks (write p ∷ es) h = run_marks es h
  run_marks (unhooked f ∷ es) h = run_marks es h

  module _ (ops : Writer W) where
    -- The handler's events on a writer that nothing wraps.
    unfoldable pub run_plain : List (Event W) → W → W
    run_plain [] w = w
    run_plain (write_header code ∷ es) w = run_plain es (ops.write_header code w)
    run_plain (write p ∷ es) w = run_plain es (ops.write p w)
    run_plain (unhooked f ∷ es) w = run_plain es (f w)
    run_plain (mark ctx ∷ es) w = run_plain es w

    -- What follows the events before the first hooked call, where `p` pins: the cookie and then those
    -- events, or the cookie alone when there are none and the handler returned.
    unfoldable pub pin_and_run : (W → W) → Outcome (Unit {0}) → List (Event W) → W → W
    pin_and_run p o (e ∷ es) w = run_plain (e ∷ es) (p w)
    pin_and_run p (returned a e) [] w = p w
    pin_and_run p (panicked v) [] w = w
    pin_and_run p exited [] w = w

    -- The response with the fence's cookie, where the request was marked and the value is encoded.
    abbrev with_fence : Config → Bool → Option String → W → W
    with_fence cfg false encoded w = w
    with_fence cfg true none w = w
    with_fence cfg true (some text) w =
        ops.set_cookie
          (record {
            name = cfg.cookie_name;
            value = text;
            path = cfg.path;
            domain = cfg.domain;
            max_age = max_age_seconds cfg.ttl;
            http_only = cfg.http_only;
            secure = cfg.secure;
            same_site = cfg.same_site;
          })
          w

    abbrev pub pinned : Config → Codec → (now : ℕ) → (marked : Bool) → W → W
    pinned cfg codec now marked = with_fence cfg marked (codec.encode now cfg.cookie_name "1")

    add_encoded-with_fence :
        (cfg : Config) (codec : Codec) (now intent : ℕ) (encoded : Option String) (w : W)
        → add_encoded ops cfg codec now intent encoded w ≡ with_fence cfg true encoded w
    add_encoded-with_fence cfg codec now intent none w = refl
    add_encoded-with_fence cfg codec now intent (some text) w = refl

    pin-pinned :
        (cfg : Config) (codec : Codec) (now intent : ℕ) (marked : Bool) (w : W)
        → pin ops cfg codec now intent marked w ≡ pinned cfg codec now marked w
    unfolding pin
    pin-pinned cfg codec now intent false w = refl
    pin-pinned cfg codec now intent true w =
        add_encoded-with_fence cfg codec now intent (codec.encode now cfg.cookie_name "1") w

    module _ (cfg : Config) (codec : Codec) (now intent : ℕ) where
      fired_run :
          (o : Outcome (Unit {0})) (es : List (Event W)) (w : W) (h : Flags)
          → (finish ops cfg codec now intent o (
              run_events ops cfg codec now intent es
                (record { writer = w; flags = h; fired = true }))).writer
            ≡ run_plain es w
      unfolding run_events run_event set_cookie run_plain
      fired_run (returned a e) [] w h = refl
      fired_run (panicked v) [] w h = refl
      fired_run exited [] w h = refl
      fired_run o (write_header code ∷ es) w h = fired_run o es (ops.write_header code w) h
      fired_run o (write p ∷ es) w h = fired_run o es (ops.write p w) h
      fired_run o (unhooked f ∷ es) w h = fired_run o es (f w) h
      fired_run o (mark ctx ∷ es) w h = fired_run o es w (mark_fence_intent ctx h)

      fresh_run :
          (o : Outcome (Unit {0})) (es : List (Event W)) (w : W) (h : Flags)
          → (finish ops cfg codec now intent o (
              run_events ops cfg codec now intent es
                (record { writer = w; flags = h; fired = false }))).writer
            ≡ pin_and_run
                (pin ops cfg codec now intent ((run_marks (before_write es) h).load intent))
                o
                (from_write es)
                (run_plain (before_write es) w)
      unfolding run_events run_event set_cookie run_plain before_write from_write run_marks
          pin_and_run
      fresh_run (returned a e) [] w h = refl
      fresh_run (panicked v) [] w h = refl
      fresh_run exited [] w h = refl
      fresh_run o (write_header code ∷ es) w h =
          fired_run o es (ops.write_header code (pin ops cfg codec now intent (h.load intent) w)) h
      fresh_run o (write p ∷ es) w h =
          fired_run o es (ops.write p (pin ops cfg codec now intent (h.load intent) w)) h
      fresh_run o (unhooked f ∷ es) w h = fresh_run o es (f w) h
      fresh_run o (mark ctx ∷ es) w h = fresh_run o es w (mark_fence_intent ctx h)

    -- The response under the middleware is the handler's own response with one addition: the cookie
    -- of the configuration with the signed value, in front of the first hooked write, or at the end
    -- when there is none and the handler returned. It is added exactly when the request's flag was
    -- marked before that point and the value is encoded without an error.
    pub serve_pins :
        (cfg : Config) (codec : Codec) (arrived now : ℕ) (next : Handler W) (r : Request) (w : W)
        (h : Flags)
        → let (h', ctx, intent) = with_fence_intent (read_context cfg codec arrived r) h in
          let (events, o) = next ctx in
          let marked = (run_marks (before_write events) h').load intent in
          (serve ops cfg codec arrived now next r (w, h)).0.writer
          ≡ pin_and_run
              (pinned cfg codec now marked)
              o
              (from_write events)
              (run_plain (before_write events) w)
    unfolding serve
    serve_pins cfg codec arrived now next r w h =
        let (h', ctx, intent) = with_fence_intent (read_context cfg codec arrived r) h in
        let marked = (run_marks (before_write (next ctx).0) h').load intent in
        fresh_run cfg codec now intent (next ctx).1 (next ctx).0 w h'
        ∙ ap
            (λ p.
              pin_and_run p (next ctx).1 (from_write (next ctx).0)
                (run_plain (before_write (next ctx).0) w))
            (λ i w. pin-pinned cfg codec now intent marked w i)
