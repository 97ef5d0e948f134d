-- ===== src/Go/Outcome.antt =====
-- How a Go call that returns `(res, err)` can end: it returns, panics, or calls `runtime.Goexit`.
use stdgo.Base.{String, Option, none, some, Bool, true, false}
use stdgo.Go.Errors.{GoError}

pub data Outcome {ℓ} (A : Type ℓ) : Type ℓ where
  returned : A → Option GoError → Outcome A
  panicked : String → Outcome A
  exited : Outcome A

-- The call returned a nil error.
abbrev pub succeeded {ℓ} : {A : Type ℓ} → Outcome A → Bool
succeeded (returned a none) = true
succeeded (returned a (some e)) = false
succeeded (panicked v) = false
succeeded exited = false

-- `if !ok { panic(text) }`, on a value that may be missing.
abbrev pub or_panic {ℓ} : {A : Type ℓ} → (text : String) → Option A → Outcome A
or_panic text none = panicked text
or_panic text (some a) = returned a none
