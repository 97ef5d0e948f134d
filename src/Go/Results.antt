-- ===== src/Go/Results.antt =====
-- Chains of calls that may fail, with what the code says about an error, and their inversion.
use stdgo.Base.{String, Bool, true, false, Option, none, some, ◌≡◌, ◌≢◌, refl, if◌then◌else◌}
use stdgo.Go.Errors.{GoError, message, wrap, Result, ok, err}

-- `fmt.Errorf` with `%w` around the error of a call, where it has one.
abbrev pub wrapping : {A : Type 0} → String → Result A → Result A
wrapping what (err e) = err (wrap what e)
wrapping what (ok a) = ok a

-- An error for a value that is not there.
abbrev pub required : {A : Type 0} → String → Option A → Result A
required what none = err (message what)
required what (some a) = ok a

-- A check that gives an error or nothing, in front of a value.
abbrev pub checked : {A : Type 0} → Option GoError → Result A → Result A
checked (some e) r = err e
checked none r = r

abbrev pub wrap_error : String → Option GoError → Option GoError
wrap_error what none = none
wrap_error what (some e) = some (wrap what e)

infixl 5 ◌>>=◌
abbrev pub ◌>>=◌ : {A B : Type 0} → Result A → (A → Result B) → Result B
err failure >>= k = err failure
ok value >>= k = k value

-- What each step of a chain that succeeds has given.
pub bind-eq-ok :
    {A B : Type 0} {out : B} (step : Result A) (k : A → Result B)
    → (step >>= k) ≡ ok out
    → (value : A) × (step ≡ ok value) × (k value ≡ ok out)
bind-eq-ok (err failure) k chain = cc
bind-eq-ok (ok value) k chain = (value, refl, chain)

pub wrapping-eq-ok :
    {A : Type 0} (what : String) (r : Result A) {a : A} → wrapping what r ≡ ok a → r ≡ ok a
wrapping-eq-ok what (ok a) h = h
wrapping-eq-ok what (err e) h = cc

pub required-eq-ok :
    {A : Type 0} (what : String) (o : Option A) {a : A} → required what o ≡ ok a → o ≡ some a
required-eq-ok what none h = cc
required-eq-ok what (some b) h = cc

pub checked-eq-ok :
    {A : Type 0} (c : Option GoError) (r : Result A) {a : A}
    → checked c r ≡ ok a
    → (c ≡ none) × (r ≡ ok a)
checked-eq-ok none r h = (refl, h)
checked-eq-ok (some e) r h = cc

pub wrap_error-eq-none : (what : String) (c : Option GoError) → wrap_error what c ≡ none → c ≡ none
wrap_error-eq-none what none h = refl
wrap_error-eq-none what (some e) h = cc

pub unless-eq-ok :
    {A : Type 0} (b : Bool) (e : GoError) (m : Result A) {a : A}
    → (if b then err e else m) ≡ ok a
    → (b ≡ false) × (m ≡ ok a)
unless-eq-ok true e m h = cc
unless-eq-ok false e m h = (refl, h)

pub when-eq-ok :
    {A : Type 0} (b : Bool) (m other : Result A) {a : A}
    → (if b then m else other) ≡ ok a
    → other ≢ ok a
    → (b ≡ true) × (m ≡ ok a)
when-eq-ok true m other h off = (refl, h)
when-eq-ok false m other h off = absurd (off h)
