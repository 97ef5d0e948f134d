-- ===== src/Must/Laws.antt =====
-- When a call of the package returns, and what its panic says.
use stdgo.Base.{String, true, false, Option, none, some, List, ◌≡◌, ◌≢◌, ◌↔◌, refl}
use stdgo.Go.Outcome.{returned}
use stdgo.Must.{
  ErrArg, nil, flag, error, other_type, Arg, Fmt, failed, message_from_msg_and_args, must, must1,
  after,
}

-- An argument that stands for success.
pub data Succeeds : ErrArg → Type 0 where
  no_error : Succeeds nil
  is_ok : Succeeds (flag true)

failed-panics : (fmt : Fmt) (f : String → String) (m : Option String) → failed fmt f m ≢ none
failed-panics fmt f none h = cc
failed-panics fmt f (some m) h = cc

must-Succeeds : (fmt : Fmt) (e : ErrArg) (args : List Arg) → must fmt e args ≡ none → Succeeds e
unfolding must
must-Succeeds fmt nil args h = no_error
must-Succeeds fmt (flag true) args h = is_ok
must-Succeeds fmt (flag false) args h =
    absurd (failed-panics fmt _ (message_from_msg_and_args fmt args) h)
must-Succeeds fmt (error x) args h =
    absurd (failed-panics fmt _ (message_from_msg_and_args fmt args) h)
must-Succeeds fmt (other_type n) args h = cc

after-eq-returned :
    {T : Type 0} (val val' : T) (p : Option String) → after val p ≡ returned val' none → p ≡ none
after-eq-returned val val' none h = refl
after-eq-returned val val' (some p) h = cc

Succeeds-returns :
    {T : Type 0} (fmt : Fmt) (val : T) (e : ErrArg) (args : List Arg)
    → Succeeds e
    → must1 fmt val e args ≡ returned val none
unfolding must1
Succeeds-returns fmt val nil args no_error = refl
Succeeds-returns fmt val (flag true) args is_ok = refl
Succeeds-returns fmt val (flag false) args s = elim s [ ]
Succeeds-returns fmt val (error e) args s = elim s [ ]
Succeeds-returns fmt val (other_type n) args s = elim s [ ]

-- `must1` returns its value exactly when the error argument is nil or true, whatever the message.
pub must1_lem :
    {T : Type 0} (fmt : Fmt) (val : T) (e : ErrArg) (args : List Arg)
    → (must1 fmt val e args ≡ returned val none) ↔ Succeeds e
unfolding must1
must1_lem fmt val e args = (
  (λ h. must-Succeeds fmt e args (after-eq-returned val val (must fmt e args) h)),
  (λ s. Succeeds-returns fmt val e args s),
)
