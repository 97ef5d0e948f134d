-- ===== src/Must.antt =====
-- stdlo/must.go. A panic is the text that it carries; the values that a call returns are left to
-- `must1`, which the larger arities repeat. `fmt.Sprintf` is a parameter.
pub mod Laws
mod Tests
use Prim.Native.String.{◌++◌ as concat}
use stdgo.Base.{
  ℕ, String, Bool, true, false, Option, none, some, List, [], ◌∷◌, if◌then◌else◌, str_eq,
}
use stdgo.Go.Outcome.{Outcome, returned, panicked}

-- The `err any` argument: nil, a bool, an error with its text, or a value of another named type.
pub data ErrArg : Type 0 where
  nil : ErrArg
  flag : Bool → ErrArg
  error : (text : String) → ErrArg
  other_type : (name : String) → ErrArg

-- An argument of the message: a string, or another value.
pub data Arg : Type 0 where
  text : String → Arg
  value : ℕ → Arg

-- `plus_v` is `fmt.Sprintf("%+v", a)`.
pub record Fmt : Type 0 where
  pub plus_v : Arg → String
  pub sprintf : (format : String) → List Arg → String

module _ (fmt : Fmt) where
  abbrev pub single : Arg → String
  single (text s) = s
  single (value n) = fmt.plus_v (value n)

  -- `none` is the panic of the type assertion on the format.
  abbrev pub formatted : Arg → List Arg → Option String
  formatted (text format) args = some (fmt.sprintf format args)
  formatted (value n) args = none

  unfoldable pub message_from_msg_and_args : List Arg → Option String
  message_from_msg_and_args [] = some ""
  message_from_msg_and_args (a ∷ []) = some (single a)
  message_from_msg_and_args (a ∷ b ∷ l) = formatted a (b ∷ l)

  abbrev pub failed : (of_message : String → String) → Option String → Option String
  failed of_message none = some "interface conversion"
  failed of_message (some m) = some (of_message m)

  abbrev pub not_ok : String → String
  not_ok m = if str_eq m "" then "not ok" else m

  abbrev pub with_error : String → String → String
  with_error e m = if str_eq m "" then e else concat m (concat ": " e)

  -- The panic, if there is one.
  unfoldable pub must : ErrArg → List Arg → Option String
  unfolding message_from_msg_and_args
  must nil args = none
  must (flag true) args = none
  must (flag false) args = failed not_ok (message_from_msg_and_args args)
  must (error e) args = failed (with_error e) (message_from_msg_and_args args)
  must (other_type name) args =
      some
        (concat "must: invalid err type '" (concat name "', should either be a bool or an error"))

abbrev pub after : {T : Type 0} → T → Option String → Outcome T
after val none = returned val none
after val (some p) = panicked p

module _ (fmt : Fmt) where
  unfoldable pub must0 : ErrArg → List Arg → Outcome (Unit {0})
  unfolding must
  must0 e args = after tt (must fmt e args)

  unfoldable pub must1 : {T : Type 0} → T → ErrArg → List Arg → Outcome T
  unfolding must
  must1 val e args = after val (must fmt e args)

  unfoldable pub must2 : {T₁ T₂ : Type 0} → T₁ → T₂ → ErrArg → List Arg → Outcome (T₁ × T₂)
  unfolding must
  must2 val₁ val₂ e args = after (val₁, val₂) (must fmt e args)

  unfoldable pub must3 :
      {T₁ T₂ T₃ : Type 0} → T₁ → T₂ → T₃ → ErrArg → List Arg → Outcome (T₁ × T₂ × T₃)
  unfolding must
  must3 val₁ val₂ val₃ e args = after (val₁, val₂, val₃) (must fmt e args)

  unfoldable pub must4 :
      {T₁ T₂ T₃ T₄ : Type 0} → T₁ → T₂ → T₃ → T₄ → ErrArg → List Arg → Outcome (T₁ × T₂ × T₃ × T₄)
  unfolding must
  must4 val₁ val₂ val₃ val₄ e args = after (val₁, val₂, val₃, val₄) (must fmt e args)

  unfoldable pub must5 :
      {T₁ T₂ T₃ T₄ T₅ : Type 0}
      → T₁
      → T₂
      → T₃
      → T₄
      → T₅
      → ErrArg
      → List Arg
      → Outcome (T₁ × T₂ × T₃ × T₄ × T₅)
  unfolding must
  must5 val₁ val₂ val₃ val₄ val₅ e args = after (val₁, val₂, val₃, val₄, val₅) (must fmt e args)

  unfoldable pub must6 :
      {T₁ T₂ T₃ T₄ T₅ T₆ : Type 0}
      → T₁
      → T₂
      → T₃
      → T₄
      → T₅
      → T₆
      → ErrArg
      → List Arg
      → Outcome (T₁ × T₂ × T₃ × T₄ × T₅ × T₆)
  unfolding must
  must6 val₁ val₂ val₃ val₄ val₅ val₆ e args =
      after (val₁, val₂, val₃, val₄, val₅, val₆) (must fmt e args)
