-- ===== src/Tenancy/Quote/Roundtrip.antt =====
-- Reading a quoted literal gives the value back, so no value can end its literal early.
use Prim.Native.Char.{Char, code}
use Prim.Native.String.{String, [], ◌∷◌, ◌++◌}
use stdgo.Base.{
  Bool, true, false, Option, none, some, ◌==◌, if◌then◌else◌, ◌≡◌, ◌≢◌, refl, arith, Bool-cases,
  inl, inr,
}
use text.Mathlib.TextLemmas.{nil-append, cons-append, append_assoc}
use stdgo.Tenancy.Quote.{double_quotes, sql_quote_literal, set_config_sql}

abbrev push : Char → Option (String × String) → Option (String × String)
push c none = none
push c (some (v, rest)) = some (c ∷ v, rest)

-- The rest of a literal; `pending` says that the last character was a quote not yet accounted for.
unfoldable pub read_body : (pending : Bool) → String → Option (String × String)
read_body false [] = none
read_body true [] = some ("", "")
read_body false (c ∷ s) =
    let closing = read_body true s in
    let inside = push c (read_body false s) in if code c == 39 then closing else inside
read_body true (c ∷ s) =
    let escaped = push c (read_body false s) in if code c == 39 then escaped else some ("", c ∷ s)

-- A literal at the head of a text, and what follows it.
unfoldable pub read_literal : String → Option (String × String)
unfolding read_body
read_literal [] = none
read_literal (c ∷ s) = if code c == 39 then read_body false s else none

abbrev pub NoQuote : String → Type 0
NoQuote [] = Unit
NoQuote (c ∷ s) = code c ≢ 39

read_body_end : (rest : String) → NoQuote rest → read_body true rest ≡ some ("", rest)
unfolding read_body
read_body_end [] h = refl
read_body_end (c ∷ s) h = ground arith

read_body-double_quotes :
    (v rest : String)
    → NoQuote rest
    → read_body false (double_quotes v ++ ("'" ++ rest)) ≡ some (v, rest)
unfolding read_body double_quotes
read_body-double_quotes [] rest h = rw (nil-append, cons-append, nil-append) (read_body_end rest h)
read_body-double_quotes (c ∷ s) rest h = elim (Bool-cases (code c == 39)) [
  | inl quote ↦
      rw (quote, cons-append, cons-append) (ground (arith, read_body-double_quotes s rest h))
  | inr other ↦ rw (other, cons-append) (ground (arith, read_body-double_quotes s rest h))
]

-- A quoted value is one SQL string literal that reads back as the value, and the text behind it
-- stays outside the literal, when that text begins with no quote.
pub read_literal-sql_quote_literal :
    (v rest : String) → NoQuote rest → read_literal (sql_quote_literal v ++ rest) ≡ some (v, rest)
unfolding read_literal sql_quote_literal
read_literal-sql_quote_literal v rest h =
    rw (cons-append, nil-append, cons-append, append_assoc) (read_body-double_quotes v rest h)

-- Removes a fixed text from the head of a text.
unfoldable pub strip : String → String → Option String
strip [] s = some s
strip (c ∷ p) [] = none
strip (c ∷ p) (d ∷ s) = let rest = strip p s in if code c == code d then rest else none

infixl 5 ◌>>=◌
abbrev ◌>>=◌ {ℓ κ} : {A : Type ℓ} {B : Type κ} → Option A → (A → Option B) → Option B
none >>= k = none
some a >>= k = k a

-- One `set_config` statement at the head of a text: its name, its value, and what follows.
unfoldable pub read_set_config : String → Option (String × String × String)
read_set_config s = do
  args ← strip "SELECT set_config(" s
  (name, s₁) ← read_literal args
  value_text ← strip ", " s₁
  (v, s₂) ← read_literal value_text
  rest ← strip ", true); " s₂
  some (name, v, rest)

strip-append : (p s : String) → strip p (p ++ s) ≡ some s
unfolding strip
strip-append [] s = rw nil-append refl
strip-append (c ∷ p) s = rw cons-append (ground (arith, strip-append p s))

comma-NoQuote : (s : String) → NoQuote (", " ++ s)
comma-NoQuote s = rw cons-append (λ e. absurd (omega (arith, e)))

comma_true-NoQuote : (s : String) → NoQuote (", true); " ++ s)
comma_true-NoQuote s = rw cons-append (λ e. absurd (omega (arith, e)))

-- The set_config statement for a name and a value reads back as that name and that value with what
-- follows it, so nothing of either becomes another statement.
pub read_set_config-set_config_sql :
    (name v rest : String) → read_set_config (set_config_sql name v ++ rest) ≡ some (name, v, rest)
unfolding read_set_config set_config_sql
read_set_config-set_config_sql name v rest =
    let tail = ", true); " ++ rest in
    let mid = ", " ++ (sql_quote_literal v ++ tail) in
    simp (
      append_assoc,
      strip-append,
      read_literal-sql_quote_literal name mid (comma-NoQuote _),
      read_literal-sql_quote_literal v tail (comma_true-NoQuote rest),
    )
