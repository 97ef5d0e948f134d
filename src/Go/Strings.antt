-- ===== src/Go/Strings.antt =====
-- What the packages use of package strings.
use Prim.Native.Char.{Char, code}
use Prim.Native.String.{◌++◌ as concat}
use text.Mathlib.TextLemmas.{nil-append, cons-append, append-eq-nil_iff}
use stdgo.Base.{
  ℕ, ◌+◌, ◌==◌, leb, ◌&&◌, ◌||◌, String, Bool, true, false, Option, none, some, ◌≡◌, refl, ap,
  if◌then◌else◌, arith, str_eq, eq_iff, Bool-cases, inl, inr,
}

-- The text behind a prefix whose characters are equal by `eq`.
unfoldable pub cut_prefix_by : (eq : ℕ → ℕ → Bool) → String → (prefix : String) → Option String
cut_prefix_by eq s String.[] = some s
cut_prefix_by eq String.[] (String.◌∷◌ d p) = none
cut_prefix_by eq (String.◌∷◌ c s) (String.◌∷◌ d p) =
    let rest = cut_prefix_by eq s p in if eq (code c) (code d) then rest else none

abbrev is_there : Option String → Bool
is_there none = false
is_there (some s) = true

abbrev kept : String → Option String → String
kept s none = s
kept s (some rest) = rest

abbrev pub same : ℕ → ℕ → Bool
same a b = a == b

-- `strings.HasPrefix`
unfoldable pub has_prefix : String → String → Bool
unfolding cut_prefix_by
has_prefix s prefix = is_there (cut_prefix_by same s prefix)

-- `strings.TrimPrefix`
unfoldable pub trim_prefix : String → String → String
unfolding cut_prefix_by
trim_prefix s prefix = kept s (cut_prefix_by same s prefix)

abbrev lower : ℕ → ℕ
lower c = if leb 65 c && leb c 90 then c + 32 else c

-- Equality under case folding of ASCII, which is `strings.EqualFold` where no letter of the one
-- side folds to a letter outside of it.
abbrev pub fold_same : ℕ → ℕ → Bool
fold_same a b = lower a == lower b

pub cut_prefix_by-append :
    (eq : ℕ → ℕ → Bool) (p s : String)
    → ((c : ℕ) → eq c c ≡ true)
    → cut_prefix_by eq (concat p s) p ≡ some s
unfolding cut_prefix_by
cut_prefix_by-append eq String.[] s h = rw nil-append refl
cut_prefix_by-append eq (String.◌∷◌ c p) s h =
    rw (cons-append, h (code c)) (cut_prefix_by-append eq p s h)

pub has_prefix-append : (p s : String) → has_prefix (concat p s) p ≡ true
unfolding has_prefix
has_prefix-append p s = ap is_there (cut_prefix_by-append same p s (λ c. ground arith))

pub trim_prefix-append : (p s : String) → trim_prefix (concat p s) p ≡ s
unfolding trim_prefix
trim_prefix-append p s = ap (kept (concat p s)) (cut_prefix_by-append same p s (λ c. ground arith))

-- What is appended to a text leaves it non-blank.
pub append_named : (ns rest : String) → str_eq ns "" ≡ false → str_eq (concat ns rest) "" ≡ false
append_named ns rest named = elim (Bool-cases (str_eq (concat ns rest) "")) [
  | inl blank ↦
      let empty : ns ≡ "" = (append-eq-nil_iff.0 ((eq_iff (concat ns rest) "").0 blank)).0 in
      absurd (ground (arith, eq_iff ns ""))
  | inr other ↦ other
]

-- `strings.HasSuffix`
unfoldable pub has_suffix : (s suffix : String) → Bool
has_suffix String.[] suffix = str_eq "" suffix
has_suffix (String.◌∷◌ c s) suffix =
    let rest = has_suffix s suffix in str_eq (String.◌∷◌ c s) suffix || rest

abbrev replaced : Char → (new : String) → (at_start there : Option String) → Option String
replaced c new (some rest) there = some (concat new rest)
replaced c new none none = none
replaced c new none (some s) = some (String.◌∷◌ c s)

-- `strings.Replace` of the first occurrence of a non-empty text, when it occurs.
unfoldable pub replace_first : (s old new : String) → Option String
unfolding cut_prefix_by
replace_first String.[] old new = none
replace_first (String.◌∷◌ c s) old new =
    replaced c new (cut_prefix_by same (String.◌∷◌ c s) old) (replace_first s old new)
