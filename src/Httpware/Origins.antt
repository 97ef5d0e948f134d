-- ===== src/Httpware/Origins.antt =====
-- The root domain of a host, and the origins that are on it.
use Prim.Native.Char.{code}
use Prim.Native.String.{◌++◌ as concat}
use text.Mathlib.TextLemmas.{nil-append, cons-append}
use stdgo.Base.{
  ◌==◌, String, ◌||◌, List, [], ◌∷◌, ◌++◌, ◌≡◌, ◌≢◌, refl, str_eq, contains, arith, Bool-cases, inl,
  inr,
}
use stdgo.Go.Errors.{Result, ok}
use stdgo.Httpware.{split_dots, last_two, root_domain_of_host, allow_origin}

abbrev pub NoDot : String → Type 0
NoDot String.[] = Unit
NoDot (String.◌∷◌ c s) = (code c ≢ 46) × NoDot s

split_dots-NoDot : (s : String) → NoDot s → split_dots s ≡ (s, [])
unfolding split_dots
split_dots-NoDot String.[] h = refl
split_dots-NoDot (String.◌∷◌ c s) h = ground (arith, split_dots-NoDot s h.1)

-- The parts of a text with a dot in it.
split_dots-append :
    (s t : String)
    → split_dots (concat s (concat "." t))
      ≡ ((split_dots s).0, (split_dots s).1 ++ ((split_dots t).0 ∷ (split_dots t).1))
unfolding split_dots
split_dots-append String.[] t = rw (nil-append, cons-append, nil-append) refl
split_dots-append (String.◌∷◌ c s) t = elim (Bool-cases (code c == 46)) [
  | inl dot ↦ rw (cons-append, dot, split_dots-append s t) refl
  | inr other ↦ rw (cons-append, other, split_dots-append s t) refl
]

last_two-append :
    (p : String) (ps : List String) (a b : String) → last_two p (ps ++ (a ∷ b ∷ [])) ≡ a ∷ b ∷ []
last_two-append p [] a b = refl
last_two-append p (q ∷ []) a b = refl
last_two-append p (q ∷ r ∷ l) a b = last_two-append q (r ∷ l) a b

pub root_domain_of_host-append :
    (sub name top : String)
    → NoDot name
    → NoDot top
    → root_domain_of_host (concat sub (concat "." (concat name (concat "." top))))
      ≡ concat name (concat "." top)
unfolding root_domain_of_host
root_domain_of_host-append sub name top named topped =
    let parts : split_dots (concat name (concat "." top)) ≡ (name, top ∷ []) =
      rw (split_dots-append, split_dots-NoDot name named, split_dots-NoDot top topped) refl in
    rw (split_dots-append, parts, last_two-append (split_dots sub).0 (split_dots sub).1 name top)
      refl

-- A host below a domain of two labels.
abbrev pub below : String → String → String → String
below sub name top = concat sub (concat "." (concat name (concat "." top)))

-- For a host and an origin's host that are both below a domain of two labels, CORS allows the
-- origin exactly when the white list has it or the two domains are the same text, whatever stands
-- in front of them; so two registrants below one public suffix of two labels, such as co.uk, are
-- first parties of each other.
pub allow_origin_lem :
    (parse_url : String → Result String) (white_list : List String)
    (origin sub sub' name top name' top' : String)
    → NoDot name
    → NoDot top
    → NoDot name'
    → NoDot top'
    → parse_url origin ≡ ok (below sub' name' top')
    → allow_origin parse_url white_list (below sub name top) origin ≡ (
        contains white_list origin
        || str_eq (concat name (concat "." top)) (concat name' (concat "." top')))
unfolding allow_origin
allow_origin_lem parse_url white_list origin sub sub' name top name' top' named topped named'
      topped' parsed =
    elim (Bool-cases (contains white_list origin)) [
      | inl listed ↦ rw listed refl
      | inr unlisted ↦
          rw
            (
              unlisted,
              parsed,
              root_domain_of_host-append sub name top named topped,
              root_domain_of_host-append sub' name' top' named' topped',
            )
            refl
    ]
