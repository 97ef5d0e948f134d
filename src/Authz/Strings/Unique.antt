-- ===== src/Authz/Strings/Unique.antt =====
-- What `uniqStrings` keeps.
use stdgo.Base.{
  String, true, false, ◌||◌, List, [], ◌∷◌, ◌≡◌, refl, ap, str_eq, contains, Bool-cases, inl, inr,
  eq_iff,
}
use stdgo.Authz.Strings.{uniq_loop, uniq_strings}

-- No text stands twice in the list.
abbrev pub IsUnique : List String → Type 0
IsUnique [] = Unit
IsUnique (s ∷ l) = (contains l s ≡ false) × IsUnique l

contains_eq : (s t : String) (l : List String) → str_eq s t ≡ true → contains l s ≡ contains l t
contains_eq s t l h = ap (contains l) ((eq_iff s t).0 h)

-- Of a text that was seen and one that was not, neither is the other.
str_eq-fresh :
    (seen : List String) (s t : String)
    → contains seen s ≡ true
    → contains seen t ≡ false
    → str_eq s t ≡ false
str_eq-fresh seen s t old fresh = elim (Bool-cases (str_eq s t)) [
  | inl same ↦ cc (contains_eq s t seen same)
  | inr other ↦ other
]

str_eq-kept :
    (seen : List String) (s t : String)
    → contains seen s ≡ false
    → contains seen t ≡ true
    → str_eq s t ≡ false
str_eq-kept seen s t fresh old = elim (Bool-cases (str_eq s t)) [
  | inl same ↦ cc (contains_eq s t seen same)
  | inr other ↦ other
]

contains_head : (s : String) (l : List String) → contains (s ∷ l) s ≡ true
unfolding contains
contains_head s l = rw ((eq_iff s s).1 refl) refl

-- A text is in the result just when it is in the list and was not seen before.
uniq_loop-contains :
    (seen l : List String) (t : String)
    → contains seen t || contains (uniq_loop seen l) t ≡ contains seen t || contains l t
unfolding uniq_loop contains
uniq_loop-contains seen [] t = refl
uniq_loop-contains seen (s ∷ l) t = elim (Bool-cases (contains seen t)) [
  | inl before ↦ rw before refl
  | inr fresh ↦ elim (Bool-cases (contains seen s)) [
    | inl skipped ↦ rw (skipped, str_eq-fresh seen s t skipped fresh) (uniq_loop-contains seen l t)
    | inr kept ↦ elim (Bool-cases (str_eq s t)) [
      | inl same ↦ rw (kept, fresh, same) refl
      | inr other ↦
          rw (kept, fresh, other) (rw (other, fresh) at (uniq_loop-contains (s ∷ seen) l t))
    ]
  ]
]

uniq_loop-seen :
    (seen l : List String) (t : String)
    → contains seen t ≡ true
    → contains (uniq_loop seen l) t ≡ false
unfolding uniq_loop contains
uniq_loop-seen seen [] t h = refl
uniq_loop-seen seen (s ∷ l) t h = elim (Bool-cases (contains seen s)) [
  | inl skipped ↦ rw skipped (uniq_loop-seen seen l t h)
  | inr kept ↦
      let other = str_eq-kept seen s t kept h in
      rw (kept, other) (uniq_loop-seen (s ∷ seen) l t (rw other h))
]

uniq_loop-IsUnique : (seen l : List String) → IsUnique (uniq_loop seen l)
unfolding uniq_loop
uniq_loop-IsUnique seen [] = tt
uniq_loop-IsUnique seen (s ∷ l) = elim (Bool-cases (contains seen s)) [
  | inl skipped ↦ rw skipped (uniq_loop-IsUnique seen l)
  | inr kept ↦
      rw kept
        (uniq_loop-seen (s ∷ seen) l s (contains_head s seen), uniq_loop-IsUnique (s ∷ seen) l)
]

-- uniqStrings has no text twice and contains just the texts of its argument.
pub uniq_strings-IsUnique :
    (l : List String) (t : String)
    → IsUnique (uniq_strings l) × (contains (uniq_strings l) t ≡ contains l t)
unfolding uniq_strings contains
uniq_strings-IsUnique l t = (uniq_loop-IsUnique [] l, uniq_loop-contains [] l t)
