-- ===== src/Authz/Strings.antt =====
-- What fx/stdcrpcauthfx/access_control.go uses of package strings, and its `uniqStrings`.
pub mod Unique
use Prim.Native.Char.{Char, code, char}
use Prim.Native.String
use Prim.Native.String.{◌++◌ as concat}
use stdgo.Base.{
  ℕ, ◌+◌, ◌==◌, leb, String, Bool, true, false, ◌&&◌, ◌||◌, List, [], ◌∷◌, if◌then◌else◌, str_eq,
  contains,
}

-- `unicode.IsSpace`
unfoldable pub is_space : ℕ → Bool
is_space c =
    (leb 9 c && leb c 13)
    || (c == 32)
    || (c == 133)
    || (c == 160)
    || (c == 5760)
    || (leb 8192 c && leb c 8202)
    || (c == 8232)
    || (c == 8233)
    || (c == 8239)
    || (c == 8287)
    || (c == 12288)

-- A word that ends, if it is not empty, in front of the others.
abbrev pub push_word : String → List String → List String
push_word word words = if str_eq word "" then words else word ∷ words

-- The word at the head of a text, and the words behind it.
unfoldable pub split_fields : String → String × List String
unfolding is_space
split_fields String.[] = ("", [])
split_fields (String.◌∷◌ c s) =
    let (word, words) = split_fields s in
    if is_space (code c) then ("", push_word word words) else (String.◌∷◌ c word, words)

-- `strings.Fields`
unfoldable pub fields : String → List String
unfolding split_fields
fields s = let (word, words) = split_fields s in push_word word words

-- `strings.TrimSuffix`
unfoldable pub trim_suffix : String → String → String
trim_suffix String.[] suffix = ""
trim_suffix (String.◌∷◌ c s) suffix =
    let rest = trim_suffix s suffix in
    if str_eq (String.◌∷◌ c s) suffix then "" else String.◌∷◌ c rest

-- The loop of `uniqStrings`: `seen` is the set of the texts put out so far.
unfoldable pub uniq_loop : (seen : List String) → List String → List String
uniq_loop seen [] = []
uniq_loop seen (s ∷ l) =
    let kept = uniq_loop (s ∷ seen) l in
    let skipped = uniq_loop seen l in if contains seen s then skipped else s ∷ kept

unfoldable pub uniq_strings : List String → List String
uniq_strings l = uniq_loop [] l
