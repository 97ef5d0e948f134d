-- ===== src/Crpc/Tests.antt =====
-- The theorems of this package at identifiers that are texts.
use stdgo.Base.{String, Option, none, some, List, [], ◌∷◌, ◌≡◌, ◌↔◌, refl, if◌then◌else◌, str_eq}
use stdgo.Go.Context.{Context}
use stdgo.Go.Errors.{GoError, ok, err, message}
use stdgo.Crpc.{Uuids, proto, uuid_pointer, error, validate_response}
use stdgo.Crpc.Reading.{
  read_each, Parses, read_each_lem, uuid_pointer_drops, validate_response-valid,
}

abbrev uuids : Uuids String
uuids = record {
  parse = λ s. if str_eq s "x" then err (message "invalid UUID length") else ok s;
  nil_uuid = "0";
  is_nil = λ u. str_eq u "0";
}

read_each_lem_example : (error (read_each uuids ("7" ∷ "8" ∷ []) []).1 ≡ none) ↔ (
    (us : List String) × Parses uuids ("7" ∷ "8" ∷ []) us
    × (read_each uuids ("7" ∷ "8" ∷ []) [] ≡ (us, [])))
read_each_lem_example = read_each_lem uuids ("7" ∷ "8" ∷ [])

uuid_pointer_drops_example : uuid_pointer uuids (some "0") [] ≡ uuid_pointer uuids none []
uuid_pointer_drops_example = uuid_pointer_drops uuids "0" "0" [] refl refl

abbrev next : Context → String → String × Option GoError
next ctx req = (req, none)

abbrev never_wrong : String → Option GoError
never_wrong m = none

validate_response-valid_example :
    (next [] "hi" ≡ ("hi", none)) × (m : String) × (proto "hi" ≡ proto m) × (never_wrong m ≡ none)
unfolding validate_response
validate_response-valid_example = validate_response-valid never_wrong proto next [] "hi" "hi" refl
