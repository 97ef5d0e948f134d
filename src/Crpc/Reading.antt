-- ===== src/Crpc/Reading.antt =====
-- What the reading of arguments reports, and what a validated response is.
use stdgo.Base.{
  String, true, false, Option, none, some, List, [], ◌∷◌, ◌++◌, ◌≡◌, ◌≢◌, ◌↔◌, refl, sym, ap, ◌∙◌,
  inl, inr,
}
use stdgo.Go.Context.{Context}
use stdgo.Go.Errors.{GoError, ok, Result-cases}
use stdgo.Crpc.{
  Uuids, ArgRead, of_parse, uuid, uuid_pointer, error, Body, proto, other, as_internal, validate,
  validated, validate_response,
}

module _ {U : Type 0} (lib : Uuids U) where
  -- Several identifiers read one after the other.
  abbrev pub read_each : List String → ArgRead → List U × ArgRead
  read_each [] abi = ([], abi)
  read_each (s ∷ l) abi =
      let (u, abi₁) = uuid lib s abi in let (us, abo) = read_each l abi₁ in (u ∷ us, abo)

  -- The identifiers that the texts stand for.
  pub data Parses : List String → List U → Type 0 where
    parses_none : Parses [] []
    parses_next :
        {s : String} {u : U} {l : List String} {us : List U}
        → lib.parse s ≡ ok u
        → Parses l us
        → Parses (s ∷ l) (u ∷ us)

  error_of-append : (abi : ArgRead) (e : GoError) (l : ArgRead) → error (abi ++ (e ∷ l)) ≢ none
  unfolding error
  error_of-append [] e l h = cc
  error_of-append (x ∷ abi) e l h = cc

  read_each-keeps :
      (l : List String) (abi : ArgRead) (e : GoError)
      → error (read_each l (abi ++ (e ∷ []))).1 ≢ none
  unfolding uuid
  read_each-keeps [] abi e = error_of-append abi e []
  read_each-keeps (s ∷ l) abi e = elim (Result-cases (lib.parse s)) [
    | inl (x, bad) ↦ rw bad (read_each-keeps l (abi ++ (e ∷ [])) x)
    | inr (u, fine) ↦ rw fine (read_each-keeps l abi e)
  ]

  read_each-fine : (l : List String) → error (read_each l []).1 ≡ none → Parses l (read_each l []).0
  unfolding uuid
  read_each-fine [] fine = parses_none
  read_each-fine (s ∷ l) fine = elim (Result-cases (lib.parse s)) [
    | inl (x, bad) ↦ absurd (
        read_each-keeps l [] x
          (ap (λ r. error (read_each l (of_parse lib r []).1).1) (sym bad) ∙ fine))
    | inr (u, parsed) ↦ rw parsed (
        parses_next parsed (
          read_each-fine l
            (ap (λ r. error (read_each l (of_parse lib r []).1).1) (sym parsed) ∙ fine)))
  ]

  Parses-read_each :
      {l : List String} {us : List U} (abi : ArgRead) → Parses l us → read_each l abi ≡ (us, abi)
  unfolding uuid
  Parses-read_each abi parses_none = refl
  Parses-read_each abi (parses_next parsed rest) = rw (parsed, Parses-read_each abi rest) refl

  -- Reading several identifiers one after the other reports no error exactly when every text
  -- parses, and then the results are the parsed identifiers in order.
  pub read_each_lem :
      (l : List String)
      → (error (read_each l []).1 ≡ none)
        ↔ ((us : List U) × Parses l us × (read_each l [] ≡ (us, [])))
  unfolding error
  read_each_lem l = (
    (λ fine.
        let parses = read_each-fine l fine in
        ((read_each l []).0, parses, Parses-read_each [] parses)),
    (λ p. ap (λ r. error r.1) p.2),
  )

  -- The nil UUID is read like an argument that is missing.
  pub uuid_pointer_drops :
      (s : String) (u : U) (abi : ArgRead)
      → lib.parse s ≡ ok u
      → lib.is_nil u ≡ true
      → uuid_pointer lib (some s) abi ≡ uuid_pointer lib none abi
  unfolding uuid_pointer
  uuid_pointer_drops s u abi parsed empty = rw (parsed, empty) refl

module _ {M Q R : Type 0} (validator : M → Option GoError) (body : R → Body M)
    (next : Context → Q → R × Option GoError) where
  as_internal-eq-none : (c : Option GoError) → as_internal validator c ≡ none → c ≡ none
  as_internal-eq-none none h = refl
  as_internal-eq-none (some e) h = cc

  validate-eq-none :
      (b : Body M) → validate validator b ≡ none → (m : M) × (b ≡ proto m) × (validator m ≡ none)
  unfolding validate
  validate-eq-none other h = cc
  validate-eq-none (proto m) h = (m, refl, as_internal-eq-none (validator m) h)

  validated-eq-ok :
      (r : R × Option GoError) {resp : R}
      → validated validator body r ≡ (resp, none)
      → (r ≡ (resp, none)) × (validate validator (body resp) ≡ none)
  validated-eq-ok (x, some e) h = cc
  validated-eq-ok (x, none) {resp} h =
      let same : x ≡ resp = ap (λ (r : R × Option GoError). r.0) h in
      (
        ap (λ x. (x, none)) same,
        ap (λ x. validate validator (body x)) (sym same) ∙ ap (λ (r : R × Option GoError). r.1) h,
      )

  -- A response that passes the server's validation without an error is the handler's own, which had
  -- none, and its body is a message that the validator accepts.
  pub validate_response-valid :
      (ctx : Context) (req : Q) (resp : R)
      → validate_response validator body next false ctx req ≡ (resp, none)
      → (next ctx req ≡ (resp, none)) × (m : M) × (body resp ≡ proto m) × (validator m ≡ none)
  unfolding validate_response
  validate_response-valid ctx req resp h =
      let (went, fine) = validated-eq-ok (next ctx req) h in
      let (m, is_message, valid) = validate-eq-none (body resp) fine in (went, m, is_message, valid)
