-- ===== src/Authz/Sample.antt =====
-- An instance of the libraries of fx/stdcrpcauthfx: one token, whose claims are fixed.
use stdgo.Base.{String, some, List, [], ◌∷◌, if◌then◌else◌, str_eq}
use stdgo.Go.Context.{Any, authn_info_key, value, with_value}
use stdgo.Go.Errors.{Result, ok, err}
use stdgo.Authz.Access.{Handler, Library, text, not_text, array}

abbrev pub serve_on : Result Any → Handler String (List String) → Handler String (List String)
serve_on (ok v) h r w = h (record r { context = with_value r.context authn_info_key v }) w
serve_on (err e) h r w = "refused" ∷ w

-- One token, its claims by name; the response is a log.
abbrev pub library : Library String (Unit {0}) (List String)
library = record {
  bearer_token = λ r. some "t";
  infer_procedure = λ url. some url;
  get_info = λ ctx. value ctx authn_info_key;
  set_info = λ ctx v. with_value ctx authn_info_key v;
  refuse = λ _ w. "refused" ∷ w;
  wrap = λ auth h r w. serve_on (auth r) h r w;
  parse = λ _ _ _. ok tt;
  get_text = λ _ name. if str_eq name "scope" then some " a:read  b:write" else some "org";
  get_permissions = λ _. some (array (text "a:read" ∷ not_text ∷ text "c:read" ∷ []));
  subject = λ _. some "u1";
  http_error = λ _ msg w. msg ∷ w;
}
