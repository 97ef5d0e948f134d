-- ===== src/Lambda/Tests.antt =====
-- A function that answers with its input, behind the client that invokes it.
use stdgo.Base.{String, [], ◌≡◌, refl}
use stdgo.Go.Context.{Context}
use stdgo.Go.Errors.{message, Result, ok}
use stdgo.Lambda.{Client, Json, handle, invoke}
use stdgo.Lambda.Roundtrip.{Encodes, invoke-handle}

abbrev json : Json String
json = record { marshal = ok; unmarshal = ok }

json-Encodes : Encodes json
json-Encodes a s h = cc

abbrev echo : Context → String → Result String
echo ctx inp = ok inp

abbrev client : Client
client = record {
  invoke = λ ctx _ payload. ok (200, payload);
  error_message = λ _. "";
  response_error = λ _. ok (message "");
}

invoke-handle_example : invoke json json client "echo" [] "hello" ≡ ok "hello"
unfolding handle
invoke-handle_example =
    invoke-handle json json client (λ _. "{}") "echo" [] [] echo "hello" "hello" "hello" "hello"
      json-Encodes json-Encodes refl refl refl refl refl
