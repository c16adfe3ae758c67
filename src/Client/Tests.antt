-- ===== src/Client/Tests.antt =====
-- Runs of the client's model, with encoders that copy and a transport that copies.
use kuja.Prelude.{
  ◌∙◌, ◌==◌, false, ℕ, ◌≡◌, refl, ap, arith, none, some, List, [], ◌∷◌, ◌++◌, map, Str, codes,
  str_eq, if◌then◌else◌, true,
}
use kuja.Prelude.Dict.{Dict}
use kuja.Registry.{Node, NodeList}
use kuja.Server.Rpc.{Externals, GoError, Call, set_header, write_header, write, value, two, Request}
use kuja.Server.Rpc.Serve.{answer, resp_error, encoder_for}
use kuja.Server.Tests.{copying, context_at, add_request}
use kuja.Client.Request.{
  ClientEncoder, ClientExternals, HttpResponse, returns, crashes, responds, receive, read_response,
}
use kuja.Client.Wire.{HasBody, joined, last_value, sets, Wire}
use kuja.Client.{
  ClientOption, discovery, new_option, Hystrix, Client, has_json_encoder, new_with_registry,
}
use kuja.Client.Errors.{receive-no_json}
use kuja.Client.Pair.{client_side, read_response-answer}

abbrev status_of : List Call → ℕ
status_of [] = 200
status_of (set_header k v ∷ cs) = status_of cs
status_of (write_header n ∷ cs) = n
status_of (write s ∷ cs) = 200

abbrev header_of : Str → List Call → Str → Str
header_of name [] found = found
header_of name (set_header k v ∷ cs) found = header_of name cs (if str_eq k name then v else found)
header_of name (write_header n ∷ cs) found = found
header_of name (write s ∷ cs) found = found

abbrev body_of : List Call → Str
body_of [] = []
body_of (set_header k v ∷ cs) = body_of cs
body_of (write_header n ∷ cs) = body_of cs
body_of (write s ∷ cs) = s ++ body_of cs

abbrev deliver_copy : List Call → HttpResponse
deliver_copy cs = record {
  status = status_of cs;
  content_type = header_of (codes "Content-Type") cs [];
  snappy = header_of (codes "Snappy") cs [];
  body = body_of cs;
}

pub status_of-sets : (hs : Dict Str) (cs : List Call) → status_of (sets hs ++ cs) ≡ status_of cs
status_of-sets [] cs = refl
status_of-sets (h ∷ hs) cs = status_of-sets hs cs

pub body_of-sets :
    (hs : Dict Str) (n : ℕ) (ws : List Str)
    → body_of (sets hs ++ (write_header n ∷ map write ws)) ≡ joined ws
body_of-sets [] n [] = refl
body_of-sets [] n (s ∷ ws) = ap (λ t. s ++ t) (body_of-sets [] n ws)
body_of-sets (h ∷ hs) n ws = body_of-sets hs n ws

pub header_of-sets :
    (name found : Str) (hs : Dict Str) (n : ℕ) (ws : List Str)
    → header_of name (sets hs ++ (write_header n ∷ map write ws)) found
      ≡ last_value (λ s. s) name hs found
header_of-sets name found [] n ws = refl
header_of-sets name found (h ∷ hs) n ws =
    header_of-sets name (if str_eq h.0 name then h.1 else found) hs n ws

abbrev pub copy_wire : Wire
copy_wire = record {
  canonical = λ s. s;
  deliver = deliver_copy;
  canonical_type = refl;
  canonical_snappy = refl;
  status = λ hs n ws plain has_body. status_of-sets hs (write_header n ∷ map write ws);
  body = λ hs n ws plain has_body. body_of-sets hs n ws;
  content_type =
      λ hs n ws v plain has_body visible e. header_of-sets (codes "Content-Type") [] hs n ws ∙ e;
  snappy = λ hs n ws v plain has_body visible e. header_of-sets (codes "Snappy") [] hs n ws ∙ e;
  no_snappy = λ hs n ws plain has_body e. header_of-sets (codes "Snappy") [] hs n ws ∙ e;
}

abbrev pub copy_encoder : ClientEncoder Str
copy_encoder = record {
  content_type = codes "application/json";
  marshal = λ v. value v;
  unmarshal = λ bytes. value bytes;
}

abbrev pub json_error_of : Str → GoError
json_error_of s = record { text = s; status = some 404 }

abbrev pub plain_error : Str → GoError
plain_error s = record { text = s; status = none }

abbrev copy_client : ClientExternals
copy_client = client_side copying copy_wire (λ s. value s) json_error_of plain_error (λ s. none)

-- Like encoding/json, it ends what it encodes with a new line, but not what it marshals.
abbrev pub with_lines : Externals
with_lines = record copying {
  json = record {
    decode = λ t bytes. value bytes;
    marshal = λ v. value v;
    encode = λ v. (v ++ (10 ∷ [])) ∷ [];
  };
}

abbrev without_line : Str → Str
without_line [] = []
without_line (b ∷ s) = let rest = without_line s in if b == 10 then rest else b ∷ rest

abbrev pub line_encoder : ClientEncoder Str
line_encoder = record {
  content_type = codes "application/json";
  marshal = λ v. value v;
  unmarshal = λ bytes. value (without_line bytes);
}

read_response-answer_example :
    read_response
      (client_side with_lines copy_wire (λ s. value s) json_error_of plain_error (λ s. none))
      true
      line_encoder
      (deliver_copy (answer with_lines (two (codes "{}") none) (context_at 0)).1.out)
    ≡ returns 200 none (some (codes "{}"))
unfolding encoder_for str_eq
read_response-answer_example =
    read_response-answer with_lines copy_wire (λ s. value s) json_error_of plain_error (λ s. none)
      line_encoder true (codes "{}") (context_at 0) refl tt refl ((λ e. cc), refl)

abbrev not_found : GoError
not_found = record { text = codes "no"; status = some 404 }

abbrev two_nodes : NodeList
two_nodes = record {
  name = codes "Add";
  nodes = node (codes "http://a") ∷ node (codes "http://b") ∷ [];
}
  where
    node : Str → Node
    node url = record { id = []; name = []; host = []; port = []; address = []; url = url }

abbrev slashed : Request
slashed = record add_request { path = codes "//Add/Sum" }

abbrev no_texts : Hystrix
no_texts = record { err_max_concurrency = []; err_circuit_open = []; err_timeout = [] }

abbrev no_options : List (ClientOption Str (ClientEncoder Str) Str)
no_options = []

abbrev found_client : Client Str (ClientEncoder Str) Str Str
found_client = record {
  option = new_option copy_encoder;
  method = discovery (codes "registry");
  configured = [];
  json_encoder = none;
}

found_client-made :
    (new_with_registry (λ b. none) copy_encoder (codes "registry") true no_options no_texts).result
    ≡ some found_client
unfolding new_with_registry
found_client-made = refl

not_found-HasBody : HasBody 404
not_found-HasBody = (omega arith, omega arith, (λ e. omega (arith, e)), (λ e. omega (arith, e)))

receive-no_json_example :
    (receive copy_client
        (has_json_encoder found_client)
        true
        copy_encoder
        (responds (deliver_copy (resp_error copying not_found (context_at 0)).out))
      ≡ crashes)
    × (receive copy_client
          (has_json_encoder found_client)
          false
          copy_encoder
          (responds (deliver_copy (resp_error copying not_found (context_at 0)).out))
        ≡ returns 404 none none)
receive-no_json_example =
    receive-no_json copying copy_wire (λ s. value s) json_error_of plain_error (λ s. none)
      (λ b. none) copy_encoder (codes "registry") true no_options no_texts found_client copy_encoder
      not_found (context_at 0) 404 found_client-made refl refl (λ e. omega (arith, e))
      not_found-HasBody
