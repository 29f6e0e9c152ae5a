-- ===== src/ExtAuthz/Translate.antt =====
-- pkg/extauthz/translate.go: what Envoy's check request says of the call. The getters of the request
-- are its fields, a nil HTTP context is `none`, and a socket address or a principal that is absent
-- is the empty text. `strings.ToLower` is a parameter, with the codecs of `Codec`.
use Prim.Native.String
use nullfield.Prelude.{
  String, Bool, false, not, [], Option, none, some, ◌==◌, if◌then◌else◌, ◌+++◌, ltb, is_positive,
  decimal, decimal_int, ℤ, pos, negsuc, Map, ok, err, or_else,
}
use nullfield.Identity.Attest.{Attestation, mesh_attest, header_attest, peer_principal_header}
use nullfield.Mcp.{Json, JsonRpcRequest, ToolsCallParams, parse_tools_call, method_tools_call}
use nullfield.Policy.Engine.{Request}

abbrev pub transport_wire_api : String
transport_wire_api = "B"

abbrev pub transport_mcp : String
transport_mcp = "A"

-- `AttributeContext_HttpRequest`: the method, the path, the host, the headers by their lower-case
-- names, the size, and the two bodies
pub record HttpAttributes : Type 0 where
  pub method : String
  pub path : String
  pub host : String
  pub headers : Map String
  pub size : ℤ
  pub body : String
  pub raw_body : String

-- `CheckRequest`
pub record CheckRequest : Type 0 where
  pub http : Option HttpAttributes
  pub source_principal : String
  pub destination_address : String

-- `Translated`
pub record Translated : Type 0 where
  pub policy : Request
  pub attestation : Option Attestation
  pub headers : Map String
  pub raw_principal : String
  pub destination : String
  pub service : String

-- `json.Unmarshal`, `strconv.Atoi` (the number, if there is no error) and `strings.TrimSpace`
pub record Codec : Type 0 where
  pub json : Json
  pub atoi : String → Option ℤ
  pub trim_space : String → String

-- `len` of a text that is compared with a signed size
abbrev pub size_gt : ℤ → String → Bool
size_gt (pos n) body = ltb (String.len body) n
size_gt (negsuc n) body = false

-- `BodyTruncated`
unfoldable pub body_truncated : Codec → ℤ → Map String → String → Bool
body_truncated codec size headers body = elim (headers "x-envoy-auth-partial-body") [
  | some partial ↦ partial == "true"
  | none ↦ if is_positive size then size_gt size body else elim (headers "content-length") [
    | none ↦ false
    | some raw ↦ elim (codec.atoi raw) [ none ↦ false | some declared ↦ size_gt declared body ]
  ]
]

-- `bodyOf`
unfoldable pub body_of : HttpAttributes → String
body_of attrs = if not (attrs.body == "") then attrs.body else attrs.raw_body

-- `parseMCPToolsCall` from the envelope on
unfoldable pub tools_call_of : Json → JsonRpcRequest → Option (ToolsCallParams × String)
unfolding parse_tools_call
tools_call_of json envelope =
    if not (envelope.method == method_tools_call)
    then none
    else elim (parse_tools_call json envelope) [ err e ↦ none | ok tc ↦ some (tc, envelope.method) ]

-- `parseMCPToolsCall`; the method that it returns without a call is not read.
unfoldable pub parse_mcp_tools_call : Json → String → Option (ToolsCallParams × String)
unfolding tools_call_of
parse_mcp_tools_call json body = if body == "" then none else elim (json.unmarshal_request body) [
  | err e ↦ none
  | ok envelope ↦ tools_call_of json envelope
]

-- The first attester: the principal of the peer's certificate
unfoldable pub attest_source : Translated → Translated
attest_source t =
    if t.raw_principal == "" then t else record t { attestation = mesh_attest t.raw_principal }

-- The second attester: the principal that a waypoint wrote into a header
unfoldable pub attest_header : Translated → Translated
attest_header t = elim t.attestation [
  | some att ↦ t
  | none ↦
      let injected = or_else (t.headers peer_principal_header) "" in
      if injected == ""
      then t
      else record t { raw_principal = injected; attestation = header_attest injected }
]

-- What is translated before the attesters are asked
unfoldable pub bare : Codec → CheckRequest → HttpAttributes → Translated
bare codec req attrs = record {
  policy = record {
    method = "";
    tool_name = "";
    arguments = none;
    identity = none;
    transport = transport_wire_api;
    target = attrs.host;
    operation = codec.trim_space (attrs.method +++ " " +++ attrs.path);
    action = "";
    params = [];
    run = none;
  };
  attestation = none;
  headers = attrs.headers;
  raw_principal = req.source_principal;
  destination = req.destination_address;
  service = "";
}

unfoldable pub with_tool : Option (ToolsCallParams × String) → Translated → Translated
with_tool none t = t
with_tool (some (tc, method)) t = record t {
  policy = record t.policy {
    transport = transport_mcp;
    method = method;
    tool_name = tc.name;
    arguments = tc.arguments;
  };
}

-- `Translate`: what was translated, and the error
unfoldable pub translate_attributes :
    Codec → CheckRequest → HttpAttributes → Option Translated × Option String
unfolding bare attest_source attest_header body_truncated body_of with_tool parse_mcp_tools_call
translate_attributes codec req attrs =
    let out = attest_header (attest_source (bare codec req attrs)) in
    let body = body_of attrs in
    if body_truncated codec attrs.size attrs.headers body
    then (
      some out,
      some (
          "request body truncated by the ext_authz buffer (declared "
          +++ decimal_int attrs.size
          +++ " bytes, received "
          +++ decimal (String.len body)
          +++ "); refusing to decide on partial data"),
    )
    else (some (with_tool (parse_mcp_tools_call codec.json body) out), none)

unfoldable pub translate : Codec → CheckRequest → Option Translated × Option String
unfolding translate_attributes
translate codec req = elim req.http [
  | none ↦ (none, some "check request carries no HTTP attributes")
  | some attrs ↦ translate_attributes codec req attrs
]
