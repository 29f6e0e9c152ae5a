-- ===== src/Proxy/Outcome.antt =====
-- pkg/proxy/handler.go: the handler and what it has done with a request when it stops. It stops with a
-- reply, with the request handed to the upstream, with a panic, or to wait: for the person who resolves
-- a hold, or for the upstream's response, which it is to read before the client does.
use nullfield.Prelude.{String, Option, List, Result, ℤ}
use nullfield.Identity.{Identity}
use nullfield.Identity.Integrity.{IntegrityChecker}
use nullfield.Policy.Engine.{Decision}
use nullfield.Policy.Cel.{Cel}
use nullfield.Policy.Rules.{RuleEngine}
use nullfield.Api.{ScopeResponseConfig}
use nullfield.Gates.{Gates, Call}
use nullfield.Hold.{Manager}
use nullfield.Regexp.{Regexp}
use nullfield.Scope.{JsonMap}
use nullfield.Inspection.{Inspector}
use nullfield.Mcp.{Json, JsonRpcRequest, JsonRpcResponse, ToolsCallParams}
use nullfield.Audit.{AuditEvent}

-- The request that the proxy gets: what the read of its first MiB gives, its path and its headers
pub record HttpRequest : Type 0 where
  pub body : Result String
  pub path : String
  pub header : String → String

-- `Handler`, without its state. The verifier of identities is an interface; the credentials are those
-- of pkg/credentials, `none` for a nil provider. `quote` is %q, `parse_duration` is
-- `time.ParseDuration` and `show_duration` what %s writes of one; `marshal_response` is `json.Marshal`.
pub record Handler (Ast Program Re : Type 0) : Type 0 where
  pub cel : Cel Ast Program
  pub engine : RuleEngine Program
  pub verify : HttpRequest → Result Identity
  pub credentials : Option (String → String → Result String)
  pub inspector : Option (Inspector Re)
  pub re : Regexp Re
  pub json : Json
  pub json_map : JsonMap
  pub to_lower : String → String
  pub quote : String → String
  pub parse_duration : String → Option ℤ
  pub show_duration : ℤ → String
  pub marshal_response : JsonRpcResponse → String

-- The members of `Handler` that its operations change
pub record State : Type 0 where
  pub gates : Gates
  pub integrity : Option IntegrityChecker
  pub holds : Option Manager

-- A tool call on its way: the request, its body, the caller, and the decision
pub record Journey : Type 0 where
  pub request : JsonRpcRequest
  pub path : String
  pub tool : ToolsCallParams
  pub body : String
  pub caller : Identity
  pub decision : Decision

pub data Outcome : Type 0 where
  -- A JSON-RPC error to the client
  replied : JsonRpcResponse → Outcome
  -- The request, with this body, handed to the upstream, whose response the client gets as it is
  forwarded : String → Outcome
  -- A call that is held, with the identifier of the hold
  waiting : String → Journey → Outcome
  -- The call posted to the upstream, whose response is to be read
  posted : Option ScopeResponseConfig → Journey → Outcome
  panicked : Outcome

-- What a step leaves: the state, the events in the order in which they are emitted, and the outcome
abbrev pub Left : Type 0
Left = State × List AuditEvent × Outcome

-- `call` of `handleToolsCall`
abbrev pub call_of : ToolsCallParams → Identity → Call
call_of tool caller = record {
  tool = tool.name;
  subject = caller.subject;
  session = caller.session_id;
}
