-- ===== src/Mcp.antt =====
-- pkg/mcp/envelope.go: the JSON-RPC envelope of a tool call. `json.Unmarshal` is a parameter.
use nullfield.Prelude.{
  String, not, Option, some, ◌==◌, if◌then◌else◌, ◌+++◌, ℤ, negsuc, Result, ok, err,
}
use nullfield.Value.{Value, Fields}

abbrev pub method_tools_call : String
method_tools_call = "tools/call"

-- `JSONRPCRequest`; the raw `Params` are a text.
pub record JsonRpcRequest : Type 0 where
  pub json_rpc : String
  pub id : Value
  pub method : String
  pub params : String

-- `JSONRPCError` and `JSONRPCResponse`, without the result, which this program never builds
pub record JsonRpcError : Type 0 where
  pub code : ℤ
  pub message : String

pub record JsonRpcResponse : Type 0 where
  pub json_rpc : String
  pub id : Value
  pub error : Option JsonRpcError

-- `ToolsCallParams`
pub record ToolsCallParams : Type 0 where
  pub name : String
  pub arguments : Option Fields

-- `json.Unmarshal` into the two types, with the text of its error
pub record Json : Type 0 where
  pub unmarshal_request : String → Result JsonRpcRequest
  pub unmarshal_params : String → Result ToolsCallParams

-- `ParseToolsCall`, given what `json.Unmarshal` answered for the parameters
unfoldable pub check_params : Result ToolsCallParams → Result ToolsCallParams
check_params (err e) = err ("invalid tools/call params: " +++ e)
check_params (ok params) =
    if params.name == "" then err "tools/call missing tool name" else ok params

-- `ParseToolsCall`
unfoldable pub parse_tools_call : Json → JsonRpcRequest → Result ToolsCallParams
unfolding check_params
parse_tools_call json req =
    if not (req.method == method_tools_call)
    then err ("not a tools/call request: " +++ req.method)
    else check_params (json.unmarshal_params req.params)

-- `NewErrorResponse`
abbrev pub new_error_response : Value → ℤ → String → JsonRpcResponse
new_error_response id code message = record {
  json_rpc = "2.0";
  id = id;
  error = some (record { code = code; message = message });
}

abbrev pub code_parse : ℤ
code_parse = negsuc 32699

abbrev pub code_invalid_par : ℤ
code_invalid_par = negsuc 32601

abbrev pub code_internal : ℤ
code_internal = negsuc 32602

abbrev pub code_policy_denied : ℤ
code_policy_denied = negsuc 31999

abbrev pub code_identity_failed : ℤ
code_identity_failed = negsuc 32000

abbrev pub code_circuit_open : ℤ
code_circuit_open = negsuc 32001

abbrev pub code_tool_unknown : ℤ
code_tool_unknown = negsuc 32002

abbrev pub code_rate_limited : ℤ
code_rate_limited = negsuc 32003

abbrev pub code_hold_timeout : ℤ
code_hold_timeout = negsuc 32004

abbrev pub code_scope_violation : ℤ
code_scope_violation = negsuc 32005

abbrev pub code_inspection_block : ℤ
code_inspection_block = negsuc 32006
