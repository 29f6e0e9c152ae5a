-- ===== src/ExtAuthz.antt =====
-- pkg/extauthz/response.go: how a decision becomes the answer to the proxy. Of Envoy's messages,
-- the fields that are set are modelled.
pub mod Held
pub mod Translate
pub mod Target
pub mod Verify
pub mod Decide
pub mod Server
use nullfield.Prelude.{List, [], ℕ, String, Bool, true, false, not, ◌&&◌, ◌||◌, if◌then◌else◌, ◌==◌}
use nullfield.Policy.Engine.{Decision}

-- `Mode` is a text, and these are the three that the server understands.
abbrev pub mode_no_op : String
mode_no_op = "no-op"

abbrev pub mode_observe : String
mode_observe = "observe"

abbrev pub mode_enforce : String
mode_enforce = "enforce"

-- `Valid`
abbrev pub is_valid : String → Bool
is_valid m = m == mode_no_op || m == mode_observe || m == mode_enforce

-- `Counterfactual`
unfoldable pub counterfactual : Decision → String
counterfactual d =
    if not d.allowed
    then "DENY"
    else if d.held
    then "HOLD"
    else if d.scoped
    then "SCOPE"
    else "ALLOW"

-- `CounterfactualFor`
unfoldable pub counterfactual_for : String → Decision → String
unfolding counterfactual
counterfactual_for mode d = if mode == mode_enforce then "" else counterfactual d

-- What the response asks of the proxy: go on without the headers that are named, or answer with a
-- status and a body.
pub data HttpResponse : Type 0 where
  ok_response : List String → HttpResponse
  denied_response : ℕ → String → HttpResponse

-- `CheckResponse`, its status being the code of gRPC
pub record CheckResponse : Type 0 where
  pub code : ℕ
  pub http_response : HttpResponse

abbrev pub code_ok : ℕ
code_ok = 0

abbrev pub code_permission_denied : ℕ
code_permission_denied = 7

abbrev pub status_forbidden : ℕ
status_forbidden = 403

-- `ok`
abbrev pub ok : CheckResponse
ok = record { code = code_ok; http_response = ok_response [] }

-- `denied`
abbrev pub denied : String → CheckResponse
denied reason = record {
  code = code_permission_denied;
  http_response = denied_response status_forbidden reason;
}

-- `Respond`
unfoldable pub respond : String → Decision → CheckResponse
respond mode d = if not (mode == mode_enforce) || d.allowed then ok else denied d.reason
