-- ===== src/Proxy/Handler.antt =====
-- pkg/proxy/handler.go: `ServeHTTP`, and the response of the upstream that is read before the client
-- gets it. The response is a parameter: its status and its first MiB, or the error of either.
pub mod Forwarding
use nullfield.Prelude.{
  ℕ, String, Bool, true, false, not, ◌&&◌, ◌||◌, List, [], ◌∷◌, ◌++◌, Option, none, some, ◌==◌,
  if◌then◌else◌, ◌+++◌, decimal, ltb, length, ℤ, Result, ok, err,
}
use nullfield.Value.{Value, null}
use nullfield.Api.{Rule, InspectionConfig, ScopeResponseConfig}
use nullfield.Identity.{Identity}
use nullfield.Identity.Integrity.{IntegrityChecker, check_integrity}
use nullfield.Policy.Engine.{Decision}
use nullfield.Gates.{Clock}
use nullfield.Scope.{modify_response}
use nullfield.Inspection.{Inspector, Finding, inspect, redact, summarize}
use nullfield.Mcp.{
  JsonRpcRequest, JsonRpcResponse, new_error_response, method_tools_call, code_parse, code_internal,
  code_identity_failed, code_inspection_block,
}
use nullfield.Audit.{AuditEvent, event_of}
use nullfield.Proxy.Context.{event_with_decision, text_or}
use nullfield.Proxy.Outcome.{
  HttpRequest, Handler, State, Journey, Outcome, replied, forwarded, Left,
}
use nullfield.Proxy.Calls.{handle_tools_call, event_on, redacts}

-- The response of the upstream
pub record Upstream : Type 0 where
  pub status : ℕ
  pub body : Result String

-- What the client gets of a call that was posted: a status and a body, or an error
pub data Written : Type 0 where
  written : ℕ → String → Written
  failed : JsonRpcResponse → Written

abbrev pub status_ok : ℕ
status_ok = 200

abbrev pub identity_failed : String → String → AuditEvent
identity_failed method e = record (event_of "identity.failed") { method = method; error = e }

-- `(blocked, result)` of `inspectResponse`, without the events: `none` for a nil result
pub record Inspected : Type 0 where
  pub events : List AuditEvent
  pub is_blocked : Bool
  pub result : Option String

abbrev pub uninspected : Inspected
uninspected = record { events = []; is_blocked = false; result = none }

abbrev pub inspection_of : Option Rule → Option InspectionConfig
inspection_of none = none
inspection_of (some rule) = rule.inspection

module _ {Ast Program Re : Type 0} (h : Handler Ast Program Re) where
  unfoldable pub finding_event : Journey → List Finding → AuditEvent
  unfolding event_with_decision event_on summarize
  finding_event j findings =
      event_with_decision
        (record (event_on "inspection.finding" j) {
          gate = "inspection";
          reason_class = "inspection_finding";
          reason = decimal (length findings) +++ " findings: " +++ summarize findings;
        })
        j.decision j.caller

  unfoldable pub redact_event : Journey → ℕ → AuditEvent
  unfolding event_with_decision event_on
  redact_event j count =
      event_with_decision
        (record (event_on "inspection.redact" j) {
          gate = "inspection";
          reason_class = "inspection_redact";
          reason = "redacted " +++ decimal count +++ " sensitive patterns";
        })
        j.decision j.caller

  -- The switch of `inspectResponse`
  unfoldable pub on_finding : Inspector Re → String → Journey → String → List Finding → Inspected
  unfolding finding_event redact_event
  on_finding inspector action j body findings =
      if action == "DENY"
      then record {
        events = finding_event j findings ∷ [];
        is_blocked = true;
        result = some (
            h.marshal_response (
              new_error_response j.request.id code_inspection_block (
                "response blocked: "
                +++ decimal (length findings)
                +++ " sensitive findings detected")));
      }
      else if action == "REDACT"
      then (let redacted = redact h.re inspector body "[REDACTED]" in
          record {
            events =
                finding_event j findings
                ∷ (if ltb 0 redacted.1 then redact_event j redacted.1 ∷ [] else []);
            is_blocked = false;
            result = some redacted.0;
          })
      else record { events = finding_event j findings ∷ []; is_blocked = false; result = none }

  unfoldable pub inspect_with :
      Inspector Re → InspectionConfig → Journey → String → List Finding → Inspected
  unfolding on_finding
  inspect_with inspector icfg j body [] = uninspected
  inspect_with inspector icfg j body (f ∷ findings) =
      on_finding inspector (text_or icfg.on_finding "REDACT") j body (f ∷ findings)

  -- `inspectResponse`
  unfoldable pub inspect_response : Journey → String → Inspected
  unfolding inspect_with
  inspect_response j body = elim h.inspector [
    | none ↦ uninspected
    | some inspector ↦ elim (inspection_of j.decision.matched_rule) [
      | none ↦ uninspected
      | some icfg ↦
          if icfg.enabled
          then inspect_with inspector icfg j body (inspect h.re inspector body)
          else uninspected
    ]
  ]

  -- The response after SCOPE, with the event of what was redacted
  unfoldable pub scope_response :
      Option ScopeResponseConfig → Journey → String → String × List AuditEvent
  unfolding modify_response event_with_decision event_on
  scope_response none j body = (body, [])
  scope_response (some cfg) j body =
      if redacts (some cfg)
      then (let modified = modify_response h.re body cfg in
          (
            modified.0,
            if ltb 0 modified.1
                then event_with_decision
                    (record (event_on "scope.modified" j) {
                      reason = "response: " +++ decimal modified.1 +++ " patterns redacted";
                    })
                    j.decision j.caller
                  ∷ []
                else [],
          ))
      else (body, [])

  unfoldable pub write_inspected : ℕ → String → Inspected → List AuditEvent × Written
  write_inspected status body i = (
    i.events,
    if i.is_blocked
        then written status_ok (elim i.result [ none ↦ "" | some result ↦ result ])
        else written status (elim i.result [ none ↦ body | some result ↦ result ]),
  )

  unfoldable pub write_response :
      Option ScopeResponseConfig → Journey → ℕ → String → List AuditEvent × Written
  unfolding scope_response inspect_response write_inspected
  write_response cfg j status body =
      let (scoped, events) = scope_response cfg j body in
      let (more, result) = write_inspected status scoped (inspect_response j scoped) in
      (events ++ more, result)

  -- The end of `handleToolsCall`, given the answer to `http.Post`
  unfoldable pub finish :
      Option ScopeResponseConfig → Journey → Result Upstream → List AuditEvent × Written
  unfolding write_response
  finish cfg j (err e) =
      ([], failed (new_error_response j.request.id code_internal "upstream request failed"))
  finish cfg j (ok response) = elim response.body [
    | err e ↦ (
      [],
      failed (new_error_response j.request.id code_internal "failed to read upstream response"),
    )
    | ok body ↦ write_response cfg j response.status body
  ]

  -- `ServeHTTP` from the caller's identity on
  unfoldable pub serve_identified :
      State → HttpRequest → JsonRpcRequest → String → Identity → String → ℕ → Clock → Left
  unfolding handle_tools_call
  serve_identified s r req body caller id now clock =
      if req.method == method_tools_call
      then handle_tools_call h s req r.path body caller id now clock
      else (
        s,
        record (event_of "mcp.request") { method = req.method; identity = caller.subject } ∷ [],
        forwarded body,
      )

  unfoldable pub check_caller :
      Option IntegrityChecker → Identity → ℕ → Option IntegrityChecker × Option String
  unfolding check_integrity
  check_caller none caller now = (none, none)
  check_caller (some ic) caller now =
      let checked = check_integrity h.quote ic caller now in (some checked.0, checked.1)

  -- `ServeHTTP`, given what the integrity check said
  unfoldable pub serve_checked :
      State
      → HttpRequest
      → JsonRpcRequest
      → String
      → Identity
      → String
      → ℕ
      → Clock
      → Option String
      → Left
  unfolding serve_identified
  serve_checked s r req body caller id now clock (some e) = (
    s,
    identity_failed req.method e ∷ [],
    replied (new_error_response req.id code_identity_failed ("integrity check failed: " +++ e)),
  )
  serve_checked s r req body caller id now clock none =
      serve_identified s r req body caller id now clock

  -- `ServeHTTP` of a JSON-RPC request
  unfoldable pub serve_request :
      State → HttpRequest → String → JsonRpcRequest → String → ℕ → Clock → Left
  unfolding check_caller serve_checked
  serve_request s r body req id now clock = elim (h.verify r) [
    | err e ↦ (
      s,
      identity_failed req.method e ∷ [],
      replied (new_error_response req.id code_identity_failed "identity verification failed"),
    )
    | ok caller ↦
        let checked = check_caller s.integrity caller now in
        serve_checked (record s { integrity = checked.0 }) r req body caller id now clock checked.1
  ]

  -- `ServeHTTP`
  unfoldable pub serve_http : State → HttpRequest → String → ℕ → Clock → Left
  unfolding serve_request
  serve_http s r id now clock = elim r.body [
    | err e ↦ (s, [], replied (new_error_response null code_parse "failed to read request body"))
    | ok body ↦ elim (h.json.unmarshal_request body) [
      | err e ↦ (s, [], forwarded body)
      | ok req ↦ serve_request s r body req id now clock
    ]
  ]
