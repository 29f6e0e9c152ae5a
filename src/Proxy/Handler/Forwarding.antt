-- ===== src/Proxy/Handler/Forwarding.antt =====
-- What `ServeHTTP` of pkg/proxy/handler.go asks of a tool call before the upstream gets it.
use nullfield.Prelude.{
  ℕ, ◌≡◌, refl, ◌≢◌, inl, inr, String, true, false, Option, none, some, eq_iff, arith, Result-cases,
  ok,
}
use nullfield.Identity.{Identity}
use nullfield.Gates.{Clock}
use nullfield.Mcp.{JsonRpcRequest, method_tools_call}
use nullfield.Proxy.Outcome.{HttpRequest, Handler, State}
use nullfield.Proxy.Calls.Passed.{is_sent, Passed, handle_tools_call-sent}
use nullfield.Proxy.Handler.{
  serve_identified, check_caller, serve_checked, serve_request, serve_http,
}

false-ne-true : false ≢ true
false-ne-true e = ground arith

module _ {Ast Program Re : Type 0} (h : Handler Ast Program Re) where
  -- The caller is verified, and the integrity check has nothing against it; and the call has passed all
  -- that `handleToolsCall` asks, in the gates as they were.
  pub record Served (s : State) (r : HttpRequest) (req : JsonRpcRequest) (now : ℕ) (clock : Clock)
      : Type 0 where
    pub caller : Identity
    pub verified : h.verify r ≡ ok caller
    pub intact : (check_caller h s.integrity caller now).1 ≡ none
    pub passed : Passed h s req caller now clock

  serve_checked-sent :
      (s : State) (r : HttpRequest) (req : JsonRpcRequest) (body : String) (caller : Identity)
      (id : String) (now : ℕ) (clock : Clock) (x : Option String)
      → req.method ≡ method_tools_call
      → is_sent (serve_checked h s r req body caller id now clock x).2 ≡ true
      → (x ≡ none) × Passed h s req caller now clock
  unfolding serve_checked serve_identified is_sent
  serve_checked-sent s r req body caller id now clock (some e) tool sent =
      absurd (false-ne-true sent)
  serve_checked-sent s r req body caller id now clock none tool sent = (
    refl,
    handle_tools_call-sent h s req r.path body caller id now clock
        (rw ((eq_iff req.method method_tools_call).1 tool) at sent),
  )

  serve_request-sent :
      (s : State) (r : HttpRequest) (body : String) (req : JsonRpcRequest) (id : String) (now : ℕ)
      (clock : Clock)
      → req.method ≡ method_tools_call
      → is_sent (serve_request h s r body req id now clock).2 ≡ true
      → Served s r req now clock
  unfolding serve_request is_sent
  serve_request-sent s r body req id now clock tool sent = elim (Result-cases (h.verify r)) [
    | inr (m, e) ↦ absurd (false-ne-true (rw (e, serve_request) at sent))
    | inl (caller, e) ↦
        let checked = check_caller h s.integrity caller now in
        let (intact, passed) =
          serve_checked-sent (record s { integrity = checked.0 }) r req body caller id now clock
            checked.1 tool (rw (e, serve_request) at sent) in
        record {
          caller = caller;
          verified = e;
          intact = intact;
          passed = record {
            tool = passed.tool;
            parsed = passed.parsed;
            admissible = passed.admissible;
            decision = passed.decision;
            by_policy = passed.by_policy;
            allowed = passed.allowed;
            charges = passed.charges;
          };
        }
  ]

  -- A request that decodes as a JSON-RPC call of a tool is sent to the upstream without a wait only if
  -- its caller is verified, the integrity check, where there is one, has nothing against the caller, the
  -- call parses, the registry and the breaker admit it, the policy allows it, and the gates charge it
  -- without a refusal.
  pub serve_http-sent :
      (s : State) (r : HttpRequest) (body : String) (req : JsonRpcRequest) (id : String) (now : ℕ)
      (clock : Clock)
      → r.body ≡ ok body
      → h.json.unmarshal_request body ≡ ok req
      → req.method ≡ method_tools_call
      → is_sent (serve_http h s r id now clock).2 ≡ true
      → Served s r req now clock
  unfolding serve_http
  serve_http-sent s r body req id now clock read decoded tool sent =
      serve_request-sent s r body req id now clock tool (rw (read, serve_http, decoded) at sent)
