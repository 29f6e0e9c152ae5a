-- ===== src/Lib.antt =====
-- nullfield, a policy sidecar for tool calls: a call is identified, admitted, judged by the
-- rules of the policy, charged to its limits, perhaps held for a person's approval, and
-- then forwarded or refused. This library models the decisions on that way.
--
-- The parts, and the code that each is about, by paths from the repository's root:
--   Value, Identity, Api   the dynamic values of claims and arguments; the caller of
--                          pkg/identity/identity.go; the policy's rules and the registry's entries
--                          of api/v1alpha1/types.go; Identity.Drift, Attest, RunToken and Integrity
--                          are drift.go, attest.go, runtoken.go and integrity.go of pkg/identity,
--                          and Verifiers identity.go, multi.go, select.go and headers.go; Api.Spec is
--                          the specification of a policy
--   Policy                 pkg/policy: Engine the request and the decision of engine.go; Match and
--                          Guards the predicates of rules.go; Cel the expressions of cel.go; Rules
--                          NewRuleEngine and Evaluate, with Steps, Answers, Verdicts and Consistent on
--                          them; Loader the validation of loader.go
--   Gates                  pkg/gates/gates.go: Admit, Charge and, in RateLimits, take
--   Circuit                pkg/circuit/breaker.go, and limits.go in Limits; Traffic the calls that
--                          overlap
--   Budget                 pkg/budget/tracker.go; Atomic and Judged one check, Quota a series
--   Anomaly                pkg/anomaly: Velocity and Sequence
--   Registry               pkg/registry/registry.go, and lifecycle.go in Lifecycle
--   Hold                   pkg/hold/manager.go; Once and Approval runs of its operations
--   Credentials            pkg/credentials: cache.go and provider.go
--   Controller             pkg/controller: Budgets budget.go, Holds holds.go, Sidecars registry.go,
--                          Events events.go, with Ring and Recent on what it keeps
--   Mcp, Audit             the envelope of pkg/mcp/envelope.go; the event of pkg/audit/audit.go
--   Regexp, Scope, Inspection
--                          pkg/scope/modifier.go and pkg/inspection/inspector.go, over regexp
--   Proxy                  pkg/proxy: Context audit_context.go and what a gate says; Outcome, Calls
--                          and Handler handler.go, a definition for each stage of a request, with
--                          Passed, Trail and Forwarding on what is sent to the upstream
--   ExtAuthz               pkg/extauthz/response.go; Translate translate.go; Target, Verify, Decide
--                          and Server server.go
--   Operations             pkg/operations/operations.go; Templates and Names
--   Times                  the sliding windows that the trackers share
--   Prelude, Tests         shared names and lemmas; runs on concrete input
-- Gates runs Registry, Circuit, Budget and Anomaly around the decision that Policy makes. Proxy and
-- ExtAuthz are the two front doors: each identifies the caller, admits the call, has it judged and
-- charges it; Proxy also holds it, rewrites it by SCOPE and inspects the response, and ExtAuthz turns
-- the decision into an answer to Envoy.
--
-- How the code is read. A mutex makes each operation one step from a state to a state and a result.
-- What time.Now gives is an argument, a separate one for each reading, as a number of nanoseconds.
-- A map is a function from texts to options, or a list of entries where the code lists or counts
-- them; a nil map or pointer is none. Go's int is an integer: calls are counted in the natural
-- numbers, since one call at a time does not reach 2 ^ 63, and the sums that a caller can drive
-- beyond it (token counts, twice a duration) wrap round at 64 bits. Recursion follows the lists
-- and claims; the one fuel, of the decimal notation, is the number itself plus one, which divides
-- down to zero sooner. A panic of Evaluate or of the server of pkg/extauthz is the result none, and
-- one of the proxy the outcome panicked. A handler that waits, for the person who resolves a hold or
-- for the upstream, stops with an outcome that says so, and goes on by another function from the
-- state that it then finds. The events that are emitted are a list among the results.
--
-- Parameters, for code that is not the repository's: cel-go is the record Policy.Cel.Cel, and what
-- pkg/operations calls of net, net/url, strings.ToLower and the verb %q is the record
-- Operations.Library; the digest and the sort of pkg/registry/lifecycle.go are the record
-- Registry.Lifecycle.Hashing, and the sort and the quotes of pkg/identity/drift.go the record
-- Identity.Drift.Wording. strings.EqualFold folds runes by the table of Unicode 15.0 in
-- Prelude.Folding. The identifiers that crypto/rand draws for holds are arguments. regexp is
-- the record Regexp.Regexp, encoding/json the records Mcp.Json and Scope.JsonMap, the codecs of
-- pkg/extauthz/translate.go the record ExtAuthz.Translate.Codec, the verifier of signatures behind a
-- run token the record Identity.RunToken.Jwks, and the verifier of identities and the credentials of
-- the proxy are fields of Proxy.Outcome.Handler. What the resolver of addresses answers is a function.
--
-- Not modelled: reading and parsing of files, HTTP, gRPC and Kubernetes access, logging and metrics;
-- the verification of signatures in pkg/identity/jwks.go; the gateway of pkg/proxy; the flow compiler;
-- the signals; and the services around the stores of the controller.
pub mod Prelude
pub mod Value
pub mod Identity
pub mod Api
pub mod Policy
pub mod Times
pub mod Circuit
pub mod Budget
pub mod Anomaly
pub mod Registry
pub mod Gates
pub mod Hold
pub mod Mcp
pub mod Audit
pub mod Regexp
pub mod Scope
pub mod Inspection
pub mod Credentials
pub mod Proxy
pub mod Controller
pub mod ExtAuthz
pub mod Operations
mod Tests
