-- ===== src/ExtAuthz/Verify.antt =====
-- pkg/extauthz/server.go: `verifyRun` and what `decide` does with the operation map.
use nullfield.Prelude.{String, Bool, List, [], Option, none, some, if◌then◌else◌, or_else}
use nullfield.Identity.Attest.{Attestation}
use nullfield.Identity.RunToken.{
  Jwks, Verified, verified, failed, missing, unbound, invalid, verify_run_token, run_token_header,
}
use nullfield.Operations.{Library, OperationMap, resolve}
use nullfield.Gates.{Refusal}
use nullfield.ExtAuthz.Translate.{Translated}

abbrev pub params_of : Option (List (String × String)) → List (String × String)
params_of none = []
params_of (some params) = params

-- What `decide` does with the answer of `Resolve`
unfoldable pub name_action :
    Option (String × Option (List (String × String))) → Translated → Translated × Option Refusal
name_action none t = (
  record t { policy = record t.policy { action = ""; params = [] } },
  some (record {
    gate = "operation";
    reason_class = "operation_ambiguous";
    reason = "operations: ambiguous path";
  }),
)
name_action (some (action, params)) t =
    (record t { policy = record t.policy { action = action; params = params_of params } }, none)

unfoldable pub verify_operation :
    Option OperationMap → Library → Translated → Translated × Option Refusal
unfolding name_action resolve
verify_operation none lib t = (t, none)
verify_operation (some m) lib t = name_action (resolve lib m t.policy.target t.policy.operation) t

abbrev pub run_refusal : String → String → Refusal
run_refusal reason_class reason = record {
  gate = "run_token";
  reason_class = reason_class;
  reason = reason;
}

-- `verifyRun`, given what the verifier answered
unfoldable pub accept_run : Verified → Bool → Translated → Translated × Option Refusal
accept_run (verified id run) is_optional t =
    (record t { policy = record t.policy { identity = some id; run = some run } }, none)
accept_run (failed missing) is_optional t = (
  t,
  if is_optional then none else some (run_refusal "run_token_missing" "a run token is required"),
)
accept_run (failed (unbound e)) is_optional t = (t, some (run_refusal "run_token_unbound" e))
accept_run (failed (invalid e)) is_optional t = (t, some (run_refusal "run_token_invalid" e))

abbrev pub principal_of : Option Attestation → String
principal_of none = ""
principal_of (some att) = att.principal

unfoldable pub verify_run : Option Jwks → Bool → Library → Translated → Translated × Option Refusal
unfolding accept_run
verify_run none is_optional lib t = (t, none)
verify_run (some jwks) is_optional lib t =
    accept_run
      (verify_run_token jwks (or_else (t.headers (lib.to_lower run_token_header)) "")
        (principal_of t.attestation))
      is_optional t

-- One check after another, as long as none refuses.
abbrev pub then_verify :
    Translated × Option Refusal
    → (Translated → Translated × Option Refusal)
    → Translated × Option Refusal
then_verify (t, some r) next = (t, some r)
then_verify (t, none) next = next t
