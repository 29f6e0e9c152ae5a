-- ===== src/Scope/Arguments.antt =====
-- What `ModifyRequest` of pkg/scope/modifier.go leaves of a call's arguments.
use nullfield.Prelude.{String, Option, none, some, ◌==◌, if◌then◌else◌, any}
use nullfield.Value.{Value, Fields, lookup}
use nullfield.Api.{ScopeRequestConfig}

abbrev either : Option Value → Option Value → Option Value
either none o = o
either (some v) o = some v

-- What is asked of the argument `j`: the value that is injected under its name, or else the call's own
-- unless it is stripped
unfoldable pub injected : ScopeRequestConfig → Fields → String → Option Value
injected cfg args j =
    either (lookup j cfg.inject_arguments)
      (if any (λ k. k == j) cfg.strip_arguments then none else lookup j args)
