-- ===== src/Policy/Cel.antt =====
-- pkg/policy/cel.go: the expression of a rule. cel-go is a parameter: what its environment, its
-- checker and its programs answer.
use nullfield.Prelude.{
  ℕ, String, Bool, Option, none, some, ◌==◌, ◌+++◌, if◌then◌else◌, Result, ok, err, ◌>>=◌, ◌>>◌,
  guard,
}
use nullfield.Value.{Value, text, texts, object, Fields, end, field, entries, non_nil_map}
use nullfield.Identity.{Identity, Run}
use nullfield.Policy.Engine.{Request}

-- What a program evaluates to: a bool, or a value of another Go type, by the type's name.
pub data CelValue : Type 0 where
  boolean : Bool → CelValue
  other : String → CelValue

-- `cel.NewEnv`, `env.Compile`, `ast.OutputType`, `env.Program` and `prg.Eval`.
pub record Cel (Ast Program : Type 0) : Type 0 where
  pub new_env : Result (Unit {0})
  pub compile : String → Result Ast
  pub output_type : Ast → String
  pub program : Ast → ℕ → Result Program
  pub eval : Program → Value → Result CelValue

abbrev pub cel_cost_limit : ℕ
cel_cost_limit = 1_000_000

abbrev identity_entry : Option Identity → Fields → Fields
identity_entry none rest = rest
identity_entry (some id) rest =
    field "identity"
      (object (
        field "subject" (text id.subject) (
          field "issuer" (text id.issuer) (
            field "type" (text id.kind) (
              field "provider" (text id.provider) (
                field "scopes" (texts id.scopes) (
                  field "groups" (texts id.groups)
                    (field "claims" (object (non_nil_map id.claims)) end))))))))
      rest

abbrev action_entries : Request → Fields → Fields
action_entries req rest =
    if req.action == ""
    then rest
    else field "action" (text req.action) (field "params" (object (entries req.params)) rest)

abbrev run_entry : Option Run → Fields → Fields
run_entry none rest = rest
run_entry (some run) rest =
    field "run"
      (object (
        field "id" (text run.id) (
          field "workload" (text run.workload)
            (field "context" (object (non_nil_map run.context)) end))))
      rest

unfoldable pub cel_input : Request → Value
cel_input req = object (
    field "request"
      (object (
        field "method" (text req.method) (
          field "tool" (text req.tool_name) (
            field "arguments" (object (non_nil_map req.arguments)) (
              field "transport" (text req.transport) (
                field "target" (text req.target) (
                  field "operation" (text req.operation) (
                    identity_entry req.identity (action_entries req (run_entry req.run end))))))))))
      end)

module _ {Ast Program : Type 0} (cel : Cel Ast Program) where
  unfoldable pub compile_cel : String → Result Program
  compile_cel expr = do
    cel.new_env
    ast ← cel.compile expr
    guard (cel.output_type ast == "bool") (
        "must evaluate to a bool, not "
        +++ cel.output_type ast
        +++ " (compare with == true for a boolean argument)")
    cel.program ast cel_cost_limit

  -- `out.Value().(bool)`
  abbrev as_bool : CelValue → Result Bool
  as_bool (boolean b) = ok b
  as_bool (other kind) = err ("evaluated to " +++ kind +++ ", not bool")

  unfoldable pub eval_cel : Program → Request → Result Bool
  eval_cel prg req = do out ← cel.eval prg (cel_input req); as_bool out
