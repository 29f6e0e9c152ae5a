-- ===== src/Gates.antt =====
-- pkg/gates/gates.go: the checks that every front door runs around a policy decision. Each call of
-- `time.Now` below them is an argument of its own, since each reads the clock again.
pub mod RateLimits
pub mod Outcomes
use nullfield.Prelude.{
  ℕ, String, Bool, true, false, not, ◌&&◌, ◌||◌, List, [], ◌∷◌, ◌++◌, Option, none, some, ◌==◌,
  ◌+++◌, if◌then◌else◌, is_some, is_positive, decimal, decimal_int,
}
use nullfield.Api.{Rule, ToolRegistryEntry, BudgetConfig}
use nullfield.Policy.Engine.{Decision}
use nullfield.Registry.{Registry, is_registered, get}
use nullfield.Circuit.{Breaker, is_allowed, record_call as breaker_record}
use nullfield.Budget.{Now, Tracker, check_and_record, limits_of}
use nullfield.Anomaly.Velocity.{
  Alert, VelocityTracker, record_call as velocity_record, alert_action_deny,
}
use RateLimits.{Rates, RateLimit, take}

abbrev pub gate_registry : String
gate_registry = "registry"

abbrev pub gate_circuit : String
gate_circuit = "circuit"

abbrev pub gate_budget : String
gate_budget = "budget"

abbrev pub gate_anomaly : String
gate_anomaly = "anomaly"

abbrev pub gate_rate : String
gate_rate = "rate"

-- `Gates`: `none` for a nil member.
pub record Gates : Type 0 where
  pub registry : Option Registry
  pub breaker : Option Breaker
  pub budgets : Option Tracker
  pub velocity : Option VelocityTracker
  pub rates : Option Rates

-- `Call`
pub record Call : Type 0 where
  pub tool : String
  pub subject : String
  pub session : String

-- `Refusal`
pub record Refusal : Type 0 where
  pub gate : String
  pub reason_class : String
  pub reason : String

-- What the clock says to each of the members that `Charge` runs.
pub record Clock : Type 0 where
  pub rates_at : ℕ
  pub budgets_at : Now
  pub breaker_at : ℕ
  pub velocity_at : ℕ

abbrev pub knows_tool : Option Registry → String → Bool
knows_tool none tool = true
knows_tool (some r) tool = is_registered r tool

abbrev pub lets_through : Option Breaker → String → ℕ → Bool
lets_through none session now = true
lets_through (some b) session now = is_allowed b session now

-- `Admit`
unfoldable pub admit : Gates → Call → ℕ → Option Refusal
admit g c now =
    if not (c.tool == "") && not (knows_tool g.registry c.tool)
    then some (record {
      gate = gate_registry;
      reason_class = "tool_not_registered";
      reason = "tool not registered";
    })
    else if not (lets_through g.breaker c.session now)
    then some (record {
      gate = gate_circuit;
      reason_class = "circuit_open";
      reason = "circuit breaker open — session limit exceeded";
    })
    else none

-- The limit of the rule that allowed the call.
unfoldable pub rule_limits : Decision → List RateLimit
rule_limits d = elim d.matched_rule [
  | none ↦ []
  | some rule ↦
      if is_positive rule.max_calls_per_min
      then record {
        scope = "rule " +++ (if rule.id == "" then "#" +++ decimal_int d.rule_index else rule.id);
        max = rule.max_calls_per_min;
      }
        ∷ []
      else []
]

abbrev entry_of : Option Registry → String → Option ToolRegistryEntry
entry_of none tool = none
entry_of (some r) tool = if tool == "" then none else get r tool

-- The limit of the tool's registry entry.
unfoldable pub tool_limits : Option Registry → String → List RateLimit
tool_limits registry tool = elim (entry_of registry tool) [
  | none ↦ []
  | some entry ↦
      if is_positive entry.max_calls_per_min
      then record { scope = "tool " +++ tool; max = entry.max_calls_per_min } ∷ []
      else []
]

abbrev pub rate_refusal : String → String → Refusal
rate_refusal reason_class reason = record {
  gate = gate_rate;
  reason_class = reason_class;
  reason = reason;
}

-- `chargeRates` from its limits on.
unfoldable pub charge_limits : List RateLimit → Gates → Call → ℕ → Gates × Option Refusal
charge_limits [] g c now = (g, none)
charge_limits (l ∷ limits) g c now =
    if c.subject == ""
    then (
      g,
      some (
          rate_refusal "rate_unattributable"
            "rate limit cannot be charged: the call has no identity to charge it to"),
    )
    else elim g.rates [
      | none ↦ (g, some (rate_refusal "rate_limited" "rate limit configured but not counted"))
      | some rates ↦ (
        record g { rates = some (take rates c.subject (l ∷ limits) now).0 },
        elim (take rates c.subject (l ∷ limits) now).1 [
          | none ↦ none
          | some full ↦ some (
              rate_refusal "rate_limited" (
                "rate limit exceeded: "
                +++ full.scope
                +++ " allows "
                +++ decimal_int full.max
                +++ " calls/min"))
        ],
      )
    ]

-- `chargeRates`
unfoldable pub charge_rates : Gates → Call → Decision → ℕ → Gates × Option Refusal
charge_rates g c d now = charge_limits (rule_limits d ++ tool_limits g.registry c.tool) g c now

abbrev budget_of : Option Rule → Option BudgetConfig
budget_of none = none
budget_of (some rule) = rule.budget

abbrev pub budget_refusal : String → String → Refusal
budget_refusal reason_class reason = record {
  gate = gate_budget;
  reason_class = reason_class;
  reason = reason;
}

-- `chargeBudget` where there is a tracker and a budget.
pub charge_config : Tracker → BudgetConfig → Call → Now → Tracker × Option Refusal
charge_config t bc c now =
    if (is_some bc.per_identity && c.subject == "") || (is_some bc.per_session && c.session == "")
    then (
      t,
      some (
          budget_refusal "budget_unattributable"
            "budget cannot be charged: the call has no identity or session to charge it to"),
    )
    else let checked =
        check_and_record t c.subject c.session (limits_of bc.per_identity)
          (limits_of bc.per_session) now in
      (
        checked.0,
        elim checked.1 [
          | none ↦ none
          | some e ↦ some (budget_refusal "budget_exhausted" ("budget exhausted: " +++ e))
        ],
      )

-- `chargeBudget`
unfoldable pub charge_budget : Gates → Call → Option Rule → Now → Gates × Option Refusal
charge_budget g c rule now = elim g.budgets [
  | none ↦ (g, none)
  | some t ↦ elim (budget_of rule) [
    | none ↦ (g, none)
    | some bc ↦
        (record g { budgets = some (charge_config t bc c now).0 }, (charge_config t bc c now).1)
  ]
]

pub velocity_refusal : Alert → Refusal
velocity_refusal alert = record {
  gate = gate_anomaly;
  reason_class = "velocity_limit";
  reason =
      "velocity "
      +++ decimal alert.calls_per_min
      +++ "/min exceeds threshold "
      +++ decimal alert.threshold;
}

-- `if g.Breaker != nil { g.Breaker.Record(c.Session) }`
unfoldable pub count_session : Gates → Call → ℕ → Gates
count_session g c now = elim g.breaker [
  | none ↦ g
  | some b ↦ record g { breaker = some (breaker_record b c.session now) }
]

-- The end of `Charge`: the refusal, and the warning that does not stop the call.
unfoldable pub charge_velocity : Gates → Call → ℕ → Gates × (Option Refusal × Option Refusal)
charge_velocity g c now = elim g.velocity [
  | none ↦ (g, (none, none))
  | some v ↦ (
    record g { velocity = some (velocity_record v c.subject c.tool now).0 },
    elim (velocity_record v c.subject c.tool now).1 [
      | none ↦ (none, none)
      | some alert ↦
          if alert.action == alert_action_deny
          then (some (velocity_refusal alert), none)
          else (none, some (velocity_refusal alert))
    ],
  )
]

-- `Charge` from the breaker on, given what the budget gate did.
unfoldable pub charge_counted :
    Gates × Option Refusal → Call → Clock → Gates × (Option Refusal × Option Refusal)
charge_counted (g, some r) c clock = (g, (some r, none))
charge_counted (g, none) c clock =
    charge_velocity (count_session g c clock.breaker_at) c clock.velocity_at

-- `Charge` from the budget on, given what the rate gate did.
unfoldable pub charge_rated :
    Gates × Option Refusal → Call → Option Rule → Clock → Gates × (Option Refusal × Option Refusal)
charge_rated (g, some r) c rule clock = (g, (some r, none))
charge_rated (g, none) c rule clock =
    charge_counted (charge_budget g c rule clock.budgets_at) c clock

-- `Charge`
unfoldable pub charge : Gates → Call → Decision → Clock → Gates × (Option Refusal × Option Refusal)
charge g c d clock = charge_rated (charge_rates g c d clock.rates_at) c d.matched_rule clock
