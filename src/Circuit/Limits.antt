-- ===== src/Circuit/Limits.antt =====
-- pkg/circuit/limits.go: which of the policy's and the environment's limits is in force.
use nullfield.Prelude.{◌≡◌, ◌↔◌, ◌⊎◌, Bool, true, false, ◌||◌, arith, if◌then◌else◌, ℤ, is_positive}

-- `ResolveLimits`
pub resolve_limits : ℤ → ℤ → ℤ → ℤ → ℤ × ℤ × Bool
resolve_limits policy_calls policy_duration env_calls env_duration = (
  if is_positive policy_calls then policy_calls else env_calls,
  if is_positive policy_duration then policy_duration else env_duration,
  is_positive policy_calls || is_positive policy_duration,
)

-- Each limit is the policy's where the policy declares a positive one and the environment's where
-- it does not, and the source is reported as the policy exactly when it contributed either limit.
pub resolve_limits_lem :
    (pc pd ec ed : ℤ)
    → let r = resolve_limits pc pd ec ed in
      (((is_positive pc ≡ true) × (r.0 ≡ pc)) ⊎ ((is_positive pc ≡ false) × (r.0 ≡ ec)))
      × (((is_positive pd ≡ true) × (r.1 ≡ pd)) ⊎ ((is_positive pd ≡ false) × (r.1 ≡ ed)))
      × ((r.2 ≡ true) ↔ ((is_positive pc ≡ true) ⊎ (is_positive pd ≡ true)))
unfolding resolve_limits
resolve_limits_lem pc pd ec ed = (ground arith, ground arith, ground arith)
