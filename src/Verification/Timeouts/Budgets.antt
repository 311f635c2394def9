-- ===== src/Verification/Timeouts/Budgets.antt =====
-- Bounds of the budget of a tool call.
use discovery_application.Base.{
  ◌≤◌, arith, String, Bool, true, false, ◌+◌, ◌-◌, min, max, if◌then◌else◌,
}
use discovery_application.Verification.Timeouts.{effective_timeout_s, tool_policy}

clamped :
    (heavy light : Bool)
    → (60
        ≤ min
            (if light
              then max 60 ((if heavy then min 90 (75 + 15) else 75) - 15)
              else (if heavy then min 90 (75 + 15) else 75))
            180)
      × (min
            (if light
              then max 60 ((if heavy then min 90 (75 + 15) else 75) - 15)
              else (if heavy then min 90 (75 + 15) else 75))
            180
          ≤ 90)
clamped true true = (omega arith, omega arith)
clamped true false = (omega arith, omega arith)
clamped false true = (omega arith, omega arith)
clamped false false = (omega arith, omega arith)

-- Whatever its name, a tool gets between 60 and 90 seconds for a call.
pub effective_timeout_s_bounds :
    (tool_name : String)
    → (60 ≤ effective_timeout_s (tool_policy tool_name))
      × (effective_timeout_s (tool_policy tool_name) ≤ 90)
unfolding effective_timeout_s tool_policy
effective_timeout_s_bounds tool_name = clamped _ _
