-- ===== src/ResponsePolicy/Preference.antt =====
-- The preference for a confirmation and the risk of a task in
-- packages/domain/services/response_policy.py.
use gis_agent.Prelude.{String, Bool, false, ◌||◌, Option, none, some, [], str_eq, if◌then◌else◌}
use gis_agent.Prelude.Text.{strip, lower, non_empty}
use gis_agent.Prelude.Dict.{Dict, lookup}
use gis_agent.Value.{Value, str, truthy}
use gis_agent.ResponsePolicy.{ParsedSpec, Understanding, Revision, analysis_type}

abbrev pub text_value : Option Value → Option String
text_value (some (str s)) = some s
text_value _ = none

abbrev pub profile_or_empty : Option (Dict Value) → Dict Value
profile_or_empty none = []
profile_or_empty (some d) = d

abbrev pub preference_token : Option String → Option String
preference_token none = none
preference_token (some s) =
    let token = lower (strip s) in
    if str_eq token "always_confirm" || str_eq token "balanced" || str_eq token "prefer_execute"
    then some token
    else none

-- The priority of the profile, or of the specification where the profile has no text.
abbrev pub priority_of : Option String → Option ParsedSpec → Option String
priority_of (some s) spec = some s
priority_of none (some spec) = some spec.user_priority
priority_of none none = none

abbrev pub by_priority : Option String → String
by_priority none = "balanced"
by_priority (some s) =
    let token = lower (strip s) in
    if str_eq token "speed"
    then "prefer_execute"
    else if str_eq token "quality" || str_eq token "careful" || str_eq token "safe"
    then "always_confirm"
    else "balanced"

abbrev pub or_by_priority : Option String → Option String → String
or_by_priority (some token) priority = token
or_by_priority none priority = by_priority priority

-- `_confirmation_preference`
unfoldable pub confirmation_preference : Understanding → Option (Dict Value) → String
unfolding lookup strip lower
confirmation_preference u profile =
    let d = profile_or_empty profile in
    or_by_priority (preference_token (text_value (lookup "confirmation_preference" d)))
      (priority_of (text_value (lookup "user_priority" d)) u.parsed_spec)

abbrev pub blocked : Option Revision → Bool
blocked none = false
blocked (some r) = r.execution_blocked

abbrev pub value_truthy : Option Value → Bool
value_truthy none = false
value_truthy (some v) = truthy v

abbrev pub risk_of_text : Option String → Option String
risk_of_text none = none
risk_of_text (some s) = let text = strip s in if non_empty text then some (lower text) else none

abbrev pub first_risk : Option String → Option String → String → String
first_risk (some risk) other rest = risk
first_risk none (some risk) rest = risk
first_risk none none rest = rest

-- `_task_risk`
unfoldable pub task_risk : Understanding → Option Revision → Option (Dict Value) → String
unfolding lookup strip lower truthy analysis_type
task_risk u active profile =
    let d = profile_or_empty profile in
    let type = analysis_type u active in
    first_risk (risk_of_text (text_value (lookup "task_risk" d)))
      (risk_of_text (text_value (lookup "risk_level" d)))
      (if value_truthy (lookup "execution_blocked" d)
        then "high"
        else if blocked active
        then "high"
        else if str_eq type "WORKFLOW" || str_eq type "BAND_MATH"
        then "medium"
        else "low")

-- `_should_force_confirmation`
unfoldable pub should_force_confirmation : String → String → Bool
should_force_confirmation preference risk =
    str_eq preference "always_confirm" || str_eq risk "high" || str_eq risk "critical"
