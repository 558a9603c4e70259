-- ===== src/ResponsePolicy/Decide.antt =====
-- `decide_response` of packages/domain/services/response_policy.py, with its messages.
use gis_agent.ResponsePolicy.Preference.{
  confirmation_preference, task_risk, should_force_confirmation,
}
use gis_agent.Prelude.{
  String, Bool, true, false, not, ◌&&◌, Option, none, some, List, [], ◌∷◌, ◌++◌, keep, all,
  is_empty, dedup, dedup_from, if◌then◌else◌,
}
use gis_agent.Prelude.Text.{non_empty, append_text}
use gis_agent.Prelude.Result.{Result, ok, ◌>>=◌}
use gis_agent.Prelude.Dict.{Dict}
use gis_agent.Value.{Value}
use gis_agent.Analysis.{UnknownAnalysisType}
use gis_agent.ResponsePolicy.{
  ResponseMode, execute_now, confirm_understanding, ask_missing_fields, show_revision, chat_reply,
  Understanding, Revision, RevisionPayload, ResponseDecision, Thresholds, Level, field_level,
  is_low, is_medium, is_high, required_fields, parser_missing_fields, editable_fields_from_revision,
  editable_fields_for_revision, has_enough_correction_structure, is_chat, is_correction,
  requires_creation,
}

abbrev pub text_or_empty : Option String → String
text_or_empty none = ""
text_or_empty (some s) = s

-- `_blocked_assistant_message`
unfoldable pub blocked_assistant_message : Option String → String
blocked_assistant_message reason =
    let given = text_or_empty reason in
    if non_empty given
    then append_text "当前版本已被阻止执行：" (append_text given "。请先修正可编辑字段。")
    else "当前版本已被阻止执行。请先修正可编辑字段。"

-- `"、".join(fields)`
abbrev pub joined : List String → String
joined [] = ""
joined (field ∷ []) = field
joined (field ∷ fields) = append_text field (append_text "、" (joined fields))

-- `_missing_fields_assistant_message`
unfoldable pub missing_fields_assistant_message : List String → String
missing_fields_assistant_message fields =
    append_text "我还缺少这些关键信息：" (append_text (joined fields) "。你可以直接补充。")

-- `_show_revision_assistant_message`
unfoldable pub show_revision_assistant_message : Understanding → String
show_revision_assistant_message u =
    append_text "这是我当前的理解：" (append_text u.understanding_summary "。你可以直接修改。")

-- `_confirm_understanding_assistant_message`
unfoldable pub confirm_understanding_assistant_message : Understanding → String
confirm_understanding_assistant_message u =
    append_text "我理解的是：" (append_text u.understanding_summary "。如果没问题，我就继续。")

abbrev pub revision_payload : Option Revision → Option RevisionPayload
revision_payload none = none
revision_payload (some r) = some (record {
  revision_number = r.revision_number;
  revision_change_type = r.change_type;
  active_revision_summary = r.understanding_summary;
  active_response_mode = r.response_mode;
})

-- The arguments of `_build_decision` that differ between its calls.
pub record Reply : Type 0 where
  pub mode : ResponseMode
  pub message : String
  pub editable : List String
  pub missing : List String
  pub is_blocked : Bool
  pub reason : Option String
  pub creates_task : Bool
  pub creates_revision : Bool
  pub executes : Bool

-- `_build_decision`
unfoldable pub build_decision :
    Reply → Option Revision → Bool → String → String → List String → ResponseDecision
build_decision reply active require_approval risk preference required = record {
  mode = reply.mode;
  assistant_message = reply.message;
  editable_fields = reply.editable;
  missing_fields = reply.missing;
  require_approval = require_approval;
  execution_blocked = reply.is_blocked;
  blocked_reason = reply.reason;
  requires_task_creation = reply.creates_task;
  requires_revision_creation = reply.creates_revision;
  requires_execution = reply.executes;
  task_risk = risk;
  confirmation_preference = preference;
  required_fields = required;
  revision = revision_payload active;
}

-- A reply that blocks nothing, revises nothing and executes nothing.
abbrev pub plain_reply : ResponseMode → String → List String → List String → Bool → Reply
plain_reply mode message editable missing creates = record {
  mode = mode;
  message = message;
  editable = editable;
  missing = missing;
  is_blocked = false;
  reason = none;
  creates_task = creates;
  creates_revision = false;
  executes = false;
}

module _ (t : Thresholds) (u : Understanding) where
  abbrev pub level : String → Level
  level field = field_level t u.field_scores field

  unfoldable pub low_fields : List String → List String
  unfolding field_level parser_missing_fields dedup_from
  low_fields required =
      dedup (keep (λ field. is_low (level field)) required ++ parser_missing_fields u required)

  unfoldable pub medium_fields : List String → List String
  unfolding field_level
  medium_fields required = keep (λ field. is_medium (level field)) required

  unfoldable pub all_high : List String → Bool
  unfolding field_level
  all_high required = all (λ field. is_high (level field)) required

  abbrev pub ask_reply : List String → Bool → Reply
  ask_reply fields creates =
      plain_reply ask_missing_fields (missing_fields_assistant_message fields) fields fields creates

  abbrev pub revision_reply : List String → Bool → Reply
  revision_reply editable creates =
      record (plain_reply show_revision (show_revision_assistant_message u) editable [] creates) {
        creates_revision = true;
      }

  abbrev pub confirm_reply : List String → Bool → Reply
  confirm_reply editable creates =
      plain_reply confirm_understanding (confirm_understanding_assistant_message u) editable []
        creates

  abbrev pub execute_reply : Bool → Reply
  execute_reply creates = record (plain_reply execute_now "关键信息齐了，我会直接开始执行。" [] [] creates) {
    executes = true;
  }

  abbrev pub blocked_reply : Revision → List String → Reply
  blocked_reply r required =
      let editable = editable_fields_from_revision r required in
      record (plain_reply ask_missing_fields (blocked_assistant_message r.execution_blocked_reason)
        editable editable false) { is_blocked = true; reason = r.execution_blocked_reason }

  -- The part of `decide_response` behind the test for chat.
  unfoldable pub task_reply : Option Revision → String → String → List String → Reply
  unfolding low_fields medium_fields all_high has_enough_correction_structure
      editable_fields_for_revision requires_creation should_force_confirmation
  task_reply active preference risk required =
      let creates = requires_creation u active in
      if not (is_empty (low_fields required))
      then ask_reply (low_fields required) creates
      else if is_correction u.intent && has_enough_correction_structure u active
      then revision_reply (editable_fields_for_revision u active required) creates
      else if not (is_empty (medium_fields required))
      then confirm_reply (medium_fields required) creates
      else if all_high required && should_force_confirmation preference risk
      then confirm_reply required creates
      else if all_high required
      then execute_reply creates
      else confirm_reply (keep (λ field. not (is_low (level field))) required) creates

  unfoldable pub chat_or_task : Option Revision → String → String → List String → Reply
  unfolding task_reply
  chat_or_task active preference risk required =
      if is_chat u.intent
      then plain_reply chat_reply "当然，我们可以继续聊这个。" [] [] false
      else task_reply active preference risk required

  -- `decide_response` up to its calls of `_build_decision`.
  unfoldable pub choose_reply : Option Revision → String → String → List String → Reply
  unfolding chat_or_task blocked_assistant_message editable_fields_from_revision
  choose_reply none preference risk required = chat_or_task none preference risk required
  choose_reply (some r) preference risk required =
      if r.execution_blocked
      then blocked_reply r required
      else chat_or_task (some r) preference risk required

  -- `decide_response`
  unfoldable pub decide_response :
      Option Revision
      → Bool
      → Option (Dict Value)
      → Option (Dict Value)
      → Result UnknownAnalysisType ResponseDecision
  unfolding required_fields choose_reply build_decision confirmation_preference task_risk
  decide_response active require_approval preferences risks = do
    required ← required_fields u active
    let preference = confirmation_preference u preferences
    let risk = task_risk u active risks
    ok (
        build_decision (choose_reply active preference risk required) active require_approval risk
          preference required)
