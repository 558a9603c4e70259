-- ===== src/ResponsePolicy/Cases.antt =====
-- The cases of `decide_response` in packages/domain/services/response_policy.py, with what holds in
-- each.
use gis_agent.Prelude.{
  String, Bool, true, false, not, ◌&&◌, Option, none, some, List, [], keep, is_empty, ◌≡◌, refl, ap,
  ◌∙◌, Bool-cases, inl, inr, subst, if◌then◌else◌,
}
use gis_agent.Prelude.Result.{ok, bind-ok}
use gis_agent.Prelude.Dict.{Dict}
use gis_agent.Value.{Value}
use gis_agent.ResponsePolicy.{
  Understanding, Revision, ResponseDecision, Thresholds, is_low, chat_reply, required_fields,
  editable_fields_for_revision, has_enough_correction_structure, is_chat, is_correction,
  requires_creation,
}
use gis_agent.ResponsePolicy.Decide.{
  Reply, plain_reply, ask_reply, revision_reply, confirm_reply, execute_reply, blocked_reply,
  task_reply, chat_or_task, choose_reply, low_fields, medium_fields, all_high, level,
  build_decision, decide_response,
}
use gis_agent.ResponsePolicy.Preference.{
  should_force_confirmation, confirmation_preference, task_risk,
}

module _ (t : Thresholds) (u : Understanding) (active : Option Revision) (preference risk : String)
    (required : List String) where
  abbrev pub corrects : Bool
  corrects = is_correction u.intent && has_enough_correction_structure u active

  abbrev pub creates : Bool
  creates = requires_creation u active

  pub data TaskCase : Reply → Type 0 where
    asks :
        is_empty (low_fields t u required) ≡ false
        → TaskCase (ask_reply t u (low_fields t u required) creates)
    revises :
        is_empty (low_fields t u required) ≡ true
        → corrects ≡ true
        → TaskCase (revision_reply t u (editable_fields_for_revision u active required) creates)
    confirms :
        is_empty (low_fields t u required) ≡ true
        → corrects ≡ false
        → is_empty (medium_fields t u required) ≡ false
        → TaskCase (confirm_reply t u (medium_fields t u required) creates)
    forced :
        is_empty (low_fields t u required) ≡ true
        → corrects ≡ false
        → is_empty (medium_fields t u required) ≡ true
        → all_high t u required ≡ true
        → should_force_confirmation preference risk ≡ true
        → TaskCase (confirm_reply t u required creates)
    executes :
        is_empty (low_fields t u required) ≡ true
        → corrects ≡ false
        → is_empty (medium_fields t u required) ≡ true
        → all_high t u required ≡ true
        → should_force_confirmation preference risk ≡ false
        → TaskCase (execute_reply t u creates)
    unsure :
        is_empty (low_fields t u required) ≡ true
        → is_empty (medium_fields t u required) ≡ true
        → all_high t u required ≡ false
        → TaskCase
            (confirm_reply t u (keep (λ field. not (is_low (level t u field))) required) creates)

  pub task_case : TaskCase (task_reply t u active preference risk required)
  unfolding task_reply
  task_case = elim (Bool-cases (is_empty (low_fields t u required))) [
    | inr some_low ↦ rw some_low (asks some_low)
    | inl no_low ↦ elim (Bool-cases corrects) [
      | inl correction ↦ rw (no_low, correction) (revises no_low correction)
      | inr new ↦ elim (Bool-cases (is_empty (medium_fields t u required))) [
        | inr some_medium ↦ rw (no_low, new, some_medium) (confirms no_low new some_medium)
        | inl no_medium ↦ elim (Bool-cases (all_high t u required)) [
          | inr not_all ↦ rw (no_low, new, no_medium, not_all) (unsure no_low no_medium not_all)
          | inl all_are ↦ elim (Bool-cases (should_force_confirmation preference risk)) [
            | inl force ↦
                rw (no_low, new, no_medium, all_are, force)
                  (forced no_low new no_medium all_are force)
            | inr free ↦
                rw (no_low, new, no_medium, all_are, free)
                  (executes no_low new no_medium all_are free)
          ]
        ]
      ]
    ]
  ]

abbrev pub is_blocked : Option Revision → Bool
is_blocked none = false
is_blocked (some r) = r.execution_blocked

module _ (t : Thresholds) (u : Understanding) (active : Option Revision) (preference risk : String)
    (required : List String) where
  pub data ReplyCase : Reply → Type 0 where
    stops :
        (r : Revision)
        → active ≡ some r
        → r.execution_blocked ≡ true
        → ReplyCase (blocked_reply t u r required)
    chats :
        is_blocked active ≡ false
        → is_chat u.intent ≡ true
        → ReplyCase (plain_reply chat_reply "当然，我们可以继续聊这个。" [] [] false)
    handles :
        {reply : Reply}
        → is_blocked active ≡ false
        → is_chat u.intent ≡ false
        → TaskCase t u active preference risk required reply
        → ReplyCase reply

  unblocked_case :
      is_blocked active ≡ false → ReplyCase (chat_or_task t u active preference risk required)
  unfolding chat_or_task
  unblocked_case free = from (is_chat u.intent) refl
    where
      from :
          (b : Bool)
          → is_chat u.intent ≡ b
          → ReplyCase (
              if b
              then plain_reply chat_reply "当然，我们可以继续聊这个。" [] [] false
              else task_reply t u active preference risk required)
      from true talk = chats free talk
      from false task = handles free task (task_case t u active preference risk required)

  pub reply_case : ReplyCase (choose_reply t u active preference risk required)
  unfolding choose_reply
  reply_case = from active refl
    where
      from :
          (o : Option Revision)
          → active ≡ o
          → ReplyCase (choose_reply t u o preference risk required)
      from none e =
          subst (λ a. ReplyCase (chat_or_task t u a preference risk required)) e
            (unblocked_case (ap is_blocked e))
      from (some r) e = elim (Bool-cases r.execution_blocked) [
        | inl blocked ↦ rw blocked (stops r e blocked)
        | inr free ↦ rw free (
            subst (λ a. ReplyCase (chat_or_task t u a preference risk required)) e
              (unblocked_case (ap is_blocked e ∙ free)))
      ]

-- A decision, by its required fields and the case of its reply.
pub record Decided (t : Thresholds) (u : Understanding) (active : Option Revision)
    (preferences risks : Option (Dict Value)) (d : ResponseDecision) : Type 0 where
  pub required : List String
  pub is_required : required_fields u active ≡ ok required
  pub reply : Reply
  pub case :
      ReplyCase t u active
        (confirmation_preference u preferences)
        (task_risk u active risks)
        required
        reply
  pub require_approval : Bool
  pub built :
      build_decision reply active require_approval
        (task_risk u active risks)
        (confirmation_preference u preferences)
        required
      ≡ d

pub decide-Decided :
    (t : Thresholds) (u : Understanding) (active : Option Revision) (require_approval : Bool)
    (preferences risks : Option (Dict Value)) (d : ResponseDecision)
    → decide_response t u active require_approval preferences risks ≡ ok d
    → Decided t u active preferences risks d
unfolding decide_response
decide-Decided t u active require_approval preferences risks d h =
    let (required, h1, found) = bind-ok (required_fields u active) _ h in
    record {
      required = required;
      is_required = found;
      reply =
          choose_reply t u active (confirmation_preference u preferences) (task_risk u active risks)
            required;
      case = reply_case t u active _ _ required;
      require_approval = require_approval;
      built = cc;
    }
