-- ===== src/ResponsePolicy/Fields.antt =====
-- The fields that a decision of packages/domain/services/response_policy.py offers and asks for.
use gis_agent.ResponsePolicy.Within.{
  Within, levels_exhausted, required-filled, all-Within, kept-Within, missing-Within,
  revision-Within, revision_filled, editable-Within, editable_filled,
}
use gis_agent.Prelude.{
  String, Bool, true, false, Option, List, [], is_empty, mem, ◌≡◌, sym, ◌∙◌, and_parts, subst, All,
}
use gis_agent.Prelude.Sublists.{append-All, dedup-All}
use gis_agent.Prelude.Result.{ok}
use gis_agent.Prelude.Dict.{Dict}
use gis_agent.Value.{Value}
use gis_agent.ResponsePolicy.{
  ResponseMode, execute_now, chat_reply, Understanding, Revision, ResponseDecision, Thresholds,
}
use gis_agent.ResponsePolicy.Decide.{
  Reply, low_fields, medium_fields, all_high, level, build_decision, decide_response,
}
use gis_agent.ResponsePolicy.Cases.{
  TaskCase, asks, revises, confirms, forced, executes, unsure, ReplyCase, stops, chats, handles,
  decide-Decided,
}
use gis_agent.ResponsePolicy.Execution.{low_fields-is_empty}
use gis_agent.ResponsePolicy.Flags.{Flags, reply-Flags}

-- Whether the mode asks the user for something.
abbrev pub asks_in : ResponseMode → Bool
asks_in execute_now = false
asks_in chat_reply = false
asks_in _ = true

-- What a decision offers for editing, and asks for, are required fields; it offers one where it asks.
pub record Fields (mode : ResponseMode) (required editable missing : List String) : Type 0 where
  pub editable_required : All (λ field. mem field required ≡ true) editable
  pub missing_required : All (λ field. mem field required ≡ true) missing
  pub asks_for_some : asks_in mode ≡ true → is_empty editable ≡ false

abbrev pub Coherent : Option Revision → ResponseDecision → Type 0
Coherent active d =
    Flags active d.mode d.execution_blocked d.requires_task_creation d.requires_revision_creation
      d.requires_execution
    × Fields d.mode d.required_fields d.editable_fields d.missing_fields

module _ (t : Thresholds) (u : Understanding) (active : Option Revision) (preference risk : String)
    (required : List String) where
  low-Within : Within u active required (low_fields t u required)
  unfolding low_fields
  low-Within =
      dedup-All _ _ []
        (append-All _ _ _ (kept-Within u active required _) (missing-Within u active required))

  medium-Within : Within u active required (medium_fields t u required)
  unfolding medium_fields
  medium-Within = kept-Within u active required _

  task_fields :
      {reply : Reply}
      → is_empty required ≡ false
      → TaskCase t u active preference risk required reply
      → Fields reply.mode required reply.editable reply.missing
  unfolding all_high medium_fields
  task_fields filled (asks some_low) = record {
    editable_required = low-Within;
    missing_required = low-Within;
    asks_for_some = λ h. some_low;
  }
  task_fields filled (revises _ _) = record {
    editable_required = editable-Within u active required;
    missing_required = tt;
    asks_for_some = λ h. editable_filled u active required filled;
  }
  task_fields filled (confirms _ _ some_medium) = record {
    editable_required = medium-Within;
    missing_required = tt;
    asks_for_some = λ h. some_medium;
  }
  task_fields filled (forced _ _ _ _ _) = record {
    editable_required = all-Within u active required;
    missing_required = tt;
    asks_for_some = λ h. filled;
  }
  task_fields filled (executes _ _ _ _ _) = record {
    editable_required = tt;
    missing_required = tt;
    asks_for_some = λ h. cc;
  }
  task_fields filled (unsure no_low no_medium not_all) = record {
    editable_required = kept-Within u active required _;
    missing_required = tt;
    asks_for_some = λ h.
        let (none_low, _) = and_parts _ _ (sym (low_fields-is_empty t u required) ∙ no_low) in
        let all_are = levels_exhausted (level t u) required none_low no_medium in cc;
  }

  pub reply_fields :
      {reply : Reply}
      → is_empty required ≡ false
      → ReplyCase t u active preference risk required reply
      → Fields reply.mode required reply.editable reply.missing
  reply_fields filled (stops r e blocked) = record {
    editable_required = revision-Within u active required r;
    missing_required = revision-Within u active required r;
    asks_for_some = λ h. revision_filled u active required r filled;
  }
  reply_fields filled (chats free talk) = record {
    editable_required = tt;
    missing_required = tt;
    asks_for_some = λ h. cc;
  }
  reply_fields filled (handles free task c) = task_fields filled c

-- A decision executes exactly in the mode "execute_now" and makes a revision exactly in the mode
-- "show_revision", which needs an active revision; it makes a task only where there is no active
-- revision, blocks only a blocked revision, and does none of the three for one. It offers and asks
-- for required fields only, and offers at least one where it asks the user.
pub decide-Coherent :
    (t : Thresholds) (u : Understanding) (active : Option Revision) (require_approval : Bool)
    (preferences risks : Option (Dict Value)) (d : ResponseDecision)
    → decide_response t u active require_approval preferences risks ≡ ok d
    → Coherent active d
decide-Coherent t u active require_approval preferences risks d h =
    let c = decide-Decided t u active require_approval preferences risks d h in
    subst (Coherent active) c.built (
      unfold build_decision in
      (
        reply-Flags t u active _ _ c.required c.case,
        reply_fields t u active _ _ c.required (required-filled u active c.required c.is_required)
            c.case,
      ))
