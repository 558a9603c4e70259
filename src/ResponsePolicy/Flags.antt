-- ===== src/ResponsePolicy/Flags.antt =====
-- The flags of a decision of packages/domain/services/response_policy.py.
use gis_agent.Prelude.{
  String, Bool, true, false, ◌&&◌, ◌||◌, Option, none, some, List, ◌≡◌, refl, sym, ap, ◌∙◌,
  and_parts,
}
use gis_agent.ResponsePolicy.{
  ResponseMode, execute_now, show_revision, Understanding, Revision, Thresholds, is_given,
  requires_creation, has_enough_correction_structure, is_correction,
}
use gis_agent.ResponsePolicy.Decide.{Reply}
use gis_agent.ResponsePolicy.Cases.{
  TaskCase, asks, revises, confirms, forced, executes, unsure, ReplyCase, stops, chats, handles,
  is_blocked,
}

abbrev pub executes_in : ResponseMode → Bool
executes_in execute_now = true
executes_in _ = false

abbrev pub revises_in : ResponseMode → Bool
revises_in show_revision = true
revises_in _ = false

-- The flags follow from the mode and the revision.
pub record Flags (active : Option Revision) (mode : ResponseMode)
    (blocks creates revisions execution : Bool) : Type 0 where
  pub execution_by_mode : execution ≡ executes_in mode
  pub revision_by_mode : revisions ≡ revises_in mode
  pub blocks_revision : blocks ≡ true → is_blocked active ≡ true
  pub creates_first : creates ≡ true → active ≡ none
  pub revises_some : revisions ≡ true → is_given active ≡ true
  pub blocked_rests : is_blocked active ≡ true → (creates || revisions || execution) ≡ false

creation_first :
    (u : Understanding) (active : Option Revision)
    → requires_creation u active ≡ true
    → active ≡ none
unfolding requires_creation
creation_first u none h = refl
creation_first u (some r) h = cc

structure_given :
    (u : Understanding) (active : Option Revision)
    → (is_correction u.intent && has_enough_correction_structure u active) ≡ true
    → is_given active ≡ true
unfolding has_enough_correction_structure
structure_given u none h = let (_, none_there) = and_parts (is_correction u.intent) _ h in cc
structure_given u (some r) h = refl

blocked_none :
    (active : Option Revision)
    → is_blocked active ≡ false
    → is_blocked active ≡ true
    → {A : Type 0} → A
blocked_none active free blocked = cc

plain-Flags :
    (active : Option Revision) (mode : ResponseMode) (creates : Bool)
    → is_blocked active ≡ false
    → executes_in mode ≡ false
    → revises_in mode ≡ false
    → (creates ≡ true → active ≡ none)
    → Flags active mode false creates false false
plain-Flags active mode creates free quiet keeps first = record {
  execution_by_mode = sym quiet;
  revision_by_mode = sym keeps;
  blocks_revision = λ h. cc;
  creates_first = first;
  revises_some = λ h. cc;
  blocked_rests = λ h. cc;
}

module _ (t : Thresholds) (u : Understanding) (active : Option Revision) (preference risk : String)
    (required : List String) where
  task-Flags :
      {reply : Reply}
      → is_blocked active ≡ false
      → TaskCase t u active preference risk required reply
      → Flags active reply.mode reply.is_blocked reply.creates_task reply.creates_revision
          reply.executes
  task-Flags free (asks _) = plain-Flags active _ _ free refl refl (creation_first u active)
  task-Flags free (confirms _ _ _) = plain-Flags active _ _ free refl refl (creation_first u active)
  task-Flags free (forced _ _ _ _ _) =
      plain-Flags active _ _ free refl refl (creation_first u active)
  task-Flags free (unsure _ _ _) = plain-Flags active _ _ free refl refl (creation_first u active)
  task-Flags free (revises _ corrected) = record {
    execution_by_mode = refl;
    revision_by_mode = refl;
    blocks_revision = λ h. cc;
    creates_first = creation_first u active;
    revises_some = λ h. structure_given u active corrected;
    blocked_rests = λ h. cc;
  }
  task-Flags free (executes _ _ _ _ _) = record {
    execution_by_mode = refl;
    revision_by_mode = refl;
    blocks_revision = λ h. cc;
    creates_first = creation_first u active;
    revises_some = λ h. cc;
    blocked_rests = λ h. cc;
  }

  pub reply-Flags :
      {reply : Reply}
      → ReplyCase t u active preference risk required reply
      → Flags active reply.mode reply.is_blocked reply.creates_task reply.creates_revision
          reply.executes
  reply-Flags (stops r e blocked) = record {
    execution_by_mode = refl;
    revision_by_mode = refl;
    blocks_revision = λ h. ap is_blocked e ∙ blocked;
    creates_first = λ h. cc;
    revises_some = λ h. cc;
    blocked_rests = λ h. refl;
  }
  reply-Flags (chats free talk) = plain-Flags active _ _ free refl refl (λ h. cc)
  reply-Flags (handles free task c) = task-Flags free c
