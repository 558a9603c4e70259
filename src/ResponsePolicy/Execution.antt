-- ===== src/ResponsePolicy/Execution.antt =====
-- When `decide_response` of packages/domain/services/response_policy.py executes a task at once.
use gis_agent.Prelude.{
  String, Bool, true, false, ◌&&◌, Option, List, [], ◌∷◌, ◌++◌, keep, all, is_empty, dedup_from,
  leb, mem, ◌≡◌, ◌↔◌, refl, sym, ◌∙◌, and_parts, subst, if◌then◌else◌, All,
}
use gis_agent.Prelude.Result.{ok}
use gis_agent.Prelude.Dict.{Dict, lookup}
use gis_agent.Value.{Value}
use gis_agent.ResponsePolicy.{
  Understanding, Revision, ResponseDecision, Thresholds, Level, low, medium, high, is_low,
  is_medium, is_high, field_level, score_or_zero, parser_missing_fields, is_chat, is_correction,
  has_enough_correction_structure,
}
use gis_agent.ResponsePolicy.Decide.{
  Reply, low_fields, medium_fields, all_high, level, build_decision, decide_response,
}
use gis_agent.ResponsePolicy.Preference.{should_force_confirmation}
use gis_agent.ResponsePolicy.Cases.{
  TaskCase, asks, revises, confirms, forced, executes, unsure, ReplyCase, stops, chats, handles,
  is_blocked, corrects, decide-Decided,
}

-- The conditions of an execution, by the scores of the fields and not by their levels.
pub record MayExecute (t : Thresholds) (u : Understanding) (active : Option Revision)
    (d : ResponseDecision) : Type 0 where
  pub not_blocked : is_blocked active ≡ false
  pub not_chat : is_chat u.intent ≡ false
  pub scores_high :
      All
        (λ field. leb t.high (score_or_zero (lookup field u.field_scores)) ≡ true)
        d.required_fields
  pub nothing_missing : is_empty (parser_missing_fields u d.required_fields) ≡ true
  pub no_correction : (is_correction u.intent && has_enough_correction_structure u active) ≡ false
  pub not_forced : should_force_confirmation d.confirmation_preference d.task_risk ≡ false

is_low-high : (l : Level) → is_high l ≡ true → is_low l ≡ false
is_low-high low h = cc
is_low-high medium h = cc
is_low-high high h = refl

is_medium-high : (l : Level) → is_high l ≡ true → is_medium l ≡ false
is_medium-high low h = cc
is_medium-high medium h = cc
is_medium-high high h = refl

pub keep-none :
    (p q : String → Bool)
    → ((x : String) → p x ≡ true → q x ≡ false)
    → (xs : List String) → all p xs ≡ true
    → is_empty (keep q xs) ≡ true
keep-none p q apart [] h = refl
keep-none p q apart (x ∷ xs) h =
    let (first, rest) = and_parts _ _ h in rw (apart x first) (keep-none p q apart xs rest)

pub all-All : (p : String → Bool) (xs : List String) → all p xs ≡ true → All (λ x. p x ≡ true) xs
all-All p [] h = tt
all-All p (x ∷ xs) h = let (first, rest) = and_parts _ _ h in (first, all-All p xs rest)

pub All-all : (p : String → Bool) (xs : List String) → All (λ x. p x ≡ true) xs → all p xs ≡ true
All-all p [] h = refl
All-all p (x ∷ xs) h = rw h.0 (All-all p xs h.1)

dedup-is_empty : (seen xs : List String) → is_empty (dedup_from [] xs) ≡ is_empty xs
unfolding dedup_from mem
dedup-is_empty seen [] = refl
dedup-is_empty seen (x ∷ xs) = refl

is_empty-append : (xs ys : List String) → is_empty (xs ++ ys) ≡ (is_empty xs && is_empty ys)
is_empty-append [] ys = refl
is_empty-append (x ∷ xs) ys = refl

module _ (t : Thresholds) (u : Understanding) where
  pub low_fields-is_empty :
      (required : List String)
      → is_empty (low_fields t u required) ≡ (
          is_empty (keep (λ field. is_low (level t u field)) required)
          && is_empty (parser_missing_fields u required))
  unfolding low_fields
  low_fields-is_empty required =
      dedup-is_empty []
        (keep (λ field. is_low (level t u field)) required ++ parser_missing_fields u required)
      ∙ is_empty-append _ (parser_missing_fields u required)

  is_high-level :
      (field : String)
      → is_high (level t u field) ≡ leb t.high (score_or_zero (lookup field u.field_scores))
  unfolding field_level
  is_high-level field = of_tests (leb t.high (score_or_zero (lookup field u.field_scores))) _
    where
      of_tests : (a b : Bool) → is_high (if a then high else if b then medium else low) ≡ a
      of_tests true b = refl
      of_tests false true = refl
      of_tests false false = refl

  levels_of_scores :
      (xs : List String)
      → All (λ field. leb t.high (score_or_zero (lookup field u.field_scores)) ≡ true) xs
      → All (λ field. is_high (level t u field) ≡ true) xs
  levels_of_scores [] h = tt
  levels_of_scores (x ∷ xs) h = (is_high-level x ∙ h.0, levels_of_scores xs h.1)

  scores_of_levels :
      (xs : List String)
      → All (λ field. is_high (level t u field) ≡ true) xs
      → All (λ field. leb t.high (score_or_zero (lookup field u.field_scores)) ≡ true) xs
  scores_of_levels [] h = tt
  scores_of_levels (x ∷ xs) h = (sym (is_high-level x) ∙ h.0, scores_of_levels xs h.1)

executes_case :
    (t : Thresholds) (u : Understanding) (active : Option Revision) (preference risk : String)
    (required : List String) {reply : _}
    → TaskCase t u active preference risk required reply
    → reply.executes ≡ true
    → (is_empty (low_fields t u required) ≡ true)
      × (corrects t u active preference risk required ≡ false)
      × (all_high t u required ≡ true)
      × (should_force_confirmation preference risk ≡ false)
executes_case t u active preference risk required (executes no_low new no_medium all_are free) h =
    (no_low, new, all_are, free)
executes_case t u active preference risk required (asks _) h = cc
executes_case t u active preference risk required (revises _ _) h = cc
executes_case t u active preference risk required (confirms _ _ _) h = cc
executes_case t u active preference risk required (forced _ _ _ _ _) h = cc
executes_case t u active preference risk required (unsure _ _ _) h = cc

-- Where a task case does not execute, one of the conditions fails.
case_executes :
    (t : Thresholds) (u : Understanding) (active : Option Revision) (preference risk : String)
    (required : List String) {reply : _}
    → TaskCase t u active preference risk required reply
    → is_empty (low_fields t u required) ≡ true
    → corrects t u active preference risk required ≡ false
    → is_empty (medium_fields t u required) ≡ true
    → all_high t u required ≡ true
    → should_force_confirmation preference risk ≡ false
    → reply.executes ≡ true
case_executes t u active preference risk required (executes _ _ _ _ _) l n m a f = refl
case_executes t u active preference risk required (asks x) l n m a f = cc
case_executes t u active preference risk required (revises _ x) l n m a f = cc
case_executes t u active preference risk required (confirms _ _ x) l n m a f = cc
case_executes t u active preference risk required (forced _ _ _ _ x) l n m a f = cc
case_executes t u active preference risk required (unsure _ _ x) l n m a f = cc

module _ (t : Thresholds) (u : Understanding) (active : Option Revision) (preference risk : String)
    (required : List String) where
  reply-MayExecute :
      {reply : Reply} (d : ResponseDecision)
      → ReplyCase t u active preference risk required reply
      → d.required_fields ≡ required
      → d.confirmation_preference ≡ preference
      → d.task_risk ≡ risk
      → reply.executes ≡ true
      → MayExecute t u active d
  unfolding all_high
  reply-MayExecute d (stops r e blocked) er ep ek h = cc
  reply-MayExecute d (chats free talk) er ep ek h = cc
  reply-MayExecute d (handles free task c) er ep ek h =
      let (no_low, new, all_are, not_forced) =
        executes_case t u active preference risk required c h in
      let (_, none_missing) = and_parts _ _ (sym (low_fields-is_empty t u required) ∙ no_low) in
      record {
        not_blocked = free;
        not_chat = task;
        scores_high = rw er (scores_of_levels t u required (all-All _ required all_are));
        nothing_missing = rw er none_missing;
        no_correction = new;
        not_forced = rw (ep, ek) not_forced;
      }

  MayExecute-reply :
      {reply : Reply} (d : ResponseDecision)
      → ReplyCase t u active preference risk required reply
      → d.required_fields ≡ required
      → d.confirmation_preference ≡ preference
      → d.task_risk ≡ risk
      → MayExecute t u active d
      → reply.executes ≡ true
  unfolding all_high medium_fields
  MayExecute-reply d (stops r e blocked) er ep ek m =
      let stopped : is_blocked active ≡ true = rw e blocked in let free = m.not_blocked in cc
  MayExecute-reply d (chats free talk) er ep ek m = let task = m.not_chat in cc
  MayExecute-reply d (handles free task c) er ep ek m =
      let all_are =
        All-all (λ field. is_high (level t u field)) required
          (levels_of_scores t u required (rw er at m.scores_high)) in
      let none_missing : is_empty (parser_missing_fields u required) ≡ true =
        rw er at m.nothing_missing in
      let none_low = keep-none _ _ (λ x. is_low-high (level t u x)) required all_are in
      case_executes t u active preference risk required c
        (low_fields-is_empty t u required ∙ rw (none_low, none_missing) refl) m.no_correction
        (keep-none _ _ (λ x. is_medium-high (level t u x)) required all_are) all_are
        (rw (ep, ek) at m.not_forced)

-- A decision executes the task exactly when no revision is blocked, the message is no chat, every
-- required field has a score of at least the high threshold, the parser misses none of them, it is no
-- correction with structure, and neither the preference nor the risk asks for a confirmation. The risk
-- asks for one only where it is high or critical: a medium risk alone does not.
pub executes_exactly :
    (t : Thresholds) (u : Understanding) (active : Option Revision) (require_approval : Bool)
    (preferences risks : Option (Dict Value)) (d : ResponseDecision)
    → decide_response t u active require_approval preferences risks ≡ ok d
    → (d.requires_execution ≡ true) ↔ MayExecute t u active d
executes_exactly t u active require_approval preferences risks d h =
    let c = decide-Decided t u active require_approval preferences risks d h in
    subst (λ x. (x.requires_execution ≡ true) ↔ MayExecute t u active x) c.built
      (unfold build_decision in
        (
          reply-MayExecute t u active _ _ c.required _ c.case refl refl refl,
          MayExecute-reply t u active _ _ c.required _ c.case refl refl refl,
        ))
