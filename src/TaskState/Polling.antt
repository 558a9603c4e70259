-- ===== src/TaskState/Polling.antt =====
-- `list_task_events` of packages/domain/services/task_events.py for a reader that asks again from the
-- last event it has seen.
use gis_agent.Prelude.{
  ℕ, suc, ◌≤◌, String, Bool, true, false, ◌&&◌, Option, some, List, [], ◌∷◌, ◌++◌, str_eq, keep,
  ltb, ltb→lt, lt→ltb, Bool-cases, inl, inr, All, ◌≡◌, refl, sym, ap, ◌∙◌, arith, eq_iff,
}
use mathlib.Core.List.{append_assoc, append-nil}
use gis_agent.Value.{Fields}
use gis_agent.Task.{TaskEvent, Store}
use gis_agent.TaskState.{append_task_event, list_task_events}

-- What one call of `append_task_event` is given.
pub record Entry : Type 0 where
  pub type : String
  pub step : Option String
  pub status : Option String
  pub detail : Option Fields

abbrev pub append_all : Store → List Entry → Store
append_all s [] = s
append_all s (e ∷ es) = append_all (append_task_event s e.type e.step e.status e.detail) es

abbrev pub event_of : String → ℕ → Entry → TaskEvent
event_of task_id n e = record {
  event_id = n;
  task_id = task_id;
  event_type = e.type;
  step_name = e.step;
  status = e.status;
  detail = e.detail;
}

-- The events of the entries, numbered from the counter on.
abbrev pub numbered : String → ℕ → List Entry → List TaskEvent
numbered task_id n [] = []
numbered task_id n (e ∷ es) = event_of task_id (suc n) e ∷ numbered task_id (suc n) es

-- The ids of the log are at most the counter.
abbrev pub IsNumbered : Store → Type 0
IsNumbered s = All (λ e. e.event_id ≤ s.last_event_id) s.events

abbrev pub is_after : String → ℕ → TaskEvent → Bool
is_after task_id since e = str_eq e.task_id task_id && ltb since e.event_id

append_all-events :
    (s : Store) (es : List Entry)
    → (append_all s es).events ≡ s.events ++ numbered s.task.id s.last_event_id es
unfolding append_task_event
append_all-events s [] = sym (append-nil s.events)
append_all-events s (e ∷ es) =
    append_all-events (append_task_event s e.type e.step e.status e.detail) es
    ∙ append_assoc s.events _ _

append_all-task : (s : Store) (es : List Entry) → (append_all s es).task ≡ s.task
unfolding append_task_event
append_all-task s [] = refl
append_all-task s (e ∷ es) =
    append_all-task (append_task_event s e.type e.step e.status e.detail) es

keep-append :
    (p : TaskEvent → Bool) (xs ys : List TaskEvent) → keep p (xs ++ ys) ≡ keep p xs ++ keep p ys
keep-append p [] ys = refl
keep-append p (x ∷ xs) ys = elim (Bool-cases (p x)) [
  | inl passes ↦ rw passes (ap (λ l. x ∷ l) (keep-append p xs ys))
  | inr fails ↦ rw fails (keep-append p xs ys)
]

-- The new events all come after an id that the counter has passed.
keep-numbered :
    (task_id : String) (since n : ℕ) (es : List Entry)
    → since ≤ n
    → keep (is_after task_id since) (numbered task_id n es) ≡ numbered task_id n es
keep-numbered task_id since n [] h = refl
keep-numbered task_id since n (e ∷ es) h =
    let rest = keep-numbered task_id since (suc n) es (omega arith) in
    let after : (str_eq task_id task_id && ltb since (suc n)) ≡ true =
      ground (arith, (eq_iff task_id task_id).1 refl, lt→ltb since (suc n) (omega arith)) in
    rw after (ap (λ l. event_of task_id (suc n) e ∷ l) rest)

keep-old :
    (task_id : String) (n : ℕ) (events : List TaskEvent)
    → All (λ e. e.event_id ≤ n) events
    → keep (is_after task_id n) events ≡ []
keep-old task_id n [] old = refl
keep-old task_id n (e ∷ events) old =
    let before : is_after task_id n e ≡ false = ground (arith, old.0, ltb→lt n e.event_id) in
    rw before (keep-old task_id n events old.1)

list-append_all :
    (s : Store) (es : List Entry) (since : ℕ)
    → since ≤ s.last_event_id
    → list_task_events (append_all s es) s.task.id since
      ≡ some (keep (is_after s.task.id since) s.events ++ numbered s.task.id s.last_event_id es)
unfolding list_task_events
list-append_all s es since h =
    let same_id : str_eq (append_all s es).task.id s.task.id ≡ true =
      (eq_iff (append_all s es).task.id s.task.id).1 (ap (λ t. t.id) (append_all-task s es)) in
    rw same_id (
      ap some (
        ap (keep (is_after s.task.id since)) (append_all-events s es)
        ∙ keep-append (is_after s.task.id since) s.events _
        ∙ ap (λ l. keep (is_after s.task.id since) s.events ++ l)
            (keep-numbered s.task.id since s.last_event_id es h)))

-- A reader misses no event and sees none twice: the events after the counter of the moment of one
-- reading are, at a later reading, those appended since then, in their order, and a reader that asks
-- from an earlier id gets these behind what it would have got before.
pub polling_complete :
    (s : Store) (es : List Entry) (since : ℕ)
    → IsNumbered s
    → since ≤ s.last_event_id
    → (list_task_events (append_all s es) s.task.id s.last_event_id
        ≡ some (numbered s.task.id s.last_event_id es))
      × ((before : List TaskEvent) × (list_task_events s s.task.id since ≡ some before)
          × (list_task_events (append_all s es) s.task.id since
              ≡ some (before ++ numbered s.task.id s.last_event_id es)))
polling_complete s es since old h = (
  list-append_all s es s.last_event_id (omega arith)
      ∙ ap (λ l. some (l ++ numbered s.task.id s.last_event_id es))
          (keep-old s.task.id s.last_event_id s.events old),
  (
    keep (is_after s.task.id since) s.events,
    list-append_all s [] since h ∙ ap some (append-nil _),
    list-append_all s es since h,
  ),
)
