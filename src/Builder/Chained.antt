-- ===== src/Builder/Chained.antt =====
-- The loop of `_build_operation_nodes` of packages/domain/services/operation_plan_builder.py: its
-- step ids and its dependencies.

use gis_agent.Prelude.{
  ℕ, String, Bool, true, false, not, ◌&&◌, some, List, [], ◌∷◌, ◌++◌, mem, is_empty, str_eq,
  if◌then◌else◌, All, ◌≡◌, refl, ap, inl, inr, Bool-cases, Option-cases, subst,
}
use gis_agent.Prelude.Sublists.{All-map, All-append, dedup-All}
use gis_agent.Prelude.Text.{non_empty}
use gis_agent.Prelude.Dict.{Dict, lookup, insert}
use gis_agent.Plan.{OperationNode, step_ids}
use gis_agent.PlanGuard.Graph.Sets.{mem-cons_self, mem-cons_of_mem}
use gis_agent.Builder.Decimal.{read_on, read_on-decimal}
use gis_agent.Builder.Nodes.{
  step_id_of, Building, producers_of, pick_refs_for_input_type, wire_inputs, wire_outputs,
  last_step, settle_dependencies,
}

drop_five : String → String
drop_five (String.◌∷◌ a (String.◌∷◌ b (String.◌∷◌ c (String.◌∷◌ d (String.◌∷◌ e s))))) = s
drop_five s = s

-- The number in a step id.
pub index_of : String → ℕ
unfolding read_on
index_of id = read_on 0 (drop_five id)

pub index_of-step_id_of : (n : ℕ) (name : String) → index_of (step_id_of n name) ≡ n
unfolding index_of step_id_of drop_five
index_of-step_id_of n name = read_on-decimal n name

pub step_ids-append :
    (xs ys : List OperationNode) → step_ids (xs ++ ys) ≡ step_ids xs ++ step_ids ys
step_ids-append [] ys = refl
step_ids-append (x ∷ xs) ys = ap (λ (l : List String). x.step_id ∷ l) (step_ids-append xs ys)

-- The nodes stand behind their dependencies, the latest first.
abbrev pub IsBehind : List OperationNode → Type 0
IsBehind [] = Unit
IsBehind (n ∷ ns) = All (λ d. mem d (step_ids ns) ≡ true) n.depends_on × IsBehind ns

abbrev pub Among : List String → String → Type 0
Among ids s = mem s ids ≡ true

pub lookup-Among :
    (ids : List String) (d : Dict String) (k s : String)
    → All (λ e. Among ids e.1) d
    → lookup k d ≡ some s
    → Among ids s
unfolding lookup
lookup-Among ids [] k s h found = cc
lookup-Among ids ((j, v) ∷ d) k s h found = elim (Bool-cases (str_eq j k)) [
  | inl here ↦
      let same : some v ≡ some s = rw here at found in
      let same_text : v ≡ s = cc in subst (Among ids) same_text h.0
  | inr there ↦ lookup-Among ids d k s h.1 (rw there at found)
]

insert-Among :
    (ids : List String) (d : Dict String) (k s : String)
    → All (λ e. Among ids e.1) d
    → Among ids s
    → All (λ e. Among ids e.1) (insert k s d)
unfolding insert
insert-Among ids [] k s h new = (new, tt)
insert-Among ids ((j, v) ∷ d) k s h new = elim (Bool-cases (str_eq j k)) [
  | inl here ↦ rw here (new, h.1)
  | inr there ↦ rw there (h.0, insert-Among ids d k s h.1 new)
]

module _ (ids : List String) where
  producers-Among :
      (step : String) (producers : Dict String) (refs : List String)
      → All (λ e. Among ids e.1) producers
      → All (Among ids) (producers_of step producers refs)
  unfolding producers_of
  producers-Among step producers [] h = tt
  producers-Among step producers (ref ∷ refs) h =
      let rest = producers-Among step producers refs h in
      elim (Option-cases (lookup ref producers)) [
        | inl unknown ↦ rw (producers_of, unknown) rest
        | inr (producer, found) ↦
            elim (Bool-cases (non_empty producer && not (str_eq producer step))) [
              | inl other ↦
                  rw (producers_of, found, other)
                    (lookup-Among ids producers ref producer h found, rest)
              | inr same ↦ rw (producers_of, found, same) rest
            ]
      ]

  either-Among :
      (test : Bool) (one other : Dict String × List String)
      → All (Among ids) one.1
      → All (Among ids) other.1
      → All (Among ids) (if test then one else other).1
  either-Among true one other h k = h
  either-Among false one other h k = k

  pub wired-Among :
      (step : String) (b : Building) (types : Dict String) (wired : Dict String × List String)
      → All (λ e. Among ids e.1) b.ref_producer
      → All (Among ids) wired.1
      → All (Among ids) (wire_inputs step b types wired).1
  unfolding wire_inputs
  wired-Among step b [] wired h d = d
  wired-Among step b ((key, type) ∷ types) wired h d =
      let matched = pick_refs_for_input_type type b.refs_by_type in
      wired-Among step b types _ h (
        either-Among (is_empty matched) _ _ d (
          All-append (Among ids) wired.1 (producers_of step b.ref_producer matched) d
            (producers-Among step b.ref_producer matched h)))

  pub produced-Among :
      (step : String) (types outputs : Dict String) (b : Building)
      → Among ids step
      → All (λ e. Among ids e.1) b.ref_producer
      → All (λ e. Among ids e.1) (wire_outputs step types outputs b).1.ref_producer
  unfolding wire_outputs
  produced-Among step [] outputs b here h = h
  produced-Among step ((key, type) ∷ types) outputs b here h =
      produced-Among step types _ _ here (insert-Among ids b.ref_producer _ step h here)

pub last-Among : (nodes : List OperationNode) → All (Among (step_ids nodes)) (last_step nodes)
last-Among [] = tt
last-Among (n ∷ []) = (mem-cons_self n.step_id [], tt)
last-Among (n ∷ m ∷ ns) =
    All-map (last_step (m ∷ ns)) (λ d there. mem-cons_of_mem d n.step_id (step_ids (m ∷ ns)) there)
      (last-Among (m ∷ ns))

pub settled-Among :
    (deps : List String) (nodes : List OperationNode)
    → All (Among (step_ids nodes)) deps
    → All (Among (step_ids nodes)) (settle_dependencies deps nodes)
unfolding settle_dependencies
settled-Among deps nodes h = elim (Bool-cases (is_empty deps)) [
  | inl none_there ↦
      rw none_there (dedup-All (Among (step_ids nodes)) (last_step nodes) [] (last-Among nodes))
  | inr some_there ↦ rw some_there (dedup-All (Among (step_ids nodes)) deps [] h)
]
