-- ===== src/PlanGuard/Graph.antt =====
-- The graph algorithms of packages/domain/services/plan_guard.py: the depth-first search for a
-- cycle and Kahn's topological sort. A graph maps a step to the steps it depends on.
pub mod Sets
pub mod Paths
mod Search
pub mod Children
mod Release
pub mod Sort
pub mod Cycle
use gis_agent.Prelude.{
  ℕ, zero, suc, String, Bool, true, false, Option, none, some, List, [], ◌∷◌, ◌++◌, length, mem,
  str_eq, if◌then◌else◌,
}
use gis_agent.Prelude.Int.{ℤ, pos, pred_ℤ, is_zero}
use gis_agent.Prelude.Dict.{Dict, lookup, insert, keys}

abbrev pub Graph : Type 0
Graph = Dict (List String)

abbrev pub or_empty : Option (List String) → List String
or_empty none = []
or_empty (some xs) = xs

-- `graph.get(step_id, [])`
unfoldable pub dependencies : Graph → String → List String
dependencies g k = or_empty (lookup k g)

-- `s.remove(k)` on a set kept as a list.
unfoldable pub discard : String → List String → List String
discard k [] = []
discard k (x ∷ xs) = let rest = discard k xs in if str_eq x k then rest else x ∷ rest

pub record Seen : Type 0 where
  pub visiting : List String
  pub visited : List String

-- What `_walk` leaves: a cycle was met, or the sets as they are then. `exhausted` is the fuel's.
pub data Walk : Type 0 where
  exhausted cyclic : Walk
  clear : Seen → Walk

-- Go on from the sets that a walk leaves, unless it has met a cycle.
abbrev pub next : Walk → (Seen → Walk) → Walk
next exhausted f = exhausted
next cyclic f = cyclic
next (clear s) f = f s

-- `any(walk(k) for k in ks)` over shared sets.
unfoldable pub walk_all : (String → Seen → Walk) → List String → Seen → Walk
walk_all walk [] s = clear s
walk_all walk (k ∷ ks) s = next (walk k s) (walk_all walk ks)

unfoldable pub leave : String → Walk → Walk
unfolding discard
leave k exhausted = exhausted
leave k cyclic = cyclic
leave k (clear s) = clear (record { visiting = discard k s.visiting; visited = k ∷ s.visited })

-- `_walk`: the fuel bounds the depth of the recursion.
unfoldable pub walk : Graph → ℕ → String → Seen → Walk
unfolding walk_all leave dependencies mem
walk g zero k s = exhausted
walk g (suc fuel) k s =
    let inside =
      leave k
        (walk_all (walk g fuel) (dependencies g k) (record s { visiting = k ∷ s.visiting })) in
    if mem k s.visiting then cyclic else if mem k s.visited then clear s else inside

abbrev pub unseen : Seen
unseen = record { visiting = []; visited = [] }

abbrev pub fuel_for : Graph → ℕ
fuel_for g = suc (length g)

abbrev pub found_cycle : Walk → Option Bool
found_cycle exhausted = none
found_cycle cyclic = some true
found_cycle (clear s) = some false

-- `_detect_cycle`; `none` is the fuel's.
unfoldable pub detect_cycle : Graph → Option Bool
unfolding walk
detect_cycle g = found_cycle (walk_all (walk g (fuel_for g)) (keys g) unseen)

-- `children.setdefault(dep, []).append(step_id)`
unfoldable pub add_child : String → String → Graph → Graph
add_child dep k children = insert dep (or_empty (lookup dep children) ++ k ∷ []) children

unfoldable pub add_children : List String → String → Graph → Graph
unfolding add_child
add_children [] k children = children
add_children (dep ∷ deps) k children = add_children deps k (add_child dep k children)

-- `{step_id: [] for step_id in graph}`
unfoldable pub no_children : Graph → Graph
no_children [] = []
no_children ((k, deps) ∷ g) = insert k [] (no_children g)

unfoldable pub children_from : Graph → Graph → Graph
unfolding add_children
children_from [] children = children
children_from ((k, deps) ∷ g) children = children_from g (add_children deps k children)

unfoldable pub children_of : Graph → Graph
unfolding children_from no_children
children_of g = children_from g (no_children g)

abbrev pub Degrees : Type 0
Degrees = Dict ℤ

unfoldable pub indegrees : Graph → Degrees
indegrees [] = []
indegrees ((k, deps) ∷ g) = (k, pos (length deps)) ∷ indegrees g

unfoldable pub roots : Degrees → List String
roots [] = []
roots ((k, n) ∷ d) = let rest = roots d in if is_zero n then k ∷ rest else rest

abbrev pub degree : Option ℤ → ℤ
degree none = pos 0
degree (some n) = n

-- `indegree[child] -= 1`, and the queue if that is 0 now.
unfoldable pub release : String → Degrees × List String → Degrees × List String
release child (d, queue) =
    let n = pred_ℤ (degree (lookup child d)) in
    (insert child n d, if is_zero n then queue ++ child ∷ [] else queue)

unfoldable pub release_all : List String → Degrees × List String → Degrees × List String
unfolding release
release_all [] s = s
release_all (child ∷ cs) s = release_all cs (release child s)

-- The `while queue` loop.
unfoldable pub sort_loop : Graph → ℕ → Degrees → List String → List String → Option (List String)
unfolding release_all dependencies
sort_loop children fuel d [] ordered = some ordered
sort_loop children zero d (k ∷ queue) ordered = none
sort_loop children (suc fuel) d (k ∷ queue) ordered =
    let (d', queue') = release_all (dependencies children k) (d, queue) in
    sort_loop children fuel d' queue' (ordered ++ k ∷ [])

-- `_topological_sort`; `none` is the fuel's.
unfoldable pub topological_sort : Graph → Option (List String)
unfolding sort_loop indegrees roots children_of
topological_sort g = let d = indegrees g in sort_loop (children_of g) (fuel_for g) d (roots d) []
