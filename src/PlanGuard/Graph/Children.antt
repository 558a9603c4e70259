-- ===== src/PlanGuard/Graph/Children.antt =====
-- The tables of `_topological_sort`: the children are the edges turned round, and the degrees count
-- the dependencies.
use gis_agent.Prelude.{
  ℕ, ◌+◌, String, true, false, some, List, [], ◌∷◌, ◌++◌, length, mem, distinct, str_eq, eq_iff,
  if◌then◌else◌, arith, ◌≡◌, refl, Bool-cases, inl, inr,
}
use gis_agent.Prelude.Int.{pos}
use gis_agent.Prelude.Dict.{lookup, insert, keys, lookup-insert}
use gis_agent.PlanGuard.Graph.{
  Graph, dependencies, add_child, add_children, no_children, children_from, children_of, indegrees,
  roots,
}
use gis_agent.PlanGuard.Graph.Sets.{count, count-append}

pub dependencies-insert :
    (k d : String) (xs : List String) (g : Graph)
    → dependencies (insert k xs g) d ≡ (if str_eq k d then xs else dependencies g d)
unfolding dependencies
dependencies-insert k d xs g = ground (arith, lookup-insert k d xs g)

-- The entries of `add_child` at `d`, by whether `d` is the key that it changes.
add_child_here :
    (dep k j d : String) (acc : Graph)
    → str_eq dep d ≡ true
    → count j (dependencies acc dep ++ k ∷ [])
      ≡ count j (dependencies acc d) + (if str_eq j k then count d (dep ∷ []) else 0)
unfolding count
add_child_here dep k j d acc same =
    ground (arith, count-append j (dependencies acc dep) (k ∷ []), eq_iff dep d, eq_iff d dep)

add_child_elsewhere :
    (dep k j d : String) (acc : Graph)
    → str_eq dep d ≡ false
    → count j (dependencies acc d)
      ≡ count j (dependencies acc d) + (if str_eq j k then count d (dep ∷ []) else 0)
unfolding count
add_child_elsewhere dep k j d acc other = ground (arith, eq_iff dep d, eq_iff d dep)

count-add_child :
    (dep k j d : String) (acc : Graph)
    → count j (dependencies (add_child dep k acc) d)
      ≡ count j (dependencies acc d) + (if str_eq j k then count d (dep ∷ []) else 0)
unfolding add_child
count-add_child dep k j d acc = elim (Bool-cases (str_eq dep d)) [
  | inl same ↦
      rw (dependencies-insert, same) (unfold dependencies in add_child_here dep k j d acc same)
  | inr other ↦ rw (dependencies-insert, other) (add_child_elsewhere dep k j d acc other)
]

count-add_children :
    (deps : List String) (k j d : String) (acc : Graph)
    → count j (dependencies (add_children deps k acc) d)
      ≡ count j (dependencies acc d) + (if str_eq j k then count d deps else 0)
unfolding add_children count
count-add_children [] k j d acc = ground arith
count-add_children (dep ∷ deps) k j d acc =
    ground
      (arith, count-add_children deps k j d (add_child dep k acc), count-add_child dep k j d acc)

-- The dependencies of `j` that are `d`, over all entries of `g`.
edges : Graph → String → String → ℕ
edges [] j d = 0
edges ((k, deps) ∷ g) j d = (if str_eq j k then count d deps else 0) + edges g j d

count-children_from :
    (g acc : Graph) (j d : String)
    → count j (dependencies (children_from g acc) d) ≡ count j (dependencies acc d) + edges g j d
unfolding children_from edges
count-children_from [] acc j d = omega arith
count-children_from ((k, deps) ∷ g) acc j d =
    omega (
      arith,
      count-children_from g (add_children deps k acc) j d,
      count-add_children deps k j d acc,
    )

count-no_children : (g : Graph) (j d : String) → count j (dependencies (no_children g) d) ≡ 0
unfolding no_children count
count-no_children [] j d = unfold dependencies lookup in refl
count-no_children ((k, deps) ∷ g) j d =
    rw dependencies-insert (ground (arith, count-no_children g j d))

edges_of_absent : (g : Graph) (j d : String) → mem j (keys g) ≡ false → edges g j d ≡ 0
unfolding edges mem
edges_of_absent [] j d h = refl
edges_of_absent ((k, deps) ∷ g) j d h = ground (arith, edges_of_absent g j d)

edges-eq-count :
    (g : Graph) (j d : String) → distinct (keys g) ≡ true → edges g j d ≡ count d (dependencies g j)
unfolding edges distinct dependencies lookup count
edges-eq-count [] j d h = refl
edges-eq-count ((k, deps) ∷ g) j d h =
    ground (arith, edges-eq-count g j d, edges_of_absent g j d, eq_iff j k, eq_iff k j)

-- `k` is a child of `d` as often as `d` is a dependency of `k`.
pub count-children_of :
    (g : Graph) (j d : String)
    → distinct (keys g) ≡ true
    → count j (dependencies (children_of g) d) ≡ count d (dependencies g j)
unfolding children_of
count-children_of g j d h = omega (
  arith,
  count-children_from g (no_children g) j d,
  count-no_children g j d,
  edges-eq-count g j d h,
)

pub lookup-indegrees :
    (g : Graph) (j : String)
    → mem j (keys g) ≡ true
    → lookup j (indegrees g) ≡ some (pos (length (dependencies g j)))
unfolding lookup indegrees dependencies mem
lookup-indegrees [] j h = ground arith
lookup-indegrees ((k, deps) ∷ g) j h = ground (arith, lookup-indegrees g j, eq_iff j k, eq_iff k j)

-- A root is a key.
mem-roots_key :
    (g : Graph) (j : String) → mem j (roots (indegrees g)) ≡ true → mem j (keys g) ≡ true
unfolding roots indegrees mem
mem-roots_key [] j h = h
mem-roots_key ((k, deps) ∷ g) j h = ground (arith, mem-roots_key g j)

pub mem-roots :
    (g : Graph) (j : String)
    → distinct (keys g) ≡ true
    → mem j (roots (indegrees g)) ≡ true
    → (mem j (keys g) ≡ true) × (length (dependencies g j) ≡ 0)
unfolding roots indegrees mem distinct dependencies lookup
mem-roots [] j u h = ground arith
mem-roots ((k, deps) ∷ g) j u h =
    ground (arith, mem-roots g j, mem-roots_key g j, eq_iff j k, eq_iff k j)

pub roots_complete :
    (g : Graph) (j : String)
    → mem j (keys g) ≡ true
    → length (dependencies g j) ≡ 0
    → mem j (roots (indegrees g)) ≡ true
unfolding roots indegrees mem dependencies lookup
roots_complete [] j h z = h
roots_complete ((k, deps) ∷ g) j h z = ground (arith, roots_complete g j, eq_iff j k, eq_iff k j)

pub distinct-roots : (g : Graph) → distinct (keys g) ≡ true → distinct (roots (indegrees g)) ≡ true
unfolding roots indegrees distinct
distinct-roots [] h = refl
distinct-roots ((k, deps) ∷ g) h = ground (arith, distinct-roots g, mem-roots_key g k)
