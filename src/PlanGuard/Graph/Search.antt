-- ===== src/PlanGuard/Graph/Search.antt =====
-- The depth-first search of `_detect_cycle`: what each walk leaves.
use gis_agent.Prelude.{
  ℕ, zero, suc, ◌<◌, String, true, false, List, [], ◌∷◌, mem, All, ◌≡◌, refl, ◌∙◌, inl, inr, arith,
  Bool-cases,
}
use gis_agent.Prelude.Dict.{keys}
use gis_agent.PlanGuard.Graph.{
  Graph, dependencies, Seen, Walk, exhausted, cyclic, clear, next, walk_all, leave, walk,
}
use gis_agent.PlanGuard.Graph.Sets.{
  mem-cons_self, mem-cons_of_mem, mem-cons_cases, discard_pushed, All-of_mem, absent,
  absent-cons-lt, dependencies_of_absent,
}
use gis_agent.PlanGuard.Graph.Paths.{Edge, Reaches, step, more, IsOrdered}

-- Each step of `trail` depends on the one before it in the list, and the first on `k`.
abbrev pub IsTrail : Graph → String → List String → Type 0
IsTrail g k [] = Unit
IsTrail g k (v ∷ vs) = Edge g v k × IsTrail g v vs

abbrev pub Extends : List String → List String → Type 0
Extends xs ys = (x : String) → mem x xs ≡ true → mem x ys ≡ true

-- A walk over `ks` from the sets `s` ends: with a step that depends on itself, or with an order
-- that holds all of `ks`.
abbrev pub Sound : Graph → List String → Seen → Walk → Type 0
Sound g ks s exhausted = ⊥
Sound g ks s cyclic = (x : String) × Reaches g x x
Sound g ks s (clear s') =
    (s'.visiting ≡ s.visiting)
    × IsOrdered g s'.visited
    × Extends s.visited s'.visited
    × All (λ k. mem k s'.visited ≡ true) ks

module _ (g : Graph) where
  trail_cycle : (k x : String) (vs : List String) → IsTrail g k vs → mem x vs ≡ true → Reaches g x k
  unfolding mem
  trail_cycle k x [] t h = ground arith
  trail_cycle k x (v ∷ vs) t h = elim (mem-cons_cases x v vs h) [
    | inl e ↦ rw e (step t.0)
    | inr m ↦ more (trail_cycle v x vs t.1 m) t.0
  ]

  -- The condition under which `w` is sound, at the sets whose `visiting` is `vs`.
  abbrev pub WalksFrom : List String → (String → Seen → Walk) → Type 0
  WalksFrom vs w =
      (k : String) (s : Seen)
      → s.visiting ≡ vs
      → IsTrail g k vs
      → IsOrdered g s.visited
      → Sound g (k ∷ []) s (w k s)

  next-Sound :
      (k : String) (ks : List String) (s : Seen) (f : Seen → Walk) (r : Walk)
      → Sound g (k ∷ []) s r
      → ((s' : Seen) → s'.visiting ≡ s.visiting → IsOrdered g s'.visited → Sound g ks s' (f s'))
      → Sound g (k ∷ ks) s (next r f)
  next-Sound k ks s f exhausted h rest = h
  next-Sound k ks s f cyclic h rest = h
  next-Sound k ks s f (clear s') h rest = after (f s') (rest s' h.0 h.1)
    where
      after : (r : Walk) → Sound g ks s' r → Sound g (k ∷ ks) s r
      after exhausted q = q
      after cyclic q = q
      after (clear t) q = (q.0 ∙ h.0, q.1, (λ x m. q.2 x (h.2 x m)), (q.2 k h.3.0, q.3))

  pub walk_all-Sound :
      (w : String → Seen → Walk) (vs : List String)
      → WalksFrom vs w
      → (ks : List String) (s : Seen) → s.visiting ≡ vs
      → All (λ k. IsTrail g k vs) ks
      → IsOrdered g s.visited
      → Sound g ks s (walk_all w ks s)
  unfolding walk_all
  walk_all-Sound w vs hw [] s e t o = (refl, o, (λ x m. m), tt)
  walk_all-Sound w vs hw (k ∷ ks) s e t o =
      next-Sound k ks s (walk_all w ks) (w k s) (hw k s e t.0 o)
        (λ s' e' o'. walk_all-Sound w vs hw ks s' (e' ∙ e) t.1 o')

  leave-Sound :
      (k : String) (s : Seen) (r : Walk)
      → mem k s.visiting ≡ false
      → Sound g (dependencies g k) (record s { visiting = k ∷ s.visiting }) r
      → Sound g (k ∷ []) s (leave k r)
  unfolding leave
  leave-Sound k s exhausted new h = h
  leave-Sound k s cyclic new h = h
  leave-Sound k s (clear s') new h = (
    rw h.0 (discard_pushed k s.visiting new),
    (h.3, h.1),
    (λ x m. mem-cons_of_mem x k s'.visited (h.2 x m)),
    (mem-cons_self k s'.visited, tt),
  )

  inside-Sound :
      (w : String → Seen → Walk) (k : String) (s : Seen)
      → (mem k (keys g) ≡ true → WalksFrom (k ∷ s.visiting) w)
      → IsTrail g k s.visiting
      → IsOrdered g s.visited
      → Sound g
          (dependencies g k)
          (record s { visiting = k ∷ s.visiting })
          (walk_all w (dependencies g k) (record s { visiting = k ∷ s.visiting }))
  unfolding walk_all
  inside-Sound w k s hw t o = elim (Bool-cases (mem k (keys g))) [
    | inl key ↦
        walk_all-Sound w (k ∷ s.visiting) (hw key) (dependencies g k) _ refl
          (All-of_mem (dependencies g k) (λ d m. (m, t))) o
    | inr leaf ↦ rw (dependencies_of_absent k g leaf) (refl, o, (λ x m. m), tt)
  ]

  -- With fuel for each key that is not being visited, a walk ends and is sound.
  pub walk-Sound :
      (fuel : ℕ) (k : String) (s : Seen)
      → absent (keys g) s.visiting < fuel
      → IsTrail g k s.visiting
      → IsOrdered g s.visited
      → Sound g (k ∷ []) s (walk g fuel k s)
  unfolding walk
  walk-Sound zero k s enough t o = elim enough [ ]
  walk-Sound (suc fuel) k s enough t o = elim (Bool-cases (mem k s.visiting)) [
    | inl on_trail ↦ rw on_trail (k, trail_cycle k k s.visiting t on_trail)
    | inr new ↦ elim (Bool-cases (mem k s.visited)) [
      | inl old ↦ rw (new, old) (refl, o, (λ x m. m), (old, tt))
      | inr fresh ↦
          rw (new, fresh)
            (leave-Sound k s _ new (
              inside-Sound (walk g fuel) k s
                (λ key j s' e t' o'.
                  walk-Sound fuel j s'
                    (rw e (omega (arith, absent-cons-lt k (keys g) s.visiting key new))) (rw e t')
                    o')
                t o))
    ]
  ]
