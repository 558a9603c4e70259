-- ===== src/PlanGuard/Graph/Release.antt =====
-- The inner loop of `_topological_sort`: the degrees of a step's children fall, and those that
-- reach 0 join the queue.
use mathlib.Core.Path.{fun_ext}
use gis_agent.Prelude.{
  ℕ, zero, suc, ◌-◌, ◌≤◌, String, true, false, some, List, [], ◌∷◌, ◌++◌, mem, distinct, str_eq,
  eq_iff, if◌then◌else◌, arith, ◌≡◌, refl, ap, subst, ◌∙◌, Bool-cases, ◌⊎◌, inl, inr, ◌==◌,
}
use gis_agent.Prelude.Int.{pos}
use gis_agent.Prelude.Dict.{lookup, insert, keys, lookup-insert}
use gis_agent.PlanGuard.Graph.{Graph, Degrees, release, release_all}
use gis_agent.PlanGuard.Graph.Sets.{
  count, mem-append, mem-cons_self, mem-cons_of_mem, distinct-snoc,
}

-- The tables of the loop, where `n j` dependencies of each `j` are not yet in `done`.
pub record Ready (g : Graph) (done : List String) (n : String → ℕ) (d : Degrees)
    (queue : List String) : Type 0 where
  pub degrees : (j : String) → mem j (keys g) ≡ true → lookup j d ≡ some (pos (n j))
  pub queued :
      (j : String) → mem j queue ≡ true → (mem j (keys g) ≡ true) × (n j ≡ 0) × (mem j done ≡ false)
  pub fresh : distinct queue ≡ true
  pub reached :
      (j : String) → mem j (keys g) ≡ true → n j ≡ 0 → (mem j queue ≡ true) ⊎ (mem j done ≡ true)
  pub settled : (j : String) → mem j done ≡ true → n j ≡ 0

abbrev one : String → String → ℕ
one j child = if str_eq j child then 1 else 0

abbrev lower : (String → ℕ) → String → String → ℕ
lower n child j = n j - one j child

abbrev joins : ℕ → String → List String → List String
joins m child queue = if m == 0 then queue ++ child ∷ [] else queue

release_eq :
    (child : String) (d : Degrees) (queue : List String) (m : ℕ)
    → lookup child d ≡ some (pos (suc m))
    → release child (d, queue) ≡ (insert child (pos m) d, joins m child queue)
unfolding release
release_eq child d queue zero e = rw e refl
release_eq child d queue (suc m) e = rw e (ground arith)

module _ (g : Graph) (done : List String) (n : String → ℕ) (d : Degrees) (queue : List String)
    (child : String) (m : ℕ) (key : mem child (keys g) ≡ true) (left : n child ≡ suc m)
    (r : Ready g done n d queue) where
  not_queued : mem child queue ≡ false
  not_queued = elim (Bool-cases (mem child queue)) [
    | inl there ↦ absurd (omega (arith, (r.queued child there).1))
    | inr away ↦ away
  ]

  not_done : mem child done ≡ false
  not_done = elim (Bool-cases (mem child done)) [
    | inl there ↦ absurd (omega (arith, r.settled child there))
    | inr away ↦ away
  ]

  degrees_after :
      (j : String)
      → mem j (keys g) ≡ true
      → lookup j (insert child (pos m) d) ≡ some (pos (lower n child j))
  degrees_after j k =
      rw lookup-insert (ground (arith, r.degrees j k, eq_iff child j, eq_iff j child))

  mem-joins :
      (j : String)
      → mem j (joins m child queue) ≡ true
      → (mem j queue ≡ true) ⊎ ((j ≡ child) × (m ≡ 0))
  unfolding mem
  mem-joins j h = ground (arith, mem-append j queue (child ∷ []), eq_iff j child)

  queued_after :
      (j : String)
      → mem j (joins m child queue) ≡ true
      → (mem j (keys g) ≡ true) × (lower n child j ≡ 0) × (mem j done ≡ false)
  queued_after j h = elim (mem-joins j h) [
    | inl old ↦ let q = r.queued j old in (q.0, omega (arith, q.1), q.2)
    | inr new ↦ (rw new.0 key, rw new.0 (ground (arith, eq_iff child child)), rw new.0 not_done)
  ]

  mem-joins' : (j : String) → mem j queue ≡ true → mem j (joins m child queue) ≡ true
  mem-joins' j h = ground (arith, mem-append j queue (child ∷ []))

  child_joins : m ≡ 0 → mem child (joins m child queue) ≡ true
  unfolding mem
  child_joins z = ground (arith, mem-append child queue (child ∷ []), eq_iff child child)

  reached_after :
      (j : String)
      → mem j (keys g) ≡ true
      → lower n child j ≡ 0
      → (mem j (joins m child queue) ≡ true) ⊎ (mem j done ≡ true)
  reached_after j k z = elim (Bool-cases (str_eq j child)) [
    | inl same ↦ inl (
        rw ((eq_iff j child).0 same) (child_joins (ground (arith, ap n ((eq_iff j child).0 same)))))
    | inr other ↦ elim (r.reached j k (ground arith)) [
      | inl q ↦ inl (mem-joins' j q)
      | inr o ↦ inr o
    ]
  ]

  fresh_after : distinct (joins m child queue) ≡ true
  fresh_after = ground (arith, r.fresh, distinct-snoc child queue r.fresh not_queued)

  release-Ready_suc :
      Ready g done (lower n child) (release child (d, queue)).0 (release child (d, queue)).1
  release-Ready_suc =
      rw (release_eq child d queue m (r.degrees child key ∙ ap (λ (t : ℕ). some (pos t)) left))
        (record {
          degrees = degrees_after;
          queued = queued_after;
          fresh = fresh_after;
          reached = reached_after;
          settled = λ j h. omega (arith, r.settled j h);
        })

module _ (g : Graph) (done : List String) where
  -- One child more is released.
  release-Ready :
      (n : String → ℕ) (d : Degrees) (queue : List String) (child : String)
      → mem child (keys g) ≡ true
      → 1 ≤ n child
      → Ready g done n d queue
      → Ready g done (lower n child) (release child (d, queue)).0 (release child (d, queue)).1
  release-Ready n d queue child key left r =
      release-Ready_suc g done n d queue child (n child - 1) key (omega arith) r

  pub Ready-cong :
      {n m : String → ℕ} {d : Degrees} {queue : List String}
      → ((j : String) → n j ≡ m j)
      → Ready g done n d queue
      → Ready g done m d queue
  Ready-cong {d = d} {queue = queue} e r = subst (λ f. Ready g done f d queue) (fun_ext e) r

  -- All children in the list are released, each as often as it stands there.
  pub release_all-Ready :
      (cs : List String) (n : String → ℕ) (d : Degrees) (queue : List String)
      → ((j : String) → mem j cs ≡ true → mem j (keys g) ≡ true)
      → ((j : String) → count j cs ≤ n j)
      → Ready g done n d queue
      → Ready g done
          (λ j. n j - count j cs)
          (release_all cs (d, queue)).0
          (release_all cs (d, queue)).1
  unfolding release_all count
  release_all-Ready [] n d queue all_keys enough r = Ready-cong (λ j. omega arith) r
  release_all-Ready (c ∷ cs) n d queue all_keys enough r =
      Ready-cong (λ j. omega arith)
        (release_all-Ready cs (lower n c) (release c (d, queue)).0 (release c (d, queue)).1
          (λ j h. all_keys j (mem-cons_of_mem j c cs h)) (λ j. omega (arith, enough j))
          (release-Ready n d queue c (all_keys c (mem-cons_self c cs))
            (ground (arith, enough c, eq_iff c c)) r))
