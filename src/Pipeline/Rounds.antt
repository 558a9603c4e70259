-- ===== src/Pipeline/Rounds.antt =====
-- The loop of packages/domain/services/processing_pipeline.py against the executions of its nodes.
use mathlib.Core.List.{Memᴰ, Permᴰ}
use mathlib.Core.List.Permᴰ
use gis_agent.Prelude.{
  ℕ, zero, suc, ◌≤◌, ◌<◌, String, true, false, some, List, [], ◌∷◌, ◌++◌, mem, distinct, length,
  All, is_empty, arith, ◌≡◌, ◌≢◌, refl, sym, ap, ◌∙◌, ◌⊎◌, inl, inr, Bool-cases, and_parts, subst,
}
use gis_agent.Prelude.Result.{Result, ok, err, ◌>>=◌, Result-cases}
use gis_agent.Prelude.Sublists.{all-All}
use gis_agent.Plan.{OperationNode, step_ids}
use gis_agent.Pipeline.Schedule.{
  Loop, Ending, is_ready, remove, settle, visit, sweep, after_sweep, rounds, run_nodes, raised,
  unresolved, completed,
}
use gis_agent.Pipeline.Executed.{
  Executed, nothing_yet, executed, RunsTo, all_executed, failed_at, all_wait,
}
use gis_agent.Pipeline.Nodes.{
  mem_of_Mem, distinct-Perm, distinct-append_right, remove-Perm, remove-other, length-remove,
}

all_in :
    {nodes : List OperationNode} (done left : List OperationNode)
    → is_empty left ≡ true
    → Permᴰ (done ++ left) nodes
    → Permᴰ done nodes
all_in done [] h p = Permᴰ.trans (Permᴰ.symm (Permᴰ.append-nil done)) p
all_in done (n ∷ ns) h p = cc

module _ {S E : Type 0} (run : OperationNode → S → Result E S) (start : S)
    (nodes : List OperationNode) (unique : distinct (step_ids nodes) ≡ true) where
  -- The loop's invariant in a sweep with the nodes `rest` to come.
  record Sweeping (rest : List OperationNode) (loop : Loop S) : Type 0 where
    done : List OperationNode
    same : loop.completed ≡ step_ids done
    reached : Executed run start done loop.state
    split : Permᴰ (done ++ loop.pending) nodes
    coming : (n : OperationNode) → Memᴰ n rest → Memᴰ n loop.pending
    once : distinct (step_ids rest) ≡ true

  pending-distinct :
      {rest : List OperationNode} (loop : Loop S)
      → Sweeping rest loop
      → distinct (step_ids loop.pending) ≡ true
  pending-distinct loop s =
      distinct-append_right s.done loop.pending (distinct-Perm (Permᴰ.symm s.split) unique)

  skip :
      (node : OperationNode) (rest : List OperationNode) (loop : Loop S)
      → Sweeping (node ∷ rest) loop
      → Sweeping rest loop
  unfolding distinct
  skip node rest loop s = record {
    done = s.done;
    same = s.same;
    reached = s.reached;
    split = s.split;
    coming = λ n there. s.coming n (Memᴰ.tail there);
    once = (and_parts _ (distinct (step_ids rest)) s.once).1;
  }

  other_id :
      (node n : OperationNode) (rest : List OperationNode)
      → distinct (step_ids (node ∷ rest)) ≡ true
      → Memᴰ n rest
      → n.step_id ≢ node.step_id
  unfolding distinct
  other_id node n rest once there e =
      let m = mem_of_Mem n rest there in absurd (ground (arith, m, rw e at m))

  now_ready :
      (node : OperationNode) (rest : List OperationNode) (loop : Loop S)
      (s : Sweeping (node ∷ rest) loop)
      → is_ready loop.completed node ≡ true
      → All (λ dep. mem dep (step_ids s.done) ≡ true) node.depends_on
  now_ready node rest loop s ready =
      subst (λ l. All (λ dep. mem dep l ≡ true) node.depends_on) s.same
        (all-All (λ dep. mem dep loop.completed) node.depends_on ready)

  -- The pending node that is taken is put back.
  back_in :
      {rest : List OperationNode} (loop : Loop S) (node : OperationNode) (s : Sweeping rest loop)
      → Memᴰ node loop.pending
      → Permᴰ (s.done ++ node ∷ remove node.step_id loop.pending) nodes
  back_in loop node s here =
      Permᴰ.trans
        (Permᴰ.append_left s.done (remove-Perm node loop.pending here (pending-distinct loop s)))
        s.split

  settle-Sweeping :
      (node : OperationNode) (rest : List OperationNode) (loop : Loop S) (state : S)
      → Sweeping (node ∷ rest) loop
      → is_ready loop.completed node ≡ true
      → run node loop.state ≡ ok state
      → Sweeping rest (settle run node loop state)
  unfolding settle
  settle-Sweeping node rest loop state s ready returned =
      let here = s.coming node (Memᴰ.head refl) in
      record {
        done = node ∷ s.done;
        same = ap (λ (l : List String). node.step_id ∷ l) s.same;
        reached = executed node s.reached (now_ready node rest loop s ready) returned;
        split =
            Permᴰ.trans (Permᴰ.symm (Permᴰ.middle node s.done (remove node.step_id loop.pending)))
              (back_in loop node s here);
        coming = λ n there.
            remove-other node n loop.pending (s.coming n (Memᴰ.tail there))
              (other_id node n rest s.once there);
        once = (skip node rest loop s).once;
      }

  -- What a sweep leaves: a loop that is shorter if it has progressed, and else the old one, whose
  -- nodes all wait; or the exception of a step.
  data Swept (rest : List OperationNode) (loop : Loop S) : Result E (Loop S) → Type 0 where
    swept :
        (loop' : Loop S)
        → Sweeping [] loop'
        → (length loop'.pending ≤ length loop.pending)
        → (loop'.progressed ≡ true) × (length loop'.pending < length loop.pending)
          ⊎ (loop' ≡ loop) × ((n : OperationNode) → Memᴰ n rest → is_ready loop.completed n ≡ false)
        → Swept rest loop (ok loop')
    broken : {e : E} → RunsTo run start nodes (raised e) → Swept rest loop (err e)

  visit_waits :
      (node : OperationNode) (loop : Loop S)
      → is_ready loop.completed node ≡ false
      → visit run node loop ≡ ok loop
  unfolding visit
  visit_waits node loop waits = rw (visit, waits) refl

  visit_runs :
      (node : OperationNode) (loop : Loop S) {r : Result E S}
      → is_ready loop.completed node ≡ true
      → run node loop.state ≡ r
      → visit run node loop ≡ (r >>= λ state. ok (settle run node loop state))
  unfolding visit
  visit_runs node loop ready e = rw (visit, ready, e) refl

  -- A node that waits is passed over.
  pass_over :
      (node : OperationNode) (rest : List OperationNode) (loop : Loop S) {r : Result E (Loop S)}
      → is_ready loop.completed node ≡ false
      → Swept rest loop r
      → Swept (node ∷ rest) loop r
  pass_over node rest loop waits (broken b) = broken b
  pass_over node rest loop waits (swept loop' s le (inl moved)) = swept loop' s le (inl moved)
  pass_over node rest loop waits (swept loop' s le (inr (same, all_waiting))) =
      swept loop' s le (inr (same, wait))
    where
      wait : (n : OperationNode) → Memᴰ n (node ∷ rest) → is_ready loop.completed n ≡ false
      wait n (Memᴰ.head e) = rw e waits
      wait n (Memᴰ.tail m) = all_waiting n m

  go_on :
      (node : OperationNode) (rest : List OperationNode) (loop : Loop S) (state : S)
      {r : Result E (Loop S)}
      → mem node.step_id (step_ids loop.pending) ≡ true
      → Swept rest (settle run node loop state) r
      → Swept (node ∷ rest) loop r
  unfolding settle
  go_on node rest loop state here (broken b) = broken b
  go_on node rest loop state here (swept loop' s le (inl (moved, lt))) =
      let shorter = length-remove node loop.pending here in
      swept loop' s (omega (arith, shorter)) (inl (moved, omega (arith, shorter)))
  go_on node rest loop state here (swept loop' s le (inr (same, all_waiting))) =
      let shorter = length-remove node loop.pending here in
      swept loop' s (omega (arith, shorter))
        (inl (ap (λ (l : Loop S). l.progressed) same, omega (arith, shorter)))

  sweep-Swept :
      (rest : List OperationNode) (loop : Loop S)
      → Sweeping rest loop
      → Swept rest loop (sweep run rest loop)
  unfolding sweep
  sweep-Swept [] loop s = swept loop s (omega arith) (inr (refl, λ n there. elim there [ ]))
  sweep-Swept (node ∷ rest) loop s = elim (Bool-cases (is_ready loop.completed node)) [
    | inr waits ↦
        rw (visit_waits node loop waits)
          (pass_over node rest loop waits (sweep-Swept rest loop (skip node rest loop s)))
    | inl ready ↦ elim (Result-cases (run node loop.state)) [
      | inl (e, failed) ↦ rw (visit_runs node loop ready failed) (
          broken (
            failed_at s.done (remove node.step_id loop.pending) node
              (back_in loop node s (s.coming node (Memᴰ.head refl))) s.reached
              (now_ready node rest loop s ready) failed))
      | inr (state, returned) ↦ rw (visit_runs node loop ready returned) (
          go_on node rest loop state (mem_of_Mem node loop.pending (s.coming node (Memᴰ.head refl)))
            (sweep-Swept rest (settle run node loop state)
              (settle-Sweeping node rest loop state s ready returned)))
    ]
  ]

  -- A round starts from a loop in which all that is pending is to come.
  record Waiting (loop : Loop S) : Type 0 where
    done : List OperationNode
    same : loop.completed ≡ step_ids done
    reached : Executed run start done loop.state
    split : Permᴰ (done ++ loop.pending) nodes

  begin :
      (loop : Loop S) → Waiting loop → Sweeping loop.pending (record loop { progressed = false })
  begin loop w = record {
    done = w.done;
    same = w.same;
    reached = w.reached;
    split = w.split;
    coming = λ n there. there;
    once = distinct-append_right w.done loop.pending (distinct-Perm (Permᴰ.symm w.split) unique);
  }

  module _ (fuel : ℕ)
      (again : (loop : Loop S)
        → length loop.pending < fuel
        → Waiting loop
        → (e : Ending S E) × (rounds run fuel loop ≡ some e) × RunsTo run start nodes e) where
    -- What follows a sweep over all that is pending.
    after :
        (loop : Loop S) (r : Result E (Loop S))
        → length loop.pending < suc fuel
        → is_empty loop.pending ≡ false
        → Swept loop.pending (record loop { progressed = false }) r
        → (e : Ending S E) × (after_sweep run (rounds run fuel) r ≡ some e)
          × RunsTo run start nodes e
    unfolding after_sweep
    after loop r enough some_left (broken {e} b) = (raised e, refl, b)
    after loop r enough some_left (swept loop' s le (inl (moved, lt))) = rw moved (
        again loop' (omega (arith, enough, lt))
          (record { done = s.done; same = s.same; reached = s.reached; split = s.split }))
    after loop r enough some_left (swept loop' s le (inr (same, waits))) =
        let as_before = ap (λ (l : Loop S). l.pending) same in
        rw (ap (λ (l : Loop S). l.progressed) same) (
          unresolved (step_ids loop'.pending) loop'.state,
          refl,
          all_wait s.done loop'.pending (rw as_before some_left) s.split s.reached λ n there.
              subst (λ l. is_ready l n ≡ false)
                (sym (ap (λ (l : Loop S). l.completed) same) ∙ s.same)
                (waits n (subst (Memᴰ n) as_before there)),
        )

  rounds-RunsTo :
      (fuel : ℕ) (loop : Loop S)
      → length loop.pending < fuel
      → Waiting loop
      → (e : Ending S E) × (rounds run fuel loop ≡ some e) × RunsTo run start nodes e
  unfolding rounds
  rounds-RunsTo zero loop enough w = elim enough [ ]
  rounds-RunsTo (suc fuel) loop enough w = elim (Bool-cases (is_empty loop.pending)) [
    | inl none_left ↦
        rw (rounds, none_left)
          (
            completed loop.state,
            refl,
            all_executed w.done (all_in w.done loop.pending none_left w.split) w.reached,
          )
    | inr some_left ↦
        rw (rounds, some_left)
          (after fuel (rounds-RunsTo fuel) loop _ enough some_left
            (sweep-Swept loop.pending (record loop { progressed = false }) (begin loop w)))
  ]

  -- On nodes with distinct step ids the loop ends, whatever a step does. It ends with the nodes all
  -- executed, each once and behind its dependencies; or with the exception of the first step that
  -- fails; or with the error that names the steps left, which all wait for one that is not done.
  pub run_nodes-RunsTo :
      is_empty nodes ≡ false
      → (e : Ending S E) × (run_nodes run nodes start ≡ some e) × RunsTo run start nodes e
  unfolding run_nodes
  run_nodes-RunsTo some_there =
      rw (run_nodes, some_there)
        (rounds-RunsTo (suc (length nodes))
          (record { pending = nodes; completed = []; progressed = false; state = start })
          (omega arith)
          (record { done = []; same = refl; reached = nothing_yet; split = Permᴰ.refl nodes }))
