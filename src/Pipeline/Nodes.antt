-- ===== src/Pipeline/Nodes.antt =====
-- Lists of nodes with distinct step ids, as packages/schemas/operation_plan.py keeps them.
use mathlib.Core.List.{Memᴰ, Permᴰ}
use mathlib.Core.List.Permᴰ
use gis_agent.Prelude.{
  String, true, false, List, [], ◌∷◌, ◌++◌, mem, distinct, str_eq, eq_iff, arith, ◌≡◌, refl, sym,
  ap, ◌≢◌, suc, length, ◌∙◌, inl, inr, Bool-cases,
}
use gis_agent.Plan.{OperationNode, step_ids}
use gis_agent.PlanGuard.Graph.Sets.{mem-cons_of_mem, mem-cons_cases}
use gis_agent.Pipeline.Schedule.{remove}

pub mem_of_Mem :
    (n : OperationNode) (ns : List OperationNode) → Memᴰ n ns → mem n.step_id (step_ids ns) ≡ true
unfolding mem
mem_of_Mem n [] there = elim there [ ]
mem_of_Mem n (x ∷ xs) (Memᴰ.head e) =
    ground (arith, ap (λ (m : OperationNode). m.step_id) e, eq_iff n.step_id x.step_id)
mem_of_Mem n (x ∷ xs) (Memᴰ.tail m) =
    mem-cons_of_mem n.step_id x.step_id (step_ids xs) (mem_of_Mem n xs m)

pub Mem_of_mem :
    (k : String) (ns : List OperationNode)
    → mem k (step_ids ns) ≡ true
    → (n : OperationNode) × Memᴰ n ns × (k ≡ n.step_id)
unfolding mem
Mem_of_mem k [] h = cc
Mem_of_mem k (x ∷ xs) h = elim (mem-cons_cases k x.step_id (step_ids xs) h) [
  | inl e ↦ (x, Memᴰ.head refl, e)
  | inr m ↦ let (n, there, e) = Mem_of_mem k xs m in (n, Memᴰ.tail there, e)
]

pub Mem-Perm :
    {xs ys : List OperationNode} {n : OperationNode} → Permᴰ xs ys → Memᴰ n xs → Memᴰ n ys
Mem-Perm Permᴰ.nil there = there
Mem-Perm (Permᴰ.cons e p) (Memᴰ.head same) = Memᴰ.head (same ∙ e)
Mem-Perm (Permᴰ.cons e p) (Memᴰ.tail m) = Memᴰ.tail (Mem-Perm p m)
Mem-Perm (Permᴰ.swap e f) (Memᴰ.head same) = Memᴰ.tail (Memᴰ.head (same ∙ e))
Mem-Perm (Permᴰ.swap e f) (Memᴰ.tail (Memᴰ.head same)) = Memᴰ.head (same ∙ f)
Mem-Perm (Permᴰ.swap e f) (Memᴰ.tail (Memᴰ.tail m)) = Memᴰ.tail (Memᴰ.tail m)
Mem-Perm (Permᴰ.trans p q) there = Mem-Perm q (Mem-Perm p there)

pub mem-Perm :
    {xs ys : List OperationNode} (k : String)
    → Permᴰ xs ys
    → mem k (step_ids xs) ≡ mem k (step_ids ys)
unfolding mem
mem-Perm k Permᴰ.nil = refl
mem-Perm k (Permᴰ.cons {a} {b} e p) =
    ground (arith, mem-Perm k p, ap (λ (n : OperationNode). n.step_id) e)
mem-Perm k (Permᴰ.swap {a} {b} e f) =
    ground (arith, ap (λ (n : OperationNode). n.step_id) e, ap (λ (n : OperationNode). n.step_id) f)
mem-Perm k (Permᴰ.trans p q) = mem-Perm k p ∙ mem-Perm k q

pub distinct-Perm :
    {xs ys : List OperationNode}
    → Permᴰ xs ys
    → distinct (step_ids xs) ≡ true
    → distinct (step_ids ys) ≡ true
unfolding distinct mem
distinct-Perm Permᴰ.nil h = refl
distinct-Perm (Permᴰ.cons {a} {b} e p) h =
    ground (arith, mem-Perm a.step_id p, ap (λ (n : OperationNode). n.step_id) e, distinct-Perm p)
distinct-Perm (Permᴰ.swap {a} {b} e f) h = ground (
  arith,
  ap (λ (n : OperationNode). n.step_id) e,
  ap (λ (n : OperationNode). n.step_id) f,
  eq_iff a.step_id b.step_id,
  eq_iff b.step_id a.step_id,
)
distinct-Perm (Permᴰ.trans p q) h = distinct-Perm q (distinct-Perm p h)

-- The ids of the second part of a list are distinct, and none of them is in the first.
pub distinct-append_right :
    (xs ys : List OperationNode)
    → distinct (step_ids (xs ++ ys)) ≡ true
    → distinct (step_ids ys) ≡ true
unfolding distinct
distinct-append_right [] ys h = h
distinct-append_right (x ∷ xs) ys h = distinct-append_right xs ys (ground arith)

module _ (node : OperationNode) where
  -- A node that is removed and put in front again.
  pub remove-Perm :
      (ns : List OperationNode)
      → Memᴰ node ns
      → distinct (step_ids ns) ≡ true
      → Permᴰ (node ∷ remove node.step_id ns) ns
  unfolding remove distinct mem
  remove-Perm [] there h = elim there [ ]
  remove-Perm (x ∷ xs) (Memᴰ.head e) h =
      rw (same_id (ap (λ (n : OperationNode). n.step_id) (sym e))) (Permᴰ.cons e (Permᴰ.refl xs))
    where
      same_id : x.step_id ≡ node.step_id → str_eq x.step_id node.step_id ≡ true
      same_id e = ground (arith, eq_iff x.step_id node.step_id)
  remove-Perm (x ∷ xs) (Memᴰ.tail m) h =
      let there = mem_of_Mem node xs m in
      let another : str_eq x.step_id node.step_id ≡ false =
        ground (arith, there, eq_iff x.step_id node.step_id) in
      rw another
        (Permᴰ.trans (Permᴰ.swap refl refl) (Permᴰ.cons refl (remove-Perm xs m (ground arith))))

  -- Another node of a list with distinct ids is still there.
  pub remove-other :
      (m : OperationNode) (ns : List OperationNode)
      → Memᴰ m ns
      → (m.step_id ≢ node.step_id)
      → Memᴰ m (remove node.step_id ns)
  unfolding remove
  remove-other m [] there other = elim there [ ]
  remove-other m (x ∷ xs) (Memᴰ.head e) other =
      let another : str_eq x.step_id node.step_id ≡ false =
        ground
          (arith, other, ap (λ (n : OperationNode). n.step_id) e, eq_iff x.step_id node.step_id) in
      rw another (Memᴰ.head e)
  remove-other m (x ∷ xs) (Memᴰ.tail there) other =
      elim (Bool-cases (str_eq x.step_id node.step_id)) [
        | inl same ↦ rw same there
        | inr another ↦ rw another (Memᴰ.tail (remove-other m xs there other))
      ]

  pub length-remove :
      (ns : List OperationNode)
      → mem node.step_id (step_ids ns) ≡ true
      → suc (length (remove node.step_id ns)) ≡ length ns
  unfolding remove mem
  length-remove [] h = cc
  length-remove (x ∷ xs) h =
      ground (arith, eq_iff x.step_id node.step_id, eq_iff node.step_id x.step_id, length-remove xs)
