-- ===== src/PlanGuard/Serving.antt =====
-- The loops of `_validate_io_chain` in packages/domain/services/plan_guard.py against the rules.
use gis_agent.Prelude.{
  String, Bool, true, false, not, Option, none, some, List, [], ◌∷◌, ◌++◌, mem, distinct, str_eq,
  eq_iff, arith, ◌≡◌, refl, ap, sym, ◌∙◌, Bool-cases, ◌⊎◌, inl, inr, All, keep, is_empty, any, ◌||◌,
}
use mathlib.Core.List.{append_assoc, append-nil}
use gis_agent.Prelude.Result.{ok, guard-bind, guard-ok, bind-ok}
use gis_agent.Prelude.Text.{non_empty}
use gis_agent.Prelude.Dict.{Dict, insert, keys, has, lookup}
use gis_agent.Plan.{OperationNode}
use gis_agent.Registry.{OperationSpec}
use gis_agent.PlanGuard.Graph.Sets.{distinct-snoc}
use gis_agent.PlanGuard.Inputs.{base_type, param_is_present}
use gis_agent.PlanGuard.Fallback.{
  or_null, has_external_input_fallback, missing_params, check_any_groups, validate_required_params,
}
use gis_agent.PlanGuard.Chain.{
  reference, check_absent, check_reference, check_input, check_inputs, record_outputs, check_node,
}
use gis_agent.PlanGuard.Rules.{
  published_by, InputFits, parameter, demo, upstream, upload, file, InputsFit, IsGiven, OneIsGiven,
  Names, StepFits,
}

Or-cases : (a b : Bool) → (a || b) ≡ true → (a ≡ true) ⊎ (b ≡ true)
Or-cases a b h = ground arith

module _ (node : OperationNode) (produced : Dict String) where
  -- An input passes exactly if it is served.
  absent_fits :
      (key expected : String)
      → non_empty (reference (lookup key node.inputs)) ≡ false
      → check_absent node key expected ≡ ok tt
      → InputFits node produced key expected
  unfolding check_absent
  absent_fits key expected blank h =
      elim (Or-cases (has_external_input_fallback node key expected) _ (guard-ok _ _ h)) [
        | inl p ↦ parameter blank p
        | inr d ↦ demo blank d
      ]

  reference_fits :
      (key expected : String) (found : Option String)
      → non_empty (reference (lookup key node.inputs)) ≡ true
      → lookup (reference (lookup key node.inputs)) produced ≡ found
      → check_reference node key expected (reference (lookup key node.inputs)) found ≡ ok tt
      → InputFits node produced key expected
  unfolding check_reference
  reference_fits key expected none given e h =
      elim (Or-cases (str_eq expected "uploaded_file") _ (guard-ok _ _ h)) [
        | inl u ↦ upload given e ((eq_iff expected "uploaded_file").0 u)
        | inr f ↦ file given e (ground arith) (ground arith)
      ]
  reference_fits key expected (some actual) given e h = upstream actual given e (guard-ok _ _ h)

  check_input_sound :
      (key expected : String)
      → check_input node produced key expected ≡ ok tt
      → InputFits node produced key expected
  unfolding check_input
  check_input_sound key expected h =
      elim (Bool-cases (non_empty (reference (lookup key node.inputs)))) [
        | inl given ↦ reference_fits key expected _ given refl (rw given at h)
        | inr blank ↦ absent_fits key expected blank (rw blank at h)
      ]

  check_inputs_sound :
      (types : Dict String)
      → check_inputs node produced types ≡ ok tt
      → InputsFit node produced types
  unfolding check_inputs
  check_inputs_sound [] h = tt
  check_inputs_sound ((key, expected) ∷ types) h =
      let (u, rest, first) = bind-ok (check_input node produced key expected) _ h in
      (check_input_sound key expected first, check_inputs_sound types rest)

  -- The converse: an input that is served passes.
  check_input_complete :
      (key expected : String)
      → InputFits node produced key expected
      → check_input node produced key expected ≡ ok tt
  unfolding check_input check_reference check_absent
  check_input_complete key expected (parameter blank p) = rw (blank, p) refl
  check_input_complete key expected (demo blank d) = rw blank (ground (arith, d))
  check_input_complete key expected (upstream actual given e c) = rw (given, e, c) refl
  check_input_complete key expected (upload given e u) =
      rw (given, e) (ground (arith, eq_iff expected "uploaded_file"))
  check_input_complete key expected (file given e l v) = rw (given, e) (ground (arith, l, v))

missing_none :
    (node : OperationNode) (required : List String)
    → is_empty (missing_params node.params required) ≡ true
    → All (IsGiven node) required
unfolding missing_params
missing_none node [] h = tt
missing_none node (k ∷ ks) h =
    elim (Bool-cases (param_is_present (or_null (lookup k node.params)))) [
      | inl given ↦ (given, missing_none node ks (rw given at h))
      | inr missing ↦ let wrong : false ≡ true = rw missing at h in cc
    ]

groups_pass :
    (node : OperationNode) (groups : List (List String))
    → check_any_groups node groups ≡ ok tt
    → All (OneIsGiven node) groups
unfolding check_any_groups
groups_pass node [] h = tt
groups_pass node (group ∷ groups) h =
    let (given, rest) = guard-bind (any _ group) _ (check_any_groups node groups) h in
    (given, groups_pass node groups rest)

keys-append : (d e : Dict String) → keys (d ++ e) ≡ keys d ++ keys e
keys-append [] e = refl
keys-append ((k, v) ∷ d) e = ap (λ (l : List String). k ∷ l) (keys-append d e)

has-eq-mem : (k : String) (d : Dict String) → has k d ≡ mem k (keys d)
unfolding has mem
has-eq-mem k [] = refl
has-eq-mem k ((j, v) ∷ d) = ground (arith, has-eq-mem k d, eq_iff j k, eq_iff k j)

-- A new key goes to the end.
insert_new : (k v : String) (d : Dict String) → has k d ≡ false → insert k v d ≡ d ++ (k, v) ∷ []
unfolding insert has
insert_new k v [] h = refl
insert_new k v ((j, w) ∷ d) h = ground (arith, insert_new k v d)

insert_new-distinct :
    (k v : String) (d : Dict String)
    → has k d ≡ false
    → distinct (keys d) ≡ true
    → distinct (keys (insert k v d)) ≡ true
insert_new-distinct k v d new u =
    rw (insert_new k v d new, keys-append) (distinct-snoc k (keys d) u (sym (has-eq-mem k d) ∙ new))

module _ (node : OperationNode) where
  -- The outputs of a step are published at the end, named, and unlike all before.
  record_outputs_sound :
      (types produced final : Dict String)
      → record_outputs node types produced ≡ ok final
      → distinct (keys produced) ≡ true
      → (final ≡ produced ++ published_by node types)
        × Names (published_by node types)
        × (distinct (keys final) ≡ true)
  unfolding record_outputs published_by
  record_outputs_sound [] produced final h u =
      let same : produced ≡ final = cc in (sym same ∙ sym (append-nil produced), tt, rw same at u)
  record_outputs_sound ((key, type) ∷ types) produced final h u =
      let ref = reference (lookup key node.outputs) in
      let (named, h') = guard-bind (non_empty ref) _ _ h in
      let (new, rest) = guard-bind (not (has ref produced)) _ _ h' in
      let new' : has ref produced ≡ false = ground arith in
      let (e, names, once) =
        record_outputs_sound types (insert ref (base_type type) produced) final rest
          (insert_new-distinct ref (base_type type) produced new' u) in
      (
        e
            ∙ ap (λ (l : Dict String). l ++ published_by node types)
                (insert_new ref (base_type type) produced new')
            ∙ append_assoc produced ((ref, base_type type) ∷ []) (published_by node types),
        (named, names),
        once,
      )

no_unknown :
    (known : Dict String) (ks : List String)
    → is_empty (keep (λ k. not (has k known)) ks) ≡ true
    → All (λ k. has k known ≡ true) ks
no_unknown known [] h = tt
no_unknown known (k ∷ ks) h = elim (Bool-cases (has k known)) [
  | inl there ↦ (there, no_unknown known ks (rw there at h))
  | inr away ↦ let wrong : false ≡ true = rw away at h in cc
]

params_sound :
    (node : OperationNode) (spec : OperationSpec)
    → validate_required_params node spec ≡ ok tt
    → All (IsGiven node) spec.required_params × All (OneIsGiven node) spec.required_param_any
unfolding validate_required_params
params_sound node spec h =
    let (given, rest) =
      guard-bind (is_empty (missing_params node.params spec.required_params)) _ _ h in
    (missing_none node spec.required_params given, groups_pass node spec.required_param_any rest)

-- A step that passes keeps to its specification, and adds what it publishes.
pub check_node_sound :
    (node : OperationNode) (spec : OperationSpec) (produced final : Dict String)
    → check_node node spec produced ≡ ok final
    → distinct (keys produced) ≡ true
    → StepFits node spec produced
      × (final ≡ produced ++ published_by node spec.output_types)
      × (distinct (keys final) ≡ true)
unfolding check_node
check_node_sound node spec produced final h u =
    let (known, h') =
      guard-bind (is_empty (keep (λ key. not (has key spec.input_types)) (keys node.inputs))) _ _
        h in
    let (_, rest, given) = bind-ok (validate_required_params node spec) _ h' in
    let (_, last, served) = bind-ok (check_inputs node produced spec.input_types) _ rest in
    let (e, names, once) = record_outputs_sound node spec.output_types produced final last u in
    let params = params_sound node spec given in
    (
      record {
        inputs_known = no_unknown spec.input_types (keys node.inputs) known;
        params_given = params.0;
        groups_given = params.1;
        inputs_served = check_inputs_sound node produced spec.input_types served;
        outputs_named = names;
      },
      e,
      once,
    )
