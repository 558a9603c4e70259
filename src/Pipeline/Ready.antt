-- ===== src/Pipeline/Ready.antt =====
-- What `preflight_processing_pipeline_inputs` of packages/domain/services/processing_pipeline.py
-- makes sure of.
use mathlib.Core.List.{Memᴰ}
use mathlib.Core.List.Permᴰ
use gis_agent.Prelude.{
  String, Bool, true, distinct, is_empty, false, some, List, [], ◌∷◌, All, str_eq, eq_iff, arith,
  if◌then◌else◌, ◌≡◌, refl, sym, ap, ◌∙◌, inl, inr, Bool-cases, Option-cases, subst,
}
use gis_agent.Prelude.Result.{ok, err, bind-ok, test-ok}
use gis_agent.Prelude.Dict.{insert, has, has-insert}
use gis_agent.Plan.{OperationNode, step_ids}
use gis_agent.Pipeline.Schedule.{completed, empty_plan, run_nodes}
use gis_agent.Pipeline.Nodes.{Mem-Perm}
use gis_agent.Pipeline.Rounds.{run_nodes-RunsTo}
use gis_agent.Pipeline.Executed.{Executed, nothing_yet, executed, RunsTo, all_executed}
use gis_agent.Pipeline.Files.{FilePath, Files, is_supported_raster}
use gis_agent.Pipeline.Sources.{
  invalid_raster, no_raster_source, no_vector_source, References, raster_candidate,
  vector_candidate, checked_raster, resolve_raster_source, resolve_vector_source,
}
use gis_agent.Pipeline.Preflight.{Inputs, output_ref, publish, preflight_node, preflight_inputs}

-- The file is there.
abbrev pub There : Files → String × FilePath → Type 0
There files (key, path) = files.exists path ≡ true

insert-There :
    (files : Files) (k : String) (path : FilePath) (references : References)
    → files.exists path ≡ true
    → All (There files) references
    → All (There files) (insert k path references)
unfolding insert
insert-There files k path [] there h = (there, tt)
insert-There files k path ((j, other) ∷ references) there h = elim (Bool-cases (str_eq j k)) [
  | inl same ↦ rw same (there, h.1)
  | inr new ↦ rw new (h.0, insert-There files k path references there h.1)
]

-- A source that is resolved without a fallback is a file that is there; nothing is written.
record IsSource (files : Files) (source : FilePath × Files) : Type 0 where
  there : files.exists source.0 ≡ true
  unwritten : source.1 ≡ files

supported-there :
    (files : Files) (path : FilePath)
    → is_supported_raster files path ≡ true
    → files.exists path ≡ true
unfolding is_supported_raster
supported-there files path h = ground arith

as_it_is :
    (files : Files) (path : FilePath) (source : FilePath × Files)
    → files.exists path ≡ true
    → (path, files) ≡ source
    → IsSource files source
as_it_is files path source there same =
    subst (IsSource files) same (record { there = there; unwritten = refl })

module _ (working_dir : String) (node : OperationNode) (references : References)
    (files : Files) where
  checked_raster-IsSource :
      (step : String) (path : FilePath) (source : FilePath × Files)
      → checked_raster working_dir false false step path files ≡ ok source
      → IsSource files source
  unfolding checked_raster is_supported_raster
  checked_raster-IsSource step path source h =
      let (supported, same) =
        test-ok (is_supported_raster files path) (invalid_raster step path) h in
      as_it_is files path source (supported-there files path supported) same

  raster-IsSource :
      (source : FilePath × Files)
      → resolve_raster_source working_dir false node references files ≡ ok source
      → IsSource files source
  unfolding resolve_raster_source
  raster-IsSource source h = elim (Option-cases (raster_candidate node references)) [
    | inl none_there ↦
        let wrong : err (no_raster_source _) ≡ ok source =
          rw (resolve_raster_source, none_there) at h in
        cc
    | inr ((path, explicit), found) ↦
        checked_raster-IsSource _ path source (rw (resolve_raster_source, found) at h)
  ]

  vector-IsSource :
      (source : FilePath × Files)
      → resolve_vector_source working_dir false node references files ≡ ok source
      → IsSource files source
  unfolding resolve_vector_source
  vector-IsSource source h = elim (Option-cases (vector_candidate node references)) [
    | inl none_there ↦
        let wrong : err (no_vector_source _) ≡ ok source =
          rw (resolve_vector_source, none_there) at h in
        cc
    | inr ((path, explicit), found) ↦
        let (there, same) =
          test-ok (files.exists path) (no_vector_source _)
            (rw (resolve_vector_source, found) at h) in
        as_it_is files path source there same
  ]

-- The output of an input node has a file.
pub record IsPublished (references : References) (node : OperationNode) : Type 0 where
  pub raster :
      str_eq node.op_name "input.upload_raster" ≡ true
      → has (output_ref "raster" "uploaded_raster" node) references ≡ true
  pub vector :
      str_eq node.op_name "input.upload_vector" ≡ true
      → has (output_ref "vector" "uploaded_vector" node) references ≡ true

-- What holds of the inputs when the nodes `done` are looked at: every reference is a file that is
-- there, the input nodes among them have one, and nothing is written.
pub record Known (files : Files) (done : List OperationNode) (inputs : Inputs) : Type 0 where
  pub unwritten : inputs.files ≡ files
  pub all_there : All (There files) inputs.references
  pub published : (n : OperationNode) → Memᴰ n done → IsPublished inputs.references n

module _ (working_dir : String) (node : OperationNode) (inputs : Inputs) where
  data NodeCase (inputs' : Inputs) : Type 0 where
    raster_input :
        (source : FilePath × Files)
        → str_eq node.op_name "input.upload_raster" ≡ true
        → IsSource inputs.files source
        → publish (output_ref "raster" "uploaded_raster" node) inputs.references source ≡ inputs'
        → NodeCase inputs'
    vector_input :
        (source : FilePath × Files)
        → str_eq node.op_name "input.upload_raster" ≡ false
        → str_eq node.op_name "input.upload_vector" ≡ true
        → IsSource inputs.files source
        → publish (output_ref "vector" "uploaded_vector" node) inputs.references source ≡ inputs'
        → NodeCase inputs'
    no_input :
        str_eq node.op_name "input.upload_raster" ≡ false
        → str_eq node.op_name "input.upload_vector" ≡ false
        → inputs ≡ inputs'
        → NodeCase inputs'

  the_case :
      (inputs' : Inputs) → preflight_node working_dir node inputs ≡ ok inputs' → NodeCase inputs'
  unfolding preflight_node
  the_case inputs' h = elim (Bool-cases (str_eq node.op_name "input.upload_raster")) [
    | inl raster ↦
        let (source, same, found) =
          bind-ok (resolve_raster_source working_dir false node inputs.references inputs.files) _
            (rw (preflight_node, raster) at h) in
        raster_input source raster
          (raster-IsSource working_dir node inputs.references inputs.files source found) cc
    | inr no_raster ↦ elim (Bool-cases (str_eq node.op_name "input.upload_vector")) [
      | inl vector ↦
          let (source, same, found) =
            bind-ok (resolve_vector_source working_dir false node inputs.references inputs.files) _
              (rw (preflight_node, no_raster, vector) at h) in
          vector_input source no_raster vector
            (vector-IsSource working_dir node inputs.references inputs.files source found) cc
      | inr no_vector ↦
          let same : ok inputs ≡ ok inputs' = rw (preflight_node, no_raster, no_vector) at h in
          no_input no_raster no_vector cc
    ]
  ]

or_there : (b c : Bool) → c ≡ true → (if b then true else c) ≡ true
or_there true c h = refl
or_there false c h = h

-- Another reference does not take an old one away.
has_kept :
    (j k : String) (path : FilePath) (references : References)
    → has j references ≡ true
    → has j (insert k path references) ≡ true
has_kept j k path references h =
    has-insert k j path references ∙ or_there (str_eq k j) (has j references) h

kept_published :
    (k : String) (path : FilePath) (references : References) (n : OperationNode)
    → IsPublished references n
    → IsPublished (insert k path references) n
kept_published k path references n p = record {
  raster = λ is_raster. has_kept _ k path references (p.raster is_raster);
  vector = λ is_vector. has_kept _ k path references (p.vector is_vector);
}

not_both :
    (op : String)
    → str_eq op "input.upload_raster" ≡ true
    → ¬ (str_eq op "input.upload_vector" ≡ true)
not_both op is_raster is_vector =
    let wrong : str_eq "input.upload_raster" "input.upload_vector" ≡ true =
      subst (λ o. str_eq o "input.upload_vector" ≡ true)
        ((eq_iff op "input.upload_raster").0 is_raster) is_vector in
    cc

new_there :
    (k : String) (path : FilePath) (references : References)
    → has k (insert k path references) ≡ true
new_there k path references = has-insert k k path references ∙ ground (arith, eq_iff k k)

module _ (working_dir : String) (files : Files) where
  publish-Known :
      (done : List OperationNode) (node : OperationNode) (inputs : Inputs) (k : String)
      (source : FilePath × Files)
      → IsSource inputs.files source
      → Known files done inputs
      → IsPublished (insert k source.0 inputs.references) node
      → Known files (node ∷ done) (publish k inputs.references source)
  publish-Known done node inputs k source is_source known now = record {
    unwritten = is_source.unwritten ∙ known.unwritten;
    all_there =
        insert-There files k source.0 inputs.references
          (ap (λ (f : Files). f.exists source.0) (sym known.unwritten) ∙ is_source.there)
          known.all_there;
    published = λ n. from n;
  }
    where
      from :
          (n : OperationNode)
          → Memᴰ n (node ∷ done)
          → IsPublished (insert k source.0 inputs.references) n
      from n (Memᴰ.head e) = subst (IsPublished (insert k source.0 inputs.references)) (sym e) now
      from n (Memᴰ.tail m) = kept_published k source.0 inputs.references n (known.published n m)

  step-Known :
      (done : List OperationNode) (node : OperationNode) (inputs inputs' : Inputs)
      → NodeCase working_dir node inputs inputs'
      → Known files done inputs
      → Known files (node ∷ done) inputs'
  step-Known done node inputs inputs' (raster_input source is_raster is_source e) known =
      subst (Known files (node ∷ done)) e (
        publish-Known done node inputs _ source is_source known (record {
          raster = λ _.
              new_there (output_ref "raster" "uploaded_raster" node) source.0 inputs.references;
          vector = λ is_vector. absurd (not_both node.op_name is_raster is_vector);
        }))
  step-Known done node inputs inputs' (vector_input source no_raster is_vector is_source e) known =
      subst (Known files (node ∷ done)) e (
        publish-Known done node inputs _ source is_source known (record {
          raster = λ is_raster. absurd (ground arith);
          vector = λ _.
              new_there (output_ref "vector" "uploaded_vector" node) source.0 inputs.references;
        }))
  step-Known done node inputs inputs' (no_input no_raster no_vector e) known =
      subst (Known files (node ∷ done)) e (record {
        unwritten = known.unwritten;
        all_there = known.all_there;
        published = λ n. from n;
      })
    where
      from : (n : OperationNode) → Memᴰ n (node ∷ done) → IsPublished inputs.references n
      from n (Memᴰ.head e) =
          rw e (record { raster = λ h. absurd (ground arith); vector = λ h. absurd (ground arith) })
      from n (Memᴰ.tail m) = known.published n m

  Executed-Known :
      {done : List OperationNode} {final : Inputs}
      → Executed (preflight_node working_dir) (record { references = []; files = files }) done final
      → Known files done final
  Executed-Known nothing_yet = record {
    unwritten = refl;
    all_there = tt;
    published = λ n there. elim there [ ];
  }
  Executed-Known {final = final} (executed {done} {before} node before_it deps returned) =
      step-Known done node before final (the_case working_dir node before final returned)
        (Executed-Known before_it)

  -- If the preflight of nodes with distinct step ids passes, then every reference it makes is a file
  -- that is there, every input node has published its reference, and no file has been written: the
  -- preflight takes no default file for a source.
  pub preflight-Known :
      (nodes : List OperationNode) (final : Inputs)
      → distinct (step_ids nodes) ≡ true
      → preflight_inputs working_dir nodes files ≡ some (completed final)
      → Known files nodes final
  unfolding preflight_inputs
  preflight-Known nodes final unique passes = elim (Bool-cases (is_empty nodes)) [
    | inl none_there ↦
        let wrong : some empty_plan ≡ some (completed final) =
          rw (preflight_inputs, run_nodes, none_there) at passes in
        cc
    | inr some_there ↦
        let start : Inputs = record { references = []; files = files } in
        let (e, ends, runs) =
          run_nodes-RunsTo (preflight_node working_dir) start nodes unique some_there in
        let same : e ≡ completed final = cc in
        over nodes final (subst (RunsTo (preflight_node working_dir) start nodes) same runs)
  ]
    where
      over :
          (ns : List OperationNode) (inputs : Inputs)
          → RunsTo
              (preflight_node working_dir)
              (record { references = []; files = files })
              ns
              (completed inputs)
          → Known files ns inputs
      over ns inputs (all_executed done split reached) =
          let known = Executed-Known reached in
          record {
            unwritten = known.unwritten;
            all_there = known.all_there;
            published = λ n there. known.published n (Mem-Perm (Permᴰ.symm split) there);
          }
