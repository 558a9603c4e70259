-- ===== src/ResponsePolicy/Within.antt =====
-- The fields that the parts of packages/domain/services/response_policy.py pick.
use gis_agent.Prelude.{
  String, Bool, true, false, Option, none, some, List, [], ◌∷◌, keep, all, is_empty, mem, ◌≡◌, refl,
  sym, ap, ◌∙◌, inl, inr, if◌then◌else◌, All, ◌⊎◌,
}
use gis_agent.Prelude.Sublists.{keep-All, kept}
use gis_agent.PlanGuard.Graph.Sets.{All-of_mem}
use gis_agent.Prelude.Result.{Result, ok, bind-ok}
use gis_agent.Prelude.Dict.{Dict}
use gis_agent.Value.{Value}
use gis_agent.Analysis.{
  UnknownAnalysisType, normalize_analysis_type, analysis_type_requires_time_range,
}
use gis_agent.ResponsePolicy.{
  Understanding, Revision, Level, low, medium, high, is_low, is_medium, is_high, ParsedSpec,
  parser_missing_fields, key_fields, required_fields, analysis_type, editable_fields_for_revision,
  editable_fields_from_revision, spec_missing, or_all, editable_of_raw, editable_of_spec,
  editable_of,
}

-- Whether the mode asks the user for something.
or_all-All :
    (P : String → Type 0) (xs ys : List String) → All P xs → All P ys → All P (or_all xs ys)
or_all-All P [] ys h k = k
or_all-All P (x ∷ xs) ys h k = h

or_all-filled : (xs ys : List String) → is_empty ys ≡ false → is_empty (or_all xs ys) ≡ false
or_all-filled [] ys h = h
or_all-filled (x ∷ xs) ys h = refl

Level-cases : (l : Level) → (l ≡ low) ⊎ (l ≡ medium) ⊎ (l ≡ high)
Level-cases low = inl refl
Level-cases medium = inr (inl refl)
Level-cases high = inr (inr refl)

pub levels_exhausted :
    (f : String → Level) (xs : List String)
    → is_empty (keep (λ x. is_low (f x)) xs) ≡ true
    → is_empty (keep (λ x. is_medium (f x)) xs) ≡ true
    → all (λ x. is_high (f x)) xs ≡ true
levels_exhausted f [] h k = refl
levels_exhausted f (x ∷ xs) h k = elim (Level-cases (f x)) [
  | inl e ↦ let wrong : false ≡ true = rw e at h in cc
  | inr (inl e) ↦ let wrong : false ≡ true = rw e at k in cc
  | inr (inr e) ↦ rw e (levels_exhausted f xs (rw e at h) (rw e at k))
]

abbrev returns : List String → Result UnknownAnalysisType (List String)
returns xs = ok xs

pub required-filled :
    (u : Understanding) (active : Option Revision) (required : List String)
    → required_fields u active ≡ ok required
    → is_empty required ≡ false
unfolding required_fields
required-filled u active required h =
    let (type, h1, known) = bind-ok (normalize_analysis_type (analysis_type u active)) _ h in
    either (analysis_type_requires_time_range type) h1
  where
    of_list :
        (xs : List String)
        → is_empty xs ≡ false
        → returns xs ≡ ok required
        → is_empty required ≡ false
    of_list xs filled e = let same : xs ≡ required = cc in ap is_empty (sym same) ∙ filled

    either :
        (b : Bool)
        → returns (if b then key_fields else "aoi_input" ∷ "aoi_source_type" ∷ "analysis_type" ∷ [])
          ≡ ok required
        → is_empty required ≡ false
    either true e = of_list key_fields refl e
    either false e = of_list _ refl e

module _ (u : Understanding) (active : Option Revision) (required : List String) where
  abbrev pub Within : List String → Type 0
  Within fields = All (λ field. mem field required ≡ true) fields

  pub all-Within : Within required
  all-Within = All-of_mem required (λ field there. there)

  pub kept-Within : (p : String → Bool) → Within (keep p required)
  kept-Within p = keep-All _ p required all-Within

  pub missing-Within : Within (parser_missing_fields u required)
  unfolding parser_missing_fields
  missing-Within = of_spec u.parsed_spec
    where
      of_spec : (o : Option ParsedSpec) → Within (spec_missing o required)
      of_spec none = tt
      of_spec (some spec) = kept (λ field. mem field required) spec.missing_fields

  pub revision-Within : (r : Revision) → Within (editable_fields_from_revision r required)
  unfolding editable_fields_from_revision
  revision-Within r = of_raw r.raw_spec
    where
      of_raw : (o : Option (Dict Value)) → Within (editable_of_raw o required)
      of_raw none = all-Within
      of_raw (some d) = or_all-All _ _ required (kept-Within _) all-Within

  pub revision_filled :
      (r : Revision)
      → is_empty required ≡ false
      → is_empty (editable_fields_from_revision r required) ≡ false
  unfolding editable_fields_from_revision
  revision_filled r filled = of_raw r.raw_spec
    where
      of_raw : (o : Option (Dict Value)) → is_empty (editable_of_raw o required) ≡ false
      of_raw none = filled
      of_raw (some d) = or_all-filled _ required filled

  pub editable-Within : Within (editable_fields_for_revision u active required)
  unfolding editable_fields_for_revision
  editable-Within = of_active active
    where
      of_spec : (o : Option ParsedSpec) → Within (editable_of_spec o required)
      of_spec none = all-Within
      of_spec (some spec) = or_all-All _ _ required (kept-Within _) all-Within

      of_active : (o : Option Revision) → Within (editable_of u o required)
      of_active none = of_spec u.parsed_spec
      of_active (some r) = revision-Within r

  pub editable_filled :
      is_empty required ≡ false → is_empty (editable_fields_for_revision u active required) ≡ false
  unfolding editable_fields_for_revision
  editable_filled filled = of_active active
    where
      of_spec : (o : Option ParsedSpec) → is_empty (editable_of_spec o required) ≡ false
      of_spec none = filled
      of_spec (some spec) = or_all-filled _ required filled

      of_active : (o : Option Revision) → is_empty (editable_of u o required) ≡ false
      of_active none = of_spec u.parsed_spec
      of_active (some r) = revision_filled r filled
