-- ===== src/Recommendation/Picked.antt =====
-- The names that packages/domain/services/recommendation.py picks from the candidates in their order.
use gis_agent.Prelude.{
  String, true, false, not, ◌&&◌, Option, none, some, List, [], ◌∷◌, mem, distinct, str_eq, eq_iff,
  ◌≡◌, refl, inl, inr, arith, Bool-cases, Option-cases, subst,
}
use gis_agent.Prelude.Text.{non_empty}
use gis_agent.PlanGuard.Graph.Sets.{mem-cons_self, mem-cons_of_mem, mem-cons_cases}
use gis_agent.Recommendation.{
  Candidate, names, take_named, first_name, pick_backup, is_candidate, primary_of, backup_of,
}

-- A second data set is a candidate other than the primary one.
abbrev pub IsOther : List String → String → Option String → Type 0
IsOther candidate_names primary none = Unit
IsOther candidate_names primary (some backup) =
    (mem backup candidate_names ≡ true) × (str_eq backup primary ≡ false)

-- The requested data set is the primary one, if it is a candidate.
abbrev pub IsObeyed : List String → String → Option String → Type 0
IsObeyed candidate_names primary none = Unit
IsObeyed candidate_names primary (some requested) =
    mem requested candidate_names ≡ true → primary ≡ requested

pub first_name-IsOther :
    (candidate_names : List String) (primary : String) (cs : List Candidate)
    → ((b : String) → mem b (names cs) ≡ true → IsOther candidate_names primary (some b))
    → IsOther candidate_names primary (first_name cs)
first_name-IsOther candidate_names primary [] h = tt
first_name-IsOther candidate_names primary (c ∷ cs) h =
    h c.dataset_name (mem-cons_self c.dataset_name (names cs))

same_some : {A : Type 0} {a b : A} → some a ≡ some b → a ≡ b
same_some h = cc

-- A name behind the first of distinct ones is another one.
pub behind_first :
    (c : Candidate) (cs : List Candidate)
    → distinct (names (c ∷ cs)) ≡ true
    → (b : String) → mem b (names cs) ≡ true
    → IsOther (names (c ∷ cs)) c.dataset_name (some b)
unfolding distinct
behind_first c cs unique b m = (
  mem-cons_of_mem b c.dataset_name (names cs) m,
  ground (arith, unique, m, eq_iff b c.dataset_name),
)

pub take_named-absent :
    (name : String) (cs : List Candidate) → take_named name cs ≡ none → mem name (names cs) ≡ false
unfolding take_named mem
take_named-absent name [] h = refl
take_named-absent name (c ∷ cs) h = elim (Bool-cases (str_eq c.dataset_name name)) [
  | inl here ↦
      let wrong : ◌≡◌ {A = Option (Candidate × List Candidate)} (some (c, cs)) none =
        rw (take_named, here) at h in
      cc
  | inr away ↦ elim (Option-cases (take_named name cs)) [
    | inl absent ↦ ground (
      arith,
      away,
      eq_iff c.dataset_name name,
      eq_iff name c.dataset_name,
      take_named-absent name cs absent,
    )
    | inr (found, there) ↦
        let wrong : ◌≡◌ {A = Option (Candidate × List Candidate)} (some (found.0, c ∷ found.1))
            none =
          rw (take_named, away, there) at h in
        cc
  ]
]

-- What is left when the candidate of a name is taken out.
pub record IsTaken (name : String) (cs : List Candidate) (found : Candidate × List Candidate)
    : Type 0 where
  pub same_name : found.0.dataset_name ≡ name
  pub was_there : mem name (names cs) ≡ true
  pub others :
      (b : String)
      → mem b (names found.1) ≡ true
      → (mem b (names cs) ≡ true) × (str_eq b name ≡ false)

pub take_named-IsTaken :
    (name : String) (cs : List Candidate) (found : Candidate × List Candidate)
    → distinct (names cs) ≡ true
    → take_named name cs ≡ some found
    → IsTaken name cs found
unfolding take_named mem distinct
take_named-IsTaken name [] found unique h = cc
take_named-IsTaken name (c ∷ cs) found unique h = elim (Bool-cases (str_eq c.dataset_name name)) [
  | inl here ↦
      let e : some (c, cs) ≡ some found = rw (take_named, here) at h in
      subst (IsTaken name (c ∷ cs)) (same_some e) (record {
        same_name = (eq_iff c.dataset_name name).0 here;
        was_there = ground (arith, here, eq_iff c.dataset_name name, eq_iff name c.dataset_name);
        others = λ b m.
            (ground arith, ground (arith, unique, here, eq_iff c.dataset_name name, eq_iff b name));
      })
  | inr away ↦ elim (Option-cases (take_named name cs)) [
    | inl absent ↦ let wrong : none ≡ some found = rw (take_named, away, absent) at h in cc
    | inr (later, there) ↦
        let e : some (later.0, c ∷ later.1) ≡ some found = rw (take_named, away, there) at h in
        let taken = take_named-IsTaken name cs later (ground arith) there in
        subst (IsTaken name (c ∷ cs)) (same_some e) (record {
          same_name = taken.same_name;
          was_there = ground (arith, taken.was_there);
          others = λ b m. elim (mem-cons_cases b c.dataset_name (names later.1) m) [
            | inl first ↦ (
              ground (arith, eq_iff b c.dataset_name, first),
              ground (arith, first, away, eq_iff b name, eq_iff c.dataset_name name),
            )
            | inr rest ↦
                let (kept, different) = taken.others b rest in (ground (arith, kept), different)
          ];
        })
  ]
]

IsOther-cons :
    (name primary : String) (candidate_names : List String) (backup : Option String)
    → IsOther candidate_names primary backup
    → IsOther (name ∷ candidate_names) primary backup
IsOther-cons name primary candidate_names none h = tt
IsOther-cons name primary candidate_names (some backup) h =
    (mem-cons_of_mem backup name candidate_names h.0, h.1)

pick_backup-IsOther :
    (cs : List Candidate) (primary : String) → IsOther (names cs) primary (pick_backup cs primary)
unfolding pick_backup
pick_backup-IsOther [] primary = tt
pick_backup-IsOther (c ∷ cs) primary =
    elim (Bool-cases (non_empty c.dataset_name && not (str_eq c.dataset_name primary))) [
      | inl picked ↦ rw picked (mem-cons_self c.dataset_name (names cs), ground arith)
      | inr passed ↦ rw passed (
          IsOther-cons c.dataset_name primary (names cs) (pick_backup cs primary)
            (pick_backup-IsOther cs primary))
    ]

pub backup_of-IsOther :
    (ordered : List Candidate) (primary : String) (asked : Option String)
    → is_candidate (names ordered) asked ≡ true
    → IsOther (names ordered) primary (backup_of ordered primary asked)
unfolding backup_of is_candidate
backup_of-IsOther ordered primary none h = pick_backup-IsOther ordered primary
backup_of-IsOther ordered primary (some asked) h = elim (Bool-cases (str_eq asked primary)) [
  | inl same ↦ rw same (pick_backup-IsOther ordered primary)
  | inr different ↦ rw different (h, different)
]

pub primary_of-among :
    (candidate_names : List String) (requested : Option String) (asked : String)
    → mem asked candidate_names ≡ true
    → mem (primary_of candidate_names requested asked) candidate_names ≡ true
unfolding primary_of
primary_of-among candidate_names none asked h = h
primary_of-among candidate_names (some requested) asked h =
    elim (Bool-cases (mem requested candidate_names)) [
      | inl known ↦ rw known known
      | inr unknown ↦ rw unknown h
    ]

pub primary_of-IsObeyed :
    (candidate_names : List String) (requested : Option String) (asked : String)
    → IsObeyed candidate_names (primary_of candidate_names requested asked) requested
unfolding primary_of
primary_of-IsObeyed candidate_names none asked = tt
primary_of-IsObeyed candidate_names (some requested) asked = λ known. rw known refl
