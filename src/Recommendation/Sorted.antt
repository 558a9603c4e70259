-- ===== src/Recommendation/Sorted.antt =====
-- The names of the candidates in their order.
use gis_agent.Prelude.{
  String, true, ◌||◌, List, [], ◌∷◌, mem, distinct, str_eq, eq_iff, arith, ◌≡◌, refl, Bool-cases,
  inl, inr,
}
use gis_agent.Recommendation.{Candidate, precedes, put, sorted, names}

mem-put :
    (x : String) (c : Candidate) (cs : List Candidate)
    → mem x (names (put c cs)) ≡ (str_eq x c.dataset_name || mem x (names cs))
unfolding put mem
mem-put x c [] = refl
mem-put x c (d ∷ ds) = elim (Bool-cases (precedes c d)) [
  | inl before ↦ rw before refl
  | inr behind ↦ rw behind (ground (arith, mem-put x c ds))
]

pub mem-sorted : (x : String) (cs : List Candidate) → mem x (names (sorted cs)) ≡ mem x (names cs)
unfolding sorted mem
mem-sorted x [] = refl
mem-sorted x (c ∷ cs) = ground (arith, mem-put x c (sorted cs), mem-sorted x cs)

distinct-put :
    (c : Candidate) (cs : List Candidate)
    → distinct (names (put c cs)) ≡ distinct (c.dataset_name ∷ names cs)
unfolding put mem distinct
distinct-put c [] = refl
distinct-put c (d ∷ ds) = elim (Bool-cases (precedes c d)) [
  | inl before ↦ rw before refl
  | inr behind ↦ rw behind (
      ground (
        arith,
        mem-put d.dataset_name c ds,
        distinct-put c ds,
        eq_iff c.dataset_name d.dataset_name,
        eq_iff d.dataset_name c.dataset_name,
      ))
]

pub distinct-sorted :
    (cs : List Candidate) → distinct (names cs) ≡ true → distinct (names (sorted cs)) ≡ true
unfolding sorted distinct
distinct-sorted [] h = refl
distinct-sorted (c ∷ cs) h =
    ground (arith, distinct-put c (sorted cs), mem-sorted c.dataset_name cs, distinct-sorted cs)

-- Candidates in their order are some, where there are some.
pub put-filled :
    (c : Candidate) (cs : List Candidate)
    → (d : Candidate) × (ds : List Candidate) × (put c cs ≡ d ∷ ds)
unfolding put
put-filled c [] = (c, [], refl)
put-filled c (d ∷ ds) = elim (Bool-cases (precedes c d)) [
  | inl before ↦ (c, d ∷ ds, rw before refl)
  | inr behind ↦ (d, put c ds, rw behind refl)
]
