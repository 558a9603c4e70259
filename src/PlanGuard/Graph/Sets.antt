-- ===== src/PlanGuard/Graph/Sets.antt =====
-- Lemmas on the lists that stand for Python's sets of step ids, and on the keys of a graph.
use gis_agent.Prelude.{
  ℕ, ◌+◌, ◌≤◌, ◌<◌, String, Bool, true, false, ◌||◌, List, [], ◌∷◌, ◌++◌, length, mem, distinct,
  str_eq, eq_iff, if◌then◌else◌, arith, ◌≡◌, refl, All, ◌⊎◌, inl, inr, dedup_from, Bool-cases,
  or_left, or_right, subst, sym,
}
use mathlib.Core.List.{reverse, reverse-append}
use gis_agent.Prelude.Dict.{lookup, keys}
use gis_agent.PlanGuard.Graph.{Graph, dependencies, discard}

pub mem-cons_self : (x : String) (xs : List String) → mem x (x ∷ xs) ≡ true
unfolding mem
mem-cons_self x xs = ground (arith, eq_iff x x)

pub mem-cons_of_mem : (x y : String) (xs : List String) → mem x xs ≡ true → mem x (y ∷ xs) ≡ true
unfolding mem
mem-cons_of_mem x y xs h = ground (arith, eq_iff x y)

-- A member of `y ∷ xs` is `y` or a member of `xs`.
pub mem-cons_cases :
    (x y : String) (xs : List String) → mem x (y ∷ xs) ≡ true → (x ≡ y) ⊎ (mem x xs ≡ true)
unfolding mem
mem-cons_cases x y xs h = ground (arith, eq_iff x y)

-- What holds of all members holds of each.
pub mem-All {κ} :
    (P : String → Type κ) (xs : List String) (x : String) → All P xs → mem x xs ≡ true → P x
unfolding mem
mem-All P [] x h there = cc
mem-All P (y ∷ ys) x h there = elim (mem-cons_cases x y ys there) [
  | inl same ↦ subst P (sym same) h.0
  | inr later ↦ mem-All P ys x h.1 later
]

pub mem-append : (x : String) (xs ys : List String) → mem x (xs ++ ys) ≡ (mem x xs || mem x ys)
unfolding mem
mem-append x [] ys = refl
mem-append x (y ∷ xs) ys = ground (arith, mem-append x xs ys)

pub discard_absent : (k : String) (xs : List String) → mem k xs ≡ false → discard k xs ≡ xs
unfolding discard mem
discard_absent k [] h = refl
discard_absent k (x ∷ xs) h =
    ground (arith, eq_iff k x, eq_iff x k, discard_absent k xs (ground (arith, eq_iff k x)))

-- What was put on the trail is taken off it.
pub discard_pushed : (k : String) (xs : List String) → mem k xs ≡ false → discard k (k ∷ xs) ≡ xs
unfolding discard
discard_pushed k xs h = ground (arith, eq_iff k k, discard_absent k xs h)

module _ {ℓ} {P : String → Type ℓ} where
  pub All-of_mem : (xs : List String) → ((x : String) → mem x xs ≡ true → P x) → All P xs
  All-of_mem [] f = tt
  All-of_mem (x ∷ xs) f =
      (f x (mem-cons_self x xs), All-of_mem xs (λ y h. f y (mem-cons_of_mem y x xs h)))

pub mem_of_All :
    (P : String → Bool) (x : String) (xs : List String)
    → All (λ y. P y ≡ true) xs
    → mem x xs ≡ true
    → P x ≡ true
unfolding mem
mem_of_All P x [] a h = ground arith
mem_of_All P x (y ∷ xs) a h = elim (mem-cons_cases x y xs h) [
  | inl e ↦ cc (e, a.0)
  | inr m ↦ mem_of_All P x xs a.1 m
]

-- How many of `xs` are not in `seen`.
unfoldable pub absent : List String → List String → ℕ
unfolding mem
absent [] seen = 0
absent (x ∷ xs) seen = (if mem x seen then 0 else 1) + absent xs seen

pub absent-nil : (xs : List String) → absent xs [] ≡ length xs
unfolding absent
absent-nil [] = refl
absent-nil (x ∷ xs) = omega (arith, absent-nil xs)

pub absent-cons-le : (k : String) (xs seen : List String) → absent xs (k ∷ seen) ≤ absent xs seen
unfolding absent mem
absent-cons-le k [] seen = omega arith
absent-cons-le k (x ∷ xs) seen = ground (arith, absent-cons-le k xs seen)

pub absent-cons-lt :
    (k : String) (xs seen : List String)
    → mem k xs ≡ true
    → mem k seen ≡ false
    → absent xs (k ∷ seen) < absent xs seen
unfolding absent mem
absent-cons-lt k [] seen h n = ground arith
absent-cons-lt k (x ∷ xs) seen h n = elim (mem-cons_cases k x xs h) [
  | inl e ↦ ground (arith, absent-cons-le k xs seen, eq_iff x k)
  | inr m ↦ ground (arith, absent-cons-lt k xs seen m n)
]

pub length-keys : (g : Graph) → length (keys g) ≡ length g
length-keys [] = refl
length-keys ((k, deps) ∷ g) = omega (arith, length-keys g)

-- A step that is no key of the graph depends on nothing.
pub dependencies_of_absent :
    (k : String) (g : Graph) → mem k (keys g) ≡ false → dependencies g k ≡ []
unfolding dependencies mem lookup
dependencies_of_absent k [] h = refl
dependencies_of_absent k ((j, deps) ∷ g) h =
    ground (arith, eq_iff k j, eq_iff j k, dependencies_of_absent k g)

-- How often `x` stands in a list.
unfoldable pub count : String → List String → ℕ
count x [] = 0
count x (y ∷ ys) = (if str_eq x y then 1 else 0) + count x ys

pub count-append : (x : String) (xs ys : List String) → count x (xs ++ ys) ≡ count x xs + count x ys
unfolding count
count-append x [] ys = omega arith
count-append x (y ∷ xs) ys = omega (arith, count-append x xs ys)

pub count_pos : (x : String) (xs : List String) → mem x xs ≡ true → 1 ≤ count x xs
unfolding count mem
count_pos x [] h = ground arith
count_pos x (y ∷ ys) h = ground (arith, count_pos x ys)

pub mem_of_count : (x : String) (xs : List String) → 1 ≤ count x xs → mem x xs ≡ true
unfolding count mem
mem_of_count x [] h = ground arith
mem_of_count x (y ∷ ys) h = ground (arith, mem_of_count x ys)

-- Putting `k` among the seen takes its occurrences off the absent ones.
pub absent-cons :
    (k : String) (xs seen : List String)
    → mem k seen ≡ false
    → absent xs (k ∷ seen) + count k xs ≡ absent xs seen
unfolding absent count mem
absent-cons k [] seen h = omega arith
absent-cons k (x ∷ xs) seen h = ground (arith, absent-cons k xs seen h, eq_iff x k, eq_iff k x)

pub absent_zero : (xs seen : List String) → All (λ x. mem x seen ≡ true) xs → absent xs seen ≡ 0
unfolding absent
absent_zero [] seen h = refl
absent_zero (x ∷ xs) seen h = ground (arith, absent_zero xs seen h.1)

pub All-of_absent_zero :
    (xs seen : List String) → absent xs seen ≡ 0 → All (λ x. mem x seen ≡ true) xs
unfolding absent
All-of_absent_zero [] seen h = tt
All-of_absent_zero (x ∷ xs) seen h = (ground arith, All-of_absent_zero xs seen (ground arith))

pub distinct-snoc :
    (x : String) (xs : List String)
    → distinct xs ≡ true
    → mem x xs ≡ false
    → distinct (xs ++ x ∷ []) ≡ true
unfolding distinct mem
distinct-snoc x [] d n = refl
distinct-snoc x (y ∷ ys) d n =
    ground (arith, distinct-snoc x ys, mem-append y ys (x ∷ []), eq_iff x y, eq_iff y x)

pub mem-reverse : (x : String) (xs : List String) → mem x (reverse xs) ≡ mem x xs
unfolding mem
mem-reverse x [] = refl
mem-reverse x (y ∷ ys) =
    rw (reverse-append (y ∷ []) ys)
      (ground (arith, mem-append x (reverse ys) (y ∷ []), mem-reverse x ys))

pub distinct-reverse : (xs : List String) → distinct xs ≡ true → distinct (reverse xs) ≡ true
unfolding distinct mem
distinct-reverse [] h = refl
distinct-reverse (x ∷ xs) h = rw (reverse-append (x ∷ []) xs) (
    distinct-snoc x (reverse xs) (distinct-reverse xs (ground arith))
      (rw mem-reverse (ground arith)))

-- What is in a list is among its first occurrences, or is among those that were seen before.
pub mem-dedup :
    (x : String) (xs seen : List String)
    → mem x xs ≡ true
    → (mem x seen || mem x (dedup_from seen xs)) ≡ true
unfolding mem dedup_from
mem-dedup x [] seen h = cc
mem-dedup x (y ∷ ys) seen h = elim (Bool-cases (mem y seen)) [
  | inl old ↦
      rw (dedup_from, old)
        (elim (mem-cons_cases x y ys h) [
          | inl e ↦ or_left (mem x seen) _ (subst (λ z. mem z seen ≡ true) (sym e) old)
          | inr m ↦ mem-dedup x ys seen m
        ])
  | inr new ↦
      rw (dedup_from, new)
        (elim (mem-cons_cases x y ys h) [
          | inl e ↦ or_right (mem x seen) _ (or_left (str_eq x y) _ ((eq_iff x y).1 e))
          | inr m ↦ ground (arith, mem-dedup x ys (y ∷ seen) m)
        ])
]
