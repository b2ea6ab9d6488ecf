-- ===== src/Pilot/Schedule/Occurrences.antt =====
-- How often the identifiers of the records occur, data set by data set: for the stages of
-- `build_staged_schedule` of experiments/pilot_planning.py.
use schema_guard.Hashing.{sort_texts, insert_text}
use schema_guard.Base.{
  ℕ, ◌+◌, ◌<◌, true, if◌then◌else◌, eqb, List, [], ◌∷◌, ◌++◌, map, String, ◌==◌, ◌≡◌, refl, ap, ◌∙◌,
  arith, Bool-cases, inl, inr, All,
}
use schema_guard.Base.Counting.{member}
use schema_guard.Pilot.Condition.{PlannedCondition}
use schema_guard.Pilot.Inventory.{condition_ids, count_where, is_ascending}
use schema_guard.Pilot.Schedule.{pairs, concat}
use schema_guard.Pilot.Schedule.Stages.{of_dataset}

-- How often a text is in a list.
unfoldable pub occurrences : String → List String → ℕ
occurrences s = count_where (λ t. t == s)

pub occurrences-append :
    (s : String) (ts us : List String)
    → occurrences s (ts ++ us) ≡ occurrences s ts + occurrences s us
unfolding occurrences count_where
occurrences-append s [] us = omega arith
occurrences-append s (t ∷ ts) us = ground (arith, occurrences-append s ts us)

occurrences-insert_text :
    (s t : String) (ts : List String) → occurrences s (insert_text t ts) ≡ occurrences s (t ∷ ts)
unfolding occurrences count_where insert_text
occurrences-insert_text s t [] = refl
occurrences-insert_text s t (u ∷ us) = ground (arith, occurrences-insert_text s t us)

pub occurrences-sort_texts :
    (s : String) (ts : List String) → occurrences s (sort_texts ts) ≡ occurrences s ts
unfolding sort_texts occurrences count_where
occurrences-sort_texts s [] = refl
occurrences-sort_texts s (t ∷ ts) =
    ground (arith, occurrences-insert_text s t (sort_texts ts), occurrences-sort_texts s ts)

-- The occurrences in the records of each data set of a list.
unfoldable pub total : String → List ℕ → List PlannedCondition → ℕ
total s [] cs = 0
total s (k ∷ ks) cs = occurrences s (condition_ids (of_dataset k cs)) + total s ks cs

multiplicity : ℕ → List ℕ → ℕ
multiplicity n = count_where (λ k. eqb n k)

total-nil : (s : String) (ks : List ℕ) → total s ks [] ≡ 0
unfolding total occurrences count_where of_dataset
total-nil s [] = refl
total-nil s (k ∷ ks) = omega (arith, total-nil s ks)

total-cons :
    (s : String) (ks : List ℕ) (c : PlannedCondition) (cs : List PlannedCondition)
    → total s ks (c ∷ cs)
      ≡ total s ks cs + (if c.condition_id == s then multiplicity c.dataset_id ks else 0)
unfolding total occurrences count_where of_dataset multiplicity
total-cons s [] c cs = ground arith
total-cons s (k ∷ ks) c cs = ground (arith, total-cons s ks c cs)

multiplicity_below :
    (m n : ℕ) (ks : List ℕ) → is_ascending (n ∷ ks) ≡ true → m < n → multiplicity m (n ∷ ks) ≡ 0
unfolding is_ascending multiplicity count_where
multiplicity_below m n [] h l = ground arith
multiplicity_below m n (k ∷ ks) h l =
    ground (arith, h, l, multiplicity_below m k ks (ground (arith, h)) (ground (arith, h, l)))

multiplicity-member :
    (m : ℕ) (ks : List ℕ) → is_ascending ks ≡ true → member eqb m ks ≡ true → multiplicity m ks ≡ 1
unfolding is_ascending multiplicity count_where member
multiplicity-member m [] h i = cc
multiplicity-member m (k ∷ []) h i = ground arith
multiplicity-member m (k ∷ j ∷ js) h i = elim (Bool-cases (eqb m k)) [
  | inl e ↦
      ground (arith, h, e, multiplicity_below m j js (ground (arith, h)) (ground (arith, h, e)))
  | inr e ↦
      ground
        (arith, h, i, e, multiplicity-member m (j ∷ js) (ground (arith, h)) (ground (arith, i, e)))
]

pub total-occurrences :
    (s : String) (ks : List ℕ) (cs : List PlannedCondition)
    → is_ascending ks ≡ true
    → All (λ c. member eqb c.dataset_id ks ≡ true) cs
    → total s ks cs ≡ occurrences s (condition_ids cs)
unfolding occurrences count_where
total-occurrences s ks [] h i = total-nil s ks
total-occurrences s ks (c ∷ cs) h i = ground (
  arith,
  total-cons s ks c cs,
  total-occurrences s ks cs h i.1,
  multiplicity-member c.dataset_id ks h i.0,
)

pub total-append :
    (s : String) (js ks : List ℕ) (cs : List PlannedCondition)
    → total s (js ++ ks) cs ≡ total s js cs + total s ks cs
unfolding total
total-append s [] ks cs = omega arith
total-append s (j ∷ js) ks cs = omega (arith, total-append s js ks cs)

pub concat-pairs : (ks : List ℕ) → concat (pairs ks) ≡ ks
unfolding pairs
concat-pairs [] = refl
concat-pairs (a ∷ []) = refl
concat-pairs (a ∷ b ∷ ks) = ap (λ xs. a ∷ b ∷ xs) (concat-pairs ks)

condition_ids-append :
    (cs ds : List PlannedCondition)
    → condition_ids (cs ++ ds) ≡ condition_ids cs ++ condition_ids ds
condition_ids-append [] ds = refl
condition_ids-append (c ∷ cs) ds = ap (◌∷◌ c.condition_id) (condition_ids-append cs ds)

pub occurrences-concat :
    (s : String) (cs : List PlannedCondition) (ks : List ℕ)
    → occurrences s (condition_ids (concat (map (λ k. of_dataset k cs) ks))) ≡ total s ks cs
unfolding total occurrences count_where
occurrences-concat s cs [] = refl
occurrences-concat s cs (k ∷ ks) =
    let here = of_dataset k cs in
    let later = concat (map (λ j. of_dataset j cs) ks) in
    ap (occurrences s) (condition_ids-append here later)
    ∙ occurrences-append s (condition_ids here) (condition_ids later)
    ∙ ap (λ n. occurrences s (condition_ids here) + n) (occurrences-concat s cs ks)
