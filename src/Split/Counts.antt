-- ===== src/Split/Counts.antt =====
-- What the counting loop of `_candidate` of splits/selection.py counts.
use schema_guard.Base.{
  ℕ, ◌+◌, Bool, true, false, ◌&&◌, if◌then◌else◌, eqb, Option, none, some, List, [], ◌∷◌, String,
  ◌≡◌, arith, ok, found, >>=-eq-ok, ok-injective,
}
use schema_guard.Base.Dict.{Dict, lookup}
use schema_guard.Split.Candidate.{
  Partition, train, calibration, test, part, tally_get, bump, Tally, Counts, count_row, count_rows,
}

abbrev pub same_partition : Partition → Partition → Bool
same_partition train train = true
same_partition calibration calibration = true
same_partition test test = true
same_partition train calibration = false
same_partition train test = false
same_partition calibration train = false
same_partition calibration test = false
same_partition test train = false
same_partition test calibration = false

abbrev pub is_label : Partition → Option Partition → Bool
is_label p none = false
is_label p (some q) = same_partition q p

abbrev pub is_code : ℕ → Option ℕ → Bool
is_code code none = false
is_code code (some c) = eqb c code

-- The number of rows that pass a test.
abbrev pub count_if : (String → Bool) → List String → ℕ
count_if p [] = 0
count_if p (r ∷ rs) = (if p r then 1 else 0) + count_if p rs

-- The number of rows with a label, and with a label and a class.
abbrev pub members : Dict Partition → Partition → List String → ℕ
members labels p = count_if (λ r. is_label p (lookup r labels))

abbrev pub class_members : Dict Partition → Dict ℕ → Partition → ℕ → List String → ℕ
class_members labels targets p code =
    count_if (λ r. is_label p (lookup r labels) && is_code code (lookup r targets))

tally_get-bump :
    (code k : ℕ) (t : Tally)
    → tally_get k (bump code t) ≡ (if eqb code k then 1 else 0) + tally_get k t
unfolding tally_get bump
tally_get-bump code k [] = ground arith
tally_get-bump code k ((c, n) ∷ t) = ground (arith, tally_get-bump code k t)

part-count_row :
    (p q : Partition) (code : ℕ) (c : Counts)
    → part p (count_row q code c).counts ≡ (if same_partition q p then 1 else 0) + part p c.counts
unfolding count_row
part-count_row train train code c = omega arith
part-count_row train calibration code c = omega arith
part-count_row train test code c = omega arith
part-count_row calibration train code c = omega arith
part-count_row calibration calibration code c = omega arith
part-count_row calibration test code c = omega arith
part-count_row test train code c = omega arith
part-count_row test calibration code c = omega arith
part-count_row test test code c = omega arith

class-count_row :
    (p q : Partition) (code k : ℕ) (c : Counts)
    → tally_get k (part p (count_row q code c).class_counts)
      ≡ (if same_partition q p && eqb code k then 1 else 0) + tally_get k (part p c.class_counts)
unfolding count_row
class-count_row train train code k c = tally_get-bump code k c.class_counts.of_train
class-count_row train calibration code k c = omega arith
class-count_row train test code k c = omega arith
class-count_row calibration train code k c = omega arith
class-count_row calibration calibration code k c =
    tally_get-bump code k c.class_counts.of_calibration
class-count_row calibration test code k c = omega arith
class-count_row test train code k c = omega arith
class-count_row test calibration code k c = omega arith
class-count_row test test code k c = tally_get-bump code k c.class_counts.of_test

pub found-eq-ok {ℓ} : {A : Type ℓ} (o : Option A) {a : A} → found o ≡ ok a → o ≡ some a
found-eq-ok none h = cc
found-eq-ok (some b) h = cc

module _ (labels : Dict Partition) (targets : Dict ℕ) where
  -- The loop counts the rows by their label, and by label and class.
  pub count_rows_lem :
      (rs : List String) (c d : Counts)
      → count_rows labels targets rs c ≡ ok d
      → ((p : Partition) → part p d.counts ≡ members labels p rs + part p c.counts)
        × ((p : Partition) (code : ℕ)
            → tally_get code (part p d.class_counts)
              ≡ class_members labels targets p code rs + tally_get code (part p c.class_counts))
  unfolding count_rows
  count_rows_lem [] c d h =
      let e = ok-injective h in rw (← e) (λ p. omega arith, λ p code. omega arith)
  count_rows_lem (r ∷ rs) c d h =
      let (q, labelled, rest) = >>=-eq-ok _ _ h in
      let (k, coded, counted) = >>=-eq-ok _ _ rest in
      let (sizes, classes) = count_rows_lem rs (count_row q k c) d counted in
      let l = found-eq-ok (lookup r labels) labelled in
      let t = found-eq-ok (lookup r targets) coded in
      (
        λ p. rw l (omega (arith, sizes p, part-count_row p q k c)),
        λ p code. rw (l, t) (omega (arith, classes p code, class-count_row p q k code c)),
      )
