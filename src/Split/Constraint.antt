-- ===== src/Split/Constraint.antt =====
-- What a valid candidate of `_candidate` of splits/selection.py is.
use schema_guard.Base.{
  ℕ, ◌<◌, ◌≤◌, Bool, true, false, ◌||◌, eqb, Option, some, List, [], ◌∷◌, length, String, ◌≡◌, refl,
  sym, subst, ap, ◌∙◌, ◌⊎◌, inl, inr, arith, eq_iff, ◌==◌, Bool-cases, In, In-cons, ok, >>=-eq-ok,
  ok-injective, some-injective,
}
use schema_guard.Base.Dict.{Dict, lookup, insert, lookup-insert}
use schema_guard.Split.Config.{Arithmetic, SplitGenerationConfig}
use schema_guard.Split.Candidate.{
  Partition, train, calibration, test, PerPartition, part, tally_get, Tally, Counts, no_counts,
  label_rows, count_rows, has_empty_partition, insert_code, target_counts, lacks_class, violates,
  Selection, valid, selection_of, judge, candidate, fold_to_partition,
}
use schema_guard.Split.Counts.{found-eq-ok, members, class_members, count_rows_lem}

abbrev has_code : ℕ → Tally → Bool
has_code code [] = false
has_code code ((c, n) ∷ t) = eqb c code || has_code code t

has_code-insert_code :
    (code k : ℕ) (t : Tally) → has_code k (insert_code code t) ≡ (eqb code k || has_code k t)
has_code-insert_code code k [] = refl
has_code-insert_code code k ((c, n) ∷ t) = ground (arith, has_code-insert_code code k t)

has_code-target_counts :
    (targets : Dict ℕ) (r : String) (code : ℕ)
    → lookup r targets ≡ some code
    → has_code code (target_counts targets) ≡ true
unfolding lookup target_counts
has_code-target_counts [] r code h = cc
has_code-target_counts ((s, k) ∷ targets) r code h = ground (
  arith,
  has_code-insert_code k code (target_counts targets),
  has_code-target_counts targets r code,
)

lacks_class-false :
    (required code : ℕ) (codes counts : Tally)
    → lacks_class required codes counts ≡ false
    → has_code code codes ≡ true
    → required ≤ tally_get code counts
unfolding lacks_class
lacks_class-false required code [] counts h k = absurd (cc)
lacks_class-false required code ((c, n) ∷ codes) counts h k =
    ground (arith, lacks_class-false required code codes counts)

violates-false :
    (required code : ℕ) (codes : Tally) (c : PerPartition Tally) (p : Partition)
    → violates required codes c ≡ false
    → has_code code codes ≡ true
    → required ≤ tally_get code (part p c)
unfolding violates
violates-false required code codes c train h k =
    lacks_class-false required code codes c.of_train (ground arith) k
violates-false required code codes c calibration h k =
    lacks_class-false required code codes c.of_calibration (ground arith) k
violates-false required code codes c test h k =
    lacks_class-false required code codes c.of_test (ground arith) k

has_empty_partition-false :
    (c : PerPartition ℕ) (p : Partition) → has_empty_partition c ≡ false → 0 < part p c
unfolding has_empty_partition
has_empty_partition-false c train h = ground arith
has_empty_partition-false c calibration h = ground arith
has_empty_partition-false c test h = ground arith

row_labelled :
    (folds : Dict ℕ) (partition_of : ℕ → Option Partition) (before : Dict Partition) (s r : String)
    (k fold : ℕ) (q p : Partition)
    → (s == r) ≡ true
    → lookup s folds ≡ some k
    → partition_of k ≡ some q
    → lookup r folds ≡ some fold
    → partition_of fold ≡ some p
    → lookup r (insert s q before) ≡ some p
row_labelled folds partition_of before s r k fold q p e g l f e_label =
    let same : s ≡ r = ground (arith, eq_iff s r) in
    let folds_same : k ≡ fold = some-injective (sym g ∙ ap (λ t. lookup t folds) same ∙ f) in
    let parts_same : some q ≡ some p = sym l ∙ ap partition_of folds_same ∙ e_label in
    ground (arith, e, parts_same, lookup-insert s r q before)

valid-ap {ℓ} : {A : Type ℓ} (f : Selection → A) {s t : Selection} → valid s ≡ valid t → f s ≡ f t
valid-ap f h = cc

-- Each row has the partition of its fold.
label_rows-lookup :
    (folds : Dict ℕ) (partition_of : ℕ → Option Partition) (rs : List String)
    (before after : Dict Partition)
    → label_rows folds partition_of rs before ≡ ok after
    → (r : String) (fold : ℕ) (p : Partition) → lookup r folds ≡ some fold
    → partition_of fold ≡ some p
    → (lookup r before ≡ some p) ⊎ In r rs
    → lookup r after ≡ some p
unfolding label_rows
label_rows-lookup folds partition_of [] before after h r fold p f e_label (inl old) =
    rw (← ok-injective h) old
label_rows-lookup folds partition_of [] before after h r fold p f e_label (inr i) = elim i [ ]
label_rows-lookup folds partition_of (s ∷ rs) before after h r fold p f e_label reached =
    let (k, folded, rest) = >>=-eq-ok _ _ h in
    let (q, labelled, labels_rest) = >>=-eq-ok _ _ rest in
    label_rows-lookup folds partition_of rs (insert s q before) after labels_rest r fold p f e_label
      (reached_next k q (found-eq-ok _ folded) (found-eq-ok _ labelled) reached)
  where
    reached_next :
        (k : ℕ) (q : Partition)
        → lookup s folds ≡ some k
        → partition_of k ≡ some q
        → (lookup r before ≡ some p) ⊎ In r (s ∷ rs)
        → (lookup r (insert s q before) ≡ some p) ⊎ In r rs
    reached_next k q g l was = elim (Bool-cases (s == r)) [
      | inl e ↦ inl (row_labelled folds partition_of before s r k fold q p e g l f e_label)
      | inr e ↦ elim was [
        | inl old ↦ inl (ground (arith, e, old, lookup-insert s r q before))
        | inr i ↦ elim (In-cons i) [
          | inl same ↦ absurd (ground (arith, e, same, eq_iff s r))
          | inr deep ↦ inr deep
        ]
      ]
    ]

-- Each row that was labelled has a fold, and its fold has a partition.
label_rows_known :
    (folds : Dict ℕ) (partition_of : ℕ → Option Partition) (rs : List String)
    (before after : Dict Partition)
    → label_rows folds partition_of rs before ≡ ok after
    → (r : String) → In r rs
    → (fold : ℕ) × (p : Partition) × (lookup r folds ≡ some fold) × (partition_of fold ≡ some p)
unfolding label_rows
label_rows_known folds partition_of [] before after h r i = elim i [ ]
label_rows_known folds partition_of (s ∷ rs) before after h r i =
    let (k, folded, rest) = >>=-eq-ok _ _ h in
    let (q, labelled, labels_rest) = >>=-eq-ok _ _ rest in
    elim (In-cons i) [
      | inl same ↦
          rw same (k, q, found-eq-ok (lookup s folds) folded, found-eq-ok (partition_of k) labelled)
      | inr deep ↦
          label_rows_known folds partition_of rs (insert s q before) after labels_rest r deep
    ]

no_members : (p : Partition) → part p no_counts.counts ≡ 0
no_members train = refl
no_members calibration = refl
no_members test = refl

no_classes : (p : Partition) (code : ℕ) → tally_get code (part p no_counts.class_counts) ≡ 0
unfolding tally_get
no_classes train code = refl
no_classes calibration code = refl
no_classes test code = refl

module _ (a : Arithmetic) (config : SplitGenerationConfig) (fold_by_row : Dict ℕ)
    (row_ids : List String) (target_by_row : Dict ℕ) (i j : ℕ) (s : Selection) where
  judge-valid :
      (n : ℕ) (labels : Dict Partition) (c : Counts)
      → judge a config target_by_row n i j labels c ≡ valid s
      → (labels ≡ s.labels)
        × (c.counts ≡ s.partition_counts)
        × (c.class_counts ≡ s.partition_class_counts)
        × (has_empty_partition c.counts ≡ false)
        × (violates config.minimum_class_count_per_partition
              (target_counts target_by_row)
              c.class_counts
            ≡ false)
  unfolding judge selection_of
  judge-valid n labels c h = elim (Bool-cases (has_empty_partition c.counts)) [
    | inl e ↦ absurd (ground (arith, h, e))
    | inr e ↦
        elim (Bool-cases (
          violates config.minimum_class_count_per_partition (target_counts target_by_row)
            c.class_counts)) [
              | inl v ↦ absurd (ground (arith, h, e, v))
              | inr v ↦
                  let made : valid
                        (selection_of a config labels n (target_counts target_by_row) c i j)
                      ≡ valid s =
                    ground (arith, h, e, v) in
                  (
                    valid-ap (λ t. t.labels) made,
                    valid-ap (λ t. t.partition_counts) made,
                    valid-ap (λ t. t.partition_class_counts) made,
                    e,
                    v,
                  )
            ]
  ]

  module _ (chosen : candidate a config fold_by_row row_ids target_by_row i j ≡ ok (valid s)) where
    steps :
        (labels : Dict Partition) × (c : Counts) × (label_rows fold_by_row
            (fold_to_partition config.group_folds i j)
            row_ids
            []
          ≡ ok labels)
        × (count_rows labels target_by_row row_ids no_counts ≡ ok c)
        × (judge a config target_by_row (length row_ids) i j labels c ≡ valid s)
    unfolding candidate
    steps =
        let (labels, labelled, rest) = >>=-eq-ok _ _ chosen in
        let (c, counted, judged) = >>=-eq-ok _ _ rest in
        (labels, c, labelled, counted, ok-injective judged)

    -- A valid candidate counts the rows of each partition, leaves no partition empty and has in each
    -- partition the required number of rows of each class.
    pub candidate-constraints :
        (p : Partition)
        → (part p s.partition_counts ≡ members s.labels p row_ids)
          × (0 < part p s.partition_counts)
          × ((r : String) (code : ℕ)
              → lookup r target_by_row ≡ some code
              → config.minimum_class_count_per_partition
                ≤ class_members s.labels target_by_row p code row_ids)
    unfolding tally_get
    candidate-constraints p =
        let (labels, c, labelled, counted, judged) = steps in
        let (same, sizes, classes, some_rows, enough) =
          judge-valid (length row_ids) labels c judged in
        let count = count_rows_lem labels target_by_row row_ids no_counts c counted in
        let size = ap (part p) sizes in
        let counted_as = ap (λ l. members l p row_ids) same in
        (
          omega (arith, count.0 p, no_members p, size, counted_as),
          omega (arith, has_empty_partition-false c.counts p some_rows, size),
          λ r code e. omega (
            arith,
            count.1 p code,
            no_classes p code,
            ap (λ l. class_members l target_by_row p code row_ids) same,
            violates-false config.minimum_class_count_per_partition code
                (target_counts target_by_row) c.class_counts p enough
                (has_code-target_counts target_by_row r code e),
          ),
        )

    -- In a valid candidate each row has the partition that its fold has.
    pub candidate-labels :
        (r : String) (fold : ℕ) (p : Partition)
        → In r row_ids
        → lookup r fold_by_row ≡ some fold
        → fold_to_partition config.group_folds i j fold ≡ some p
        → lookup r s.labels ≡ some p
    candidate-labels r fold p m f e =
        let (labels, c, labelled, counted, judged) = steps in
        let (same, sizes, classes, some_rows, enough) =
          judge-valid (length row_ids) labels c judged in
        subst (λ l. lookup r l ≡ some p) same
          (label_rows-lookup fold_by_row _ row_ids [] labels labelled r fold p f e (inr m))

    pub candidate_known :
        (r : String)
        → In r row_ids
        → (fold : ℕ) × (p : Partition) × (lookup r fold_by_row ≡ some fold)
          × (fold_to_partition config.group_folds i j fold ≡ some p)
    candidate_known r m =
        let (labels, c, labelled, counted, judged) = steps in
        label_rows_known fold_by_row _ row_ids [] labels labelled r m
