-- ===== src/Split/Groups.antt =====
-- Why no group of equal predictors crosses the partitions: splits/selection.py.
use schema_guard.Hashing.{sort_texts}
use schema_guard.Base.{
  ℕ, suc, ◌+◌, if◌then◌else◌, ◌==◌, eq_iff, some, is_some, List, [], ◌∷◌, String, ◌≡◌, refl, sym,
  ap, subst, ◌∙◌, ◌⊎◌, inl, inr, arith, In, here, there, Bool-cases, Error, ok, err, >>=-eq-ok,
  ok-injective,
}
use schema_guard.Base.Dict.{Dict, lookup, insert, lookup-insert}
use schema_guard.Split.Config.{Arithmetic, SplitGenerationConfig}
use schema_guard.Split.Candidate.{Partition}
use schema_guard.Split.Folds.{at_index, item-eq-ok, hold_out, assign_folds, covers, folds}
use schema_guard.Split.Select.{pass, Search, select_fold_assignment}
use schema_guard.Split.Candidate.{Selection}
use schema_guard.Split.Select.Chosen.{select_fold_assignment_pass}
use schema_guard.Split.Constraint.{candidate-labels, candidate_known}

-- What the documentation of StratifiedGroupKFold says: a group is held out in one fold only.
unfoldable pub IsGrouped : (String → String) → List String → List (List ℕ) → Type 0
IsGrouped group rows splits =
    (k l : ℕ) (held other : List ℕ) (i j : ℕ) (r q : String)
    → at_index splits k ≡ some held
    → at_index splits l ≡ some other
    → In i held
    → In j other
    → at_index rows i ≡ some r
    → at_index rows j ≡ some q
    → group r ≡ group q
    → k ≡ l

hold_out_origin :
    (rows : List String) (fold : ℕ) (held : List ℕ) (before after : Dict ℕ)
    → hold_out rows fold held before ≡ ok after
    → (r : String) (k : ℕ) → lookup r after ≡ some k
    → (lookup r before ≡ some k) ⊎ ((k ≡ fold) × ((i : ℕ) × In i held × (at_index rows i ≡ some r)))
unfolding hold_out
hold_out_origin rows fold [] before after h r k e = inl (rw (ok-injective h) e)
hold_out_origin rows fold (i ∷ held) before after h r k e =
    let (s, at, rest) = >>=-eq-ok _ _ h in
    let (middle, added, later) = >>=-eq-ok _ _ rest in
    elim (hold_out_origin rows fold held middle after later r k e) [
      | inl was ↦ added_now s (item-eq-ok (at_index rows i) at) middle added was
      | inr (same, (j, m, x)) ↦ inr (same, (j, there m, x))
    ]
  where
    added_now :
        (s : String)
        → at_index rows i ≡ some s
        → (middle : Dict ℕ)
        → (if is_some (lookup s before) then err Error.value_error else ok (insert s fold before))
          ≡ ok middle
        → lookup r middle ≡ some k
        → (lookup r before ≡ some k)
          ⊎ ((k ≡ fold) × ((j : ℕ) × In j (i ∷ held) × (at_index rows j ≡ some r)))
    added_now s at middle added was = elim (Bool-cases (is_some (lookup s before))) [
      | inl e ↦ absurd (ground (arith, e, added))
      | inr e ↦
          let made : insert s fold before ≡ middle = ground (arith, e, added) in
          let looked = lookup-insert s r fold before in
          let now : lookup r (insert s fold before) ≡ some k = rw made was in
          elim (Bool-cases (s == r)) [
            | inl same ↦ inr (
              ground (arith, looked, now, same),
              (i, here, at ∙ ap some (ground (arith, same, eq_iff s r))),
            )
            | inr differ ↦ inl (ground (arith, looked, now, differ))
          ]
    ]

assign_folds_origin :
    (rows : List String) (start : ℕ) (splits : List (List ℕ)) (before after : Dict ℕ)
    → assign_folds rows start splits before ≡ ok after
    → (r : String) (k : ℕ) → lookup r after ≡ some k
    → (lookup r before ≡ some k)
      ⊎ ((m : ℕ) × (held : List ℕ) × (i : ℕ) × (k ≡ start + m)
          × (at_index splits m ≡ some held)
          × In i held
          × (at_index rows i ≡ some r))
unfolding assign_folds
assign_folds_origin rows start [] before after h r k e = inl (rw (ok-injective h) e)
assign_folds_origin rows start (held ∷ splits) before after h r k e =
    let (middle, first, rest) = >>=-eq-ok _ _ h in
    elim (assign_folds_origin rows (start + 1) splits middle after rest r k e) [
      | inl was ↦ elim (hold_out_origin rows start held before middle first r k was) [
        | inl old ↦ inl old
        | inr (same, (i, m, x)) ↦ inr (0, held, i, omega (arith, same), refl, m, x)
      ]
      | inr (m, other, i, same, at, n, x) ↦ inr (suc m, other, i, omega (arith, same), at, n, x)
    ]

folds_origin :
    (row_ids : List String) (splits : List (List ℕ)) (result : Dict ℕ)
    → folds row_ids splits ≡ ok result
    → (r : String) (k : ℕ) → lookup r result ≡ some k
    → (held : List ℕ) × (i : ℕ) × (at_index splits k ≡ some held)
      × In i held
      × (at_index (sort_texts row_ids) i ≡ some r)
unfolding folds lookup
folds_origin row_ids splits result h r k e =
    let (made, assigned, checked) = >>=-eq-ok _ _ h in
    let same : made ≡ result = is_checked made checked in
    elim (assign_folds_origin (sort_texts row_ids) 0 splits [] made assigned r k
      (subst (λ d. lookup r d ≡ some k) (sym same) e)) [
        | inl was ↦ absurd (none_before was)
        | inr (m, held, i, at, x, y, z) ↦
            let start : k ≡ m = omega (arith, at) in (held, i, rw start x, y, z)
      ]
  where
    is_checked :
        (made : Dict ℕ)
        → (if covers made (sort_texts row_ids) then ok made else err Error.value_error) ≡ ok result
        → made ≡ result
    is_checked made c = elim (Bool-cases (covers made (sort_texts row_ids))) [
      | inl e ↦ ok-injective (rw e at c)
      | inr e ↦ absurd (ground (arith, e, c))
    ]

    none_before : lookup r [] ≡ some k → ⊥
    none_before was = cc

module _ (a : Arithmetic) (config : SplitGenerationConfig) (row_ids : List String)
    (target_by_row : Dict ℕ) (splits : List (List ℕ)) (group : String → String) where
  -- If scikit-learn holds a group out in one fold only, two rows of one group stand in the same
  -- partition of the selected assignment.
  pub selected_groups :
      (fold_by_row : Dict ℕ) (best : Selection) (s : Search) (r q : String)
      → IsGrouped group (sort_texts row_ids) splits
      → folds row_ids splits ≡ ok fold_by_row
      → select_fold_assignment a config fold_by_row row_ids target_by_row ≡ ok (pass best s)
      → In r row_ids
      → In q row_ids
      → group r ≡ group q
      → (p : Partition) × (lookup r best.labels ≡ some p) × (lookup q best.labels ≡ some p)
  unfolding IsGrouped
  selected_groups fold_by_row best s r q grouped folded selected mr mq same =
      let ((i, j, (below_i, below_j, differ, chosen)), minimal) =
        select_fold_assignment_pass a config fold_by_row row_ids target_by_row best s selected in
      let known = candidate_known a config fold_by_row row_ids target_by_row i j best chosen in
      let (k, p, fold_r, part_r) = known r mr in
      let (l, p', fold_q, part_q) = known q mq in
      let (held, x, at_k, in_k, row_x) =
        folds_origin row_ids splits fold_by_row folded r k fold_r in
      let (other, y, at_l, in_l, row_y) =
        folds_origin row_ids splits fold_by_row folded q l fold_q in
      let together : k ≡ l = grouped k l held other x y r q at_k at_l in_k in_l row_x row_y same in
      let label = candidate-labels a config fold_by_row row_ids target_by_row i j best chosen in
      (p, label r k p mr fold_r part_r, label q k p mq (rw together fold_q) part_r)
