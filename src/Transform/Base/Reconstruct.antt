-- ===== src/Transform/Base/Reconstruct.antt =====
-- From the three steps of a view to its object: `transform` and `reconstruct` of
-- transformations/base.py.
use schema_guard.Base.{
  same_names, require, Bool, true, false, ◌==◌, eq_iff, eq_refl, some, List, [], ◌∷◌, String, ◌≡◌,
  refl, sym, subst, ap, ◌∙◌, arith, ok, >>=-eq-ok, >>-eq-ok, ok-injective,
}
use schema_guard.Base.Dict.{lookup, insert, keys, contains, lookup-insert}
use schema_guard.Transform.Frame.{Frame, row_id_column, distinct}
use schema_guard.Transform.Base.{
  FeatureSchema, Steps, Fitted, Certificate, input_is_valid, output_is_valid, fit, transform,
  reconstruct, is_partition, parameters_for, certificate_for,
}

same_names-eq : (cs ds : List String) → same_names cs ds ≡ true → cs ≡ ds
unfolding same_names
same_names-eq [] [] h = refl
same_names-eq [] (d ∷ ds) h = cc
same_names-eq (c ∷ cs) [] h = cc
same_names-eq (c ∷ cs) (d ∷ ds) h = ground (arith, eq_iff c d, same_names-eq cs ds)

same_names_refl : (cs : List String) → same_names cs cs ≡ true
unfolding same_names
same_names_refl [] = refl
same_names_refl (c ∷ cs) = ground (arith, eq_refl c, same_names_refl cs)

require-ok : (b : Bool) {a : Unit {0}} → require b ≡ ok a → b ≡ true
require-ok true h = refl
require-ok false h = cc

module _ {P : Type 0} (view : Steps P) (Fits : P → Frame → Type 0) where
  -- The steps of the view give a table back that has the columns of the training table and is of
  -- the kind that the view can treat.
  unfoldable pub IsReversible : Type 0
  IsReversible =
      (x y z : Frame) (dataset_id seed : String) (schema : FeatureSchema) (p q : P)
      (partition : String)
      → view.fit_step x dataset_id seed schema ≡ ok p
      → distinct (keys y) ≡ true
      → keys x ≡ keys y
      → Fits p y
      → view.transform_step dataset_id seed p y partition ≡ ok (z, q)
      → view.reconstruct_step z q ≡ ok y

  fitted :
      (x : Frame) (dataset_id seed : String) (schema : FeatureSchema) (t : Fitted P)
      → fit view x dataset_id seed schema ≡ ok t
      → (contains row_id_column (keys x) ≡ true)
        × (keys x ≡ t.feature_schema.columns)
        × (view.fit_step x t.dataset_id t.seed t.feature_schema ≡ ok t.fit_parameters)
  unfolding fit
  fitted x dataset_id seed schema t h =
      let (p, checked, made) = >>=-eq-ok _ _ h in
      let (a, first, step) = >>-eq-ok _ (view.fit_step x dataset_id seed schema) checked in
      let (b, firsts, names) = >>-eq-ok _ (require (same_names (keys x) schema.columns)) first in
      let (c, valid, row) = >>-eq-ok _ (require (contains row_id_column (keys x))) firsts in
      subst
        (λ u.
          (contains row_id_column (keys x) ≡ true)
          × (keys x ≡ u.feature_schema.columns)
          × (view.fit_step x u.dataset_id u.seed u.feature_schema ≡ ok u.fit_parameters))
        (ok-injective made) (require-ok _ row, same_names-eq _ _ (require-ok _ names), step)

  transformed :
      (t u : Fitted P) (y z : Frame) (partition : String)
      → transform view (some t) y partition ≡ ok (z, u)
      → (input_is_valid y ≡ true)
        × (keys y ≡ t.feature_schema.columns)
        × (output_is_valid z ≡ true)
        × ((q : P) × (view.transform_step t.dataset_id t.seed t.fit_parameters y partition
              ≡ ok (z, q))
            × (record t { partition_parameters = insert partition q t.partition_parameters } ≡ u))
  unfolding transform
  transformed t u y z partition h =
      let ((w, q), before, after) = >>=-eq-ok _ _ h in
      let (a, first, step) =
        >>-eq-ok _ (view.transform_step t.dataset_id t.seed t.fit_parameters y partition) before in
      let (b, firsts, known) = >>-eq-ok _ (require (is_partition view partition)) first in
      let (c, valid, names) =
        >>-eq-ok _ (require (same_names (keys y) t.feature_schema.columns)) firsts in
      let (d, fresh, made) = >>-eq-ok (require (output_is_valid w)) _ after in
      let pair = ok-injective made in
      let same : w ≡ z = ap (λ e. e.0) pair in
      (
        require-ok _ valid,
        same_names-eq _ _ (require-ok _ names),
        subst (λ f. output_is_valid f ≡ true) same (require-ok _ fresh),
        (
          q,
          subst
              (λ f.
                view.transform_step t.dataset_id t.seed t.fit_parameters y partition ≡ ok (f, q))
              same step,
          ap (λ e. e.1) pair,
        ),
      )

  -- A step that gives the table back passes the checks of `reconstruct`.
  reconstructed :
      (t : Fitted P) (y z : Frame) (c : Certificate P)
      → c.certificate_view ≡ view.view_id
      → output_is_valid z ≡ true
      → output_is_valid y ≡ true
      → keys y ≡ t.feature_schema.columns
      → view.reconstruct_step z c.parameters ≡ ok y
      → reconstruct view (some t) z c ≡ ok y
  unfolding reconstruct
  reconstructed t y z c id valid_z valid_y names step =
      let same : (c.certificate_view == view.view_id) ≡ true = rw id (eq_refl view.view_id) in
      let columns : same_names (keys y) t.feature_schema.columns ≡ true =
        rw (← names) (same_names_refl (keys y)) in
      rw same (rw valid_z (rw step (rw valid_y (rw columns refl))))

  certificate-parameters :
      (t : Fitted P) (q : P) (partition : String)
      → (certificate_for view
          (record t { partition_parameters = insert partition q t.partition_parameters })
          partition)
        ≡ record { certificate_view = view.view_id; parameters = q }
  unfolding certificate_for parameters_for
  certificate-parameters t q partition =
      let looked : lookup partition (insert partition q t.partition_parameters) ≡ some q =
        ground
          (arith, lookup-insert partition partition q t.partition_parameters, eq_refl partition) in
      rw looked refl

  -- What a fitted view has transformed, it reconstructs exactly, with the certificate of the
  -- partition.
  unfoldable pub Roundtrips : Type 0
  Roundtrips =
      (x y z : Frame) (dataset_id seed : String) (schema : FeatureSchema) (t u : Fitted P)
      (partition : String)
      → fit view x dataset_id seed schema ≡ ok t
      → Fits t.fit_parameters y
      → transform view (some t) y partition ≡ ok (z, u)
      → reconstruct view (some u) z (certificate_for view u partition) ≡ ok y

  pub transform-reconstruct : IsReversible → Roundtrips
  unfolding IsReversible Roundtrips input_is_valid output_is_valid
  transform-reconstruct reversible x y z dataset_id seed schema t u partition fit_ok fits h =
      let (row, columns, step) = fitted x dataset_id seed schema t fit_ok in
      let (valid_y, names, valid_z, (q, made, same)) = transformed t u y z partition h in
      let same_keys : keys x ≡ keys y = columns ∙ sym names in
      let d : distinct (keys y) ≡ true = ground (arith, valid_y) in
      let row_y : contains row_id_column (keys y) ≡ true =
        subst (λ cs. contains row_id_column cs ≡ true) same_keys row in
      let valid : output_is_valid y ≡ true = ground (arith, d, row_y) in
      let back =
        reversible x y z t.dataset_id t.seed t.feature_schema t.fit_parameters q partition step d
          same_keys fits made in
      subst (λ v. reconstruct view (some v) z (certificate_for view v partition) ≡ ok y) same
        (subst
          (λ c.
            reconstruct view
              (some (record t { partition_parameters = insert partition q t.partition_parameters }))
              z c
            ≡ ok y)
          (sym (certificate-parameters t q partition))
          (reconstructed _ y z _ refl valid_z valid names back))
