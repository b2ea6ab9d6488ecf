-- ===== src/Transform/Views/Columns.antt =====
-- The permutation of the columns: transformations/column_permutation.py.
use schema_guard.Base.{
  ℕ, true, false, if◌then◌else◌, ◌==◌, eq_iff, List, [], ◌∷◌, ◌++◌, String, ◌≡◌, sym, ap, subst,
  ◌∙◌, arith, In, here, there, In-cons, In-append_left, In-append_right, Bool-cases, inl, inr,
  Result, ok, ◌>>=◌, >>=-eq-ok, ok-injective,
}
use schema_guard.Base.Dict.{keys, contains}
use schema_guard.Transform.Frame.{Frame, row_id_column, select, index_of}
use schema_guard.Transform.Frame.Select.{select_agreeing, lookup-select, In-contains}
use schema_guard.Transform.Base.{FeatureSchema, Steps}
use schema_guard.Transform.Base.Reconstruct.{IsReversible}
use schema_guard.Transform.Views.Digest.{by_digest, In-by_digest}

pub record PermutationParameters : Type 0 where
  pub selected_columns : List String
  pub source_columns : List String
  pub permuted_columns : List String
  pub forward_order : List ℕ
  pub inverse_order : List ℕ

-- `[c for c in columns if c != ROW_ID_COLUMN]`
unfoldable pub predictors : List String → List String
predictors [] = []
predictors (c ∷ cs) = let rest = predictors cs in if c == row_id_column then rest else c ∷ rest

-- `[names.index(c) for c in cs]`
unfoldable pub positions : List String → List String → Result (List ℕ)
positions names [] = ok []
positions names (c ∷ cs) =
    index_of c names >>= (λ n. positions names cs >>= (λ rest. ok (n ∷ rest)))

module _ (sha256 : String → String) where
  unfoldable pub permuted : String → String → List String → List String
  permuted dataset_id seed cs =
      (if contains row_id_column cs then row_id_column ∷ [] else [])
      ++ by_digest sha256 dataset_id seed "|V08" (predictors cs)

  unfoldable pub fit_columns :
      Frame → String → String → FeatureSchema → Result PermutationParameters
  fit_columns x dataset_id seed schema =
      let order = permuted dataset_id seed (keys x) in
      positions (keys x) order >>= (λ forward. positions order (keys x) >>= (λ inverse. ok (record {
        selected_columns = predictors (keys x);
        source_columns = keys x;
        permuted_columns = order;
        forward_order = forward;
        inverse_order = inverse;
      })))

  unfoldable pub column_permutation : Steps PermutationParameters
  column_permutation = record {
    view_id = "V08";
    fit_step = fit_columns;
    transform_step =
        λ dataset_id seed p x partition. select p.permuted_columns x >>= (λ out. ok (out, p));
    reconstruct_step = λ z p. select p.source_columns z;
  }

  In-predictors :
      (c : String) (cs : List String)
      → In c cs
      → (c == row_id_column) ≡ false
      → In c (predictors cs)
  unfolding predictors
  In-predictors c [] i differ = i
  In-predictors c (k ∷ cs) i differ = elim (In-cons i) [
    | inl same ↦
        let kept : (k == row_id_column) ≡ false =
          subst (λ (s : String). (s == row_id_column) ≡ false) same differ in
        rw kept (rw same here)
    | inr deep ↦ elim (Bool-cases (k == row_id_column)) [
      | inl e ↦ rw e (In-predictors c cs deep differ)
      | inr e ↦ rw e (there (In-predictors c cs deep differ))
    ]
  ]

  -- Every column stands in the permuted order.
  In-permuted :
      (dataset_id seed c : String) (cs : List String) → In c cs → In c (permuted dataset_id seed cs)
  unfolding permuted
  In-permuted dataset_id seed c cs i = elim (Bool-cases (c == row_id_column)) [
    | inl e ↦
        let same : c ≡ row_id_column = ground (arith, eq_iff c row_id_column) in
        let has : contains row_id_column cs ≡ true =
          subst (λ k. contains k cs ≡ true) same (In-contains i) in
        rw has (
          rw same (
            In-append_left (by_digest sha256 dataset_id seed "|V08" (predictors cs))
              (here {xs = []})))
    | inr e ↦
        In-append_right (if contains row_id_column cs then row_id_column ∷ [] else [])
          (In-by_digest sha256 dataset_id seed "|V08" c _ (In-predictors c cs i e))
  ]

  fit_columns-ok :
      (x : Frame) (dataset_id seed : String) (schema : FeatureSchema) (p : PermutationParameters)
      → fit_columns x dataset_id seed schema ≡ ok p
      → (p.source_columns ≡ keys x) × (p.permuted_columns ≡ permuted dataset_id seed (keys x))
  unfolding fit_columns
  fit_columns-ok x dataset_id seed schema p h =
      let order = permuted dataset_id seed (keys x) in
      let (forward, first, rest) = >>=-eq-ok (positions (keys x) order) _ h in
      let (inverse, second, made) = >>=-eq-ok (positions order (keys x)) _ rest in
      let same = sym (ok-injective made) in
      (ap (λ r. r.source_columns) same, ap (λ r. r.permuted_columns) same)

  -- The permuted table gives the table back.
  pub column_permutation-IsReversible : IsReversible column_permutation (λ p y. Unit)
  unfolding column_permutation IsReversible
  column_permutation-IsReversible x y z dataset_id seed schema p q partition fit_ok d columns fits
        made =
      let (source, order) = fit_columns-ok x dataset_id seed schema p fit_ok in
      let (out, selected, pair) = >>=-eq-ok (select p.permuted_columns y) _ made in
      let same = ok-injective pair in
      let is_z : out ≡ z = ap (λ e. e.0) same in
      let is_p : p ≡ q = ap (λ e. e.1) same in
      let names : q.source_columns ≡ keys y =
        ap (λ r. r.source_columns) (sym is_p) ∙ source ∙ columns in
      rw names (
        rw (← is_z) (
          select_agreeing y out d (λ c i.
            lookup-select p.permuted_columns y out c selected
              (rw order (In-permuted dataset_id seed c (keys x) (rw columns i))))))
