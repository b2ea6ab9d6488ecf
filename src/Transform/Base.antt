-- ===== src/Transform/Base.antt =====
-- The common part of every view: `FeatureSchema` and `BaseTransformation` of transformations/base.py.
-- A view is given by its three steps; the base checks what goes in and what comes out. `str` of the
-- data set and the seed are texts.
pub mod Reconstruct
use text.Mathlib.Text.{starts_with}
use schema_guard.Base.{
  same_names, require, ℕ, Bool, true, false, not, ◌&&◌, ◌||◌, if◌then◌else◌, ◌==◌, Option, none,
  some, List, [], ◌∷◌, map, String, Result, Error, ok, err, ◌>>=◌, ◌>>◌,
}
use schema_guard.Base.Dict.{Dict, lookup, insert, keys, contains}
use schema_guard.Transform.Frame.{Frame, Column, row_id_column, distinct}

abbrev pub target_code_column : String
target_code_column = "target_code"

abbrev pub target_label_column : String
target_label_column = "target_label"

pub record FeatureSchema : Type 0 where
  pub columns : List String
  pub dtypes : List String
  pub numeric_columns : List String
  pub categorical_columns : List String
  pub integer_columns : List String

-- pandas' tests of a column's type.
pub record Types : Type 0 where
  pub is_numeric_dtype : String → Bool
  pub is_integer_dtype : String → Bool

-- `tuple(column for column in columns if ...)`
unfoldable pub names_of : (Column → Bool) → Frame → List String
names_of p [] = []
names_of p ((c, v) ∷ f) =
    let rest = names_of p f in if not (c == row_id_column) && p v then c ∷ rest else rest

unfoldable pub feature_schema_from_frame : Types → Frame → Result FeatureSchema
feature_schema_from_frame types f =
    if not (distinct (keys f))
    then err Error.value_error
    else if contains target_code_column (keys f) || contains target_label_column (keys f)
    then err Error.value_error
    else ok (record {
      columns = keys f;
      dtypes = map (λ e. e.1.dtype) f;
      numeric_columns = names_of (λ v. types.is_numeric_dtype v.dtype) f;
      categorical_columns = names_of (λ v. not (types.is_numeric_dtype v.dtype)) f;
      integer_columns = names_of (λ v. types.is_integer_dtype v.dtype) f;
    })

-- `dict(zip(schema.columns, schema.dtypes))`
unfoldable pub source_dtype_map : List String → List String → Dict String
source_dtype_map [] ds = []
source_dtype_map (c ∷ cs) [] = []
source_dtype_map (c ∷ cs) (d ∷ ds) = insert c d (source_dtype_map cs ds)

-- `any(column.startswith(TARGET_CODE_COLUMN) for column in columns)`
unfoldable pub has_target_code : List String → Bool
has_target_code [] = false
has_target_code (c ∷ cs) = starts_with c target_code_column || has_target_code cs

unfoldable pub input_is_valid : Frame → Bool
input_is_valid f =
    distinct (keys f)
    && not (has_target_code (keys f))
    && not (contains target_label_column (keys f))

unfoldable pub output_is_valid : Frame → Bool
output_is_valid f = distinct (keys f) && contains row_id_column (keys f)

-- What a view supplies: `_fit`, `_transform` and `_reconstruct`. `P` is its parameters.
pub record Steps (P : Type 0) : Type 0 where
  pub view_id : String
  pub fit_step : Frame → String → String → FeatureSchema → Result P
  pub transform_step : String → String → P → Frame → String → Result (Frame × P)
  pub reconstruct_step : Frame → P → Result Frame

pub record Fitted (P : Type 0) : Type 0 where
  pub dataset_id : String
  pub seed : String
  pub feature_schema : FeatureSchema
  pub fit_parameters : P
  pub partition_parameters : Dict P

-- What `reconstruct` reads of a certificate.
pub record Certificate (P : Type 0) : Type 0 where
  pub certificate_view : String
  pub parameters : P

abbrev get_or {ℓ} : {A : Type ℓ} → A → Option A → A
get_or a none = a
get_or a (some b) = b

module _ {P : Type 0} (view : Steps P) where
  -- An object that `fit` has left has all fields; before, it has none.
  unfoldable pub fit : Frame → String → String → FeatureSchema → Result (Fitted P)
  fit x dataset_id seed schema =
      require (input_is_valid x)
      >> require (contains row_id_column (keys x))
      >> require (same_names (keys x) schema.columns)
      >> view.fit_step x dataset_id seed schema
      >>= (λ p. ok (record {
        dataset_id = dataset_id;
        seed = seed;
        feature_schema = schema;
        fit_parameters = p;
        partition_parameters = [];
      }))

  abbrev pub is_partition : String → Bool
  is_partition p = p == "train" || p == "calibration" || p == "test"

  ensure_fitted : Option (Fitted P) → Result (Fitted P)
  ensure_fitted none = err Error.runtime_error
  ensure_fitted (some t) = ok t

  unfoldable pub transform : Option (Fitted P) → Frame → String → Result (Frame × Fitted P)
  unfolding ensure_fitted
  transform state x partition = ensure_fitted state >>= (λ t.
      require (input_is_valid x)
      >> require (same_names (keys x) t.feature_schema.columns)
      >> require (is_partition partition)
      >> view.transform_step t.dataset_id t.seed t.fit_parameters x partition
      >>= (λ made.
          require (output_is_valid made.0)
          >> ok (
            made.0,
            record t { partition_parameters = insert partition made.1 t.partition_parameters },
          )))

  unfoldable pub reconstruct : Option (Fitted P) → Frame → Certificate P → Result Frame
  unfolding ensure_fitted
  reconstruct state z certificate = ensure_fitted state >>= (λ t.
      require (certificate.certificate_view == view.view_id)
      >> require (output_is_valid z)
      >> view.reconstruct_step z certificate.parameters
      >>= (λ restored.
          require (output_is_valid restored)
          >> require (same_names (keys restored) t.feature_schema.columns)
          >> ok restored))

  -- `parameters_for`: the parameters of a partition repeat those of the fit, so they replace them.
  unfoldable pub parameters_for : Fitted P → String → P
  parameters_for t partition = get_or t.fit_parameters (lookup partition t.partition_parameters)

  -- The part of `build_certificate` that `reconstruct` reads.
  unfoldable pub certificate_for : Fitted P → String → Certificate P
  unfolding parameters_for
  certificate_for t partition = record {
    certificate_view = view.view_id;
    parameters = parameters_for t partition;
  }
