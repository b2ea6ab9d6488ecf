-- ===== src/Tests/RowRuns.antt =====
-- The permutation of the rows of a small training table.
use schema_guard.Base.{same_names, pos, some, [], ◌∷◌, String, ◌≡◌, refl, ok}
use schema_guard.Base.Dict.{lookup, contains, insert}
use schema_guard.Base.Sorting.{insert_by, sort_by}
use schema_guard.Hashing.{text_le}
use schema_guard.Transform.Frame.{
  Frame, Cell, missing, integer, string, row_id_column, distinct, index_of,
}
use schema_guard.Transform.Base.{
  FeatureSchema, input_is_valid, output_is_valid, has_target_code, Fitted, fit, transform,
  reconstruct, certificate_for,
}
use schema_guard.Transform.Views.Columns.{positions}
use schema_guard.Transform.Views.Rows.{
  RowParameters, at, pick, iloc, enumerate, cell_text, row_ids, row_order, permute_rows,
  transform_rows, row_permutation,
}
use schema_guard.Transform.Views.Rows.Exact.{HasRowIds}
use schema_guard.Transform.Views.Roundtrip.{row_permutation_roundtrip}

abbrev sample_sha : String → String
sample_sha s = s

abbrev no_text : Cell → String
no_text c = "nan"

abbrev rows : Frame
rows =
    (
      row_id_column,
      record { dtype = "string"; cells = string "r3" ∷ string "r1" ∷ string "r2" ∷ [] },
    )
    ∷ (
      "age",
      record { dtype = "int64"; cells = integer (pos 30) ∷ missing ∷ integer (pos 20) ∷ [] },
    )
    ∷ []

abbrev sorted_rows : Frame
sorted_rows =
    (
      row_id_column,
      record { dtype = "string"; cells = string "r1" ∷ string "r2" ∷ string "r3" ∷ [] },
    )
    ∷ (
      "age",
      record { dtype = "int64"; cells = missing ∷ integer (pos 20) ∷ integer (pos 30) ∷ [] },
    )
    ∷ []

abbrev schema : FeatureSchema
schema = record {
  columns = row_id_column ∷ "age" ∷ [];
  dtypes = "string" ∷ "int64" ∷ [];
  numeric_columns = "age" ∷ [];
  categorical_columns = [];
  integer_columns = "age" ∷ [];
}

abbrev fitted_rows : Fitted RowParameters
fitted_rows = record {
  dataset_id = "iris";
  seed = "17";
  feature_schema = schema;
  fit_parameters = record {
    source_columns = row_id_column ∷ "age" ∷ [];
    source_row_ids = [];
    output_row_ids = [];
    forward_order = [];
    inverse_order = [];
  };
  partition_parameters = [];
}

abbrev permuted_once : Fitted RowParameters
permuted_once = record fitted_rows {
  partition_parameters =
      (
        "train",
        record {
          source_columns = row_id_column ∷ "age" ∷ [];
          source_row_ids = "r3" ∷ "r1" ∷ "r2" ∷ [];
          output_row_ids = "r1" ∷ "r2" ∷ "r3" ∷ [];
          forward_order = 1 ∷ 2 ∷ 0 ∷ [];
          inverse_order = 2 ∷ 0 ∷ 1 ∷ [];
        },
      )
      ∷ [];
}

fit_runs : fit (row_permutation sample_sha no_text) rows "iris" "17" schema ≡ ok fitted_rows
unfolding fit row_permutation input_is_valid has_target_code distinct contains same_names
fit_runs = refl

transform_permutes :
    transform (row_permutation sample_sha no_text) (some fitted_rows) rows "train"
    ≡ ok (sorted_rows, permuted_once)
unfolding transform row_permutation transform_rows permute_rows row_ids cell_text row_order sort_by
    insert_by text_le enumerate iloc pick at positions index_of lookup insert input_is_valid
    output_is_valid has_target_code distinct contains same_names
transform_permutes = refl

rows-HasRowIds : HasRowIds rows
unfolding lookup distinct contains
rows-HasRowIds = record {
  ids = "r3" ∷ "r1" ∷ "r2" ∷ [];
  column = record { dtype = "string"; cells = string "r3" ∷ string "r1" ∷ string "r2" ∷ [] };
  there = refl;
  texts = refl;
  differ = refl;
  even = (refl, (refl, tt));
  free = refl;
}

row_permutation_roundtrip_example :
    reconstruct
      (row_permutation sample_sha no_text)
      (some permuted_once)
      sorted_rows
      (certificate_for (row_permutation sample_sha no_text) permuted_once "train")
    ≡ ok rows
row_permutation_roundtrip_example =
    row_permutation_roundtrip sample_sha no_text rows rows sorted_rows "iris" "17" schema
      fitted_rows permuted_once "train" fit_runs rows-HasRowIds transform_permutes
