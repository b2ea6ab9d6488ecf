-- ===== src/Tests/TransformRuns.antt =====
-- The views on a small table.
use schema_guard.Base.{
  same_names, ◌==◌, ◌||◌, ltb, true, false, pos, negsuc, some, none, [], ◌∷◌, ◌++◌, String, ◌≡◌,
  refl, ok, arith, All,
}
use schema_guard.Base.Dict.{lookup, contains, insert, remove, keys}
use schema_guard.Transform.Names.{
  search_name, generated_name, collision_safe_name, collision_safe_name_fresh,
}
use schema_guard.Transform.Frame.{
  Frame, missing, integer, string, Column, row_id_column, distinct, select, drop, insert_at,
  insert_checked, index_of,
}
use schema_guard.Transform.Base.{
  FeatureSchema, Types, names_of, input_is_valid, output_is_valid, has_target_code,
  source_dtype_map, feature_schema_from_frame, Fitted, fit, transform, reconstruct, certificate_for,
}
use schema_guard.Hashing.{text_le}
use schema_guard.Base.Decimal.{decimal}
use schema_guard.Transform.Views.Digest.{
  pair_le, insert_pair, sort_pairs, by_digest, selected_columns,
}
use schema_guard.Transform.Views.Arithmetic.{
  floor_div, floor_mod, sub_ℕ, leb_ℤ, int64_half, is_int64, times, plus, wrap64, combine64,
}
use schema_guard.Transform.Views.Columns.{
  predictors, positions, permuted, fit_columns, PermutationParameters, column_permutation,
}
use schema_guard.Transform.Views.Remainder.{
  Pandas, RemainderParameters, fit_remainder, integer_column, split_column, place_columns, divided,
  insert_both, quotient_cell, remainder_cell, cell_fits, combine_cells, quotient_remainder,
}
use schema_guard.Transform.Views.Remainder.Exact.{IsDivisible, HasExact}
use schema_guard.Transform.Views.Roundtrip.{
  v08, factory, frame_view_roundtrip, quotient_remainder_roundtrip, IsRemainder,
  split_column-IsRemainder,
}

collision_safe_name_fresh_example :
    (name : String) × (collision_safe_name "age" ("age" ∷ "age__sg_generated_1" ∷ "row" ∷ [])
      ≡ some name)
    × (contains name ("age" ∷ "age__sg_generated_1" ∷ "row" ∷ []) ≡ false)
collision_safe_name_fresh_example =
    collision_safe_name_fresh "age" ("age" ∷ "age__sg_generated_1" ∷ "row" ∷ [])

second_name :
    collision_safe_name "age" ("age" ∷ "age__sg_generated_1" ∷ "row" ∷ [])
    ≡ some "age__sg_generated_2"
unfolding collision_safe_name search_name contains generated_name decimal
second_name = refl

abbrev sample_sha : String → String
sample_sha s = s

abbrev sample_types : Types
sample_types = record { is_numeric_dtype = λ d. d == "int64"; is_integer_dtype = λ d. d == "int64" }

abbrev sample_frame : Frame
sample_frame =
    (row_id_column, record { dtype = "string"; cells = string "r1" ∷ string "r2" ∷ [] })
    ∷ ("score", record { dtype = "object"; cells = string "low" ∷ missing ∷ [] })
    ∷ ("age", record { dtype = "int64"; cells = integer (pos 47) ∷ integer (negsuc 2) ∷ [] })
    ∷ []

abbrev sample_schema : FeatureSchema
sample_schema = record {
  columns = row_id_column ∷ "score" ∷ "age" ∷ [];
  dtypes = "string" ∷ "object" ∷ "int64" ∷ [];
  numeric_columns = "age" ∷ [];
  categorical_columns = "score" ∷ [];
  integer_columns = "age" ∷ [];
}

schema_runs : feature_schema_from_frame sample_types sample_frame ≡ ok sample_schema
unfolding feature_schema_from_frame distinct contains names_of
schema_runs = refl

abbrev permutation : PermutationParameters
permutation = record {
  selected_columns = "score" ∷ "age" ∷ [];
  source_columns = row_id_column ∷ "score" ∷ "age" ∷ [];
  permuted_columns = row_id_column ∷ "age" ∷ "score" ∷ [];
  forward_order = 0 ∷ 2 ∷ 1 ∷ [];
  inverse_order = 0 ∷ 2 ∷ 1 ∷ [];
}

abbrev permuting : Fitted PermutationParameters
permuting = record {
  dataset_id = "iris";
  seed = "17";
  feature_schema = sample_schema;
  fit_parameters = permutation;
  partition_parameters = [];
}

abbrev permuted_frame : Frame
permuted_frame =
    (row_id_column, record { dtype = "string"; cells = string "r1" ∷ string "r2" ∷ [] })
    ∷ ("age", record { dtype = "int64"; cells = integer (pos 47) ∷ integer (negsuc 2) ∷ [] })
    ∷ ("score", record { dtype = "object"; cells = string "low" ∷ missing ∷ [] })
    ∷ []

abbrev permuted_once : Fitted PermutationParameters
permuted_once = record permuting { partition_parameters = ("test", permutation) ∷ [] }

fit_permutes : fit (factory sample_sha v08) sample_frame "iris" "17" sample_schema ≡ ok permuting
unfolding fit factory distinct contains lookup insert remove select drop insert_at insert_checked
    index_of same_names input_is_valid output_is_valid has_target_code source_dtype_map pair_le
    insert_pair sort_pairs by_digest selected_columns text_le predictors positions permuted
    fit_columns column_permutation quotient_remainder fit_remainder integer_column split_column
    place_columns insert_both divided quotient_cell remainder_cell floor_div floor_mod
    collision_safe_name search_name generated_name decimal sub_ℕ cell_fits leb_ℤ
fit_permutes = refl

transform_permutes :
    transform (factory sample_sha v08) (some permuting) sample_frame "test"
    ≡ ok (permuted_frame, permuted_once)
unfolding transform factory distinct contains lookup insert remove select drop insert_at
    insert_checked index_of same_names input_is_valid output_is_valid has_target_code
    source_dtype_map pair_le insert_pair sort_pairs by_digest selected_columns text_le predictors
    positions permuted fit_columns column_permutation quotient_remainder fit_remainder
    integer_column split_column place_columns insert_both divided quotient_cell remainder_cell
    floor_div floor_mod collision_safe_name search_name generated_name decimal sub_ℕ cell_fits leb_ℤ
transform_permutes = refl

frame_view_roundtrip_example :
    reconstruct
      (factory sample_sha v08)
      (some permuted_once)
      permuted_frame
      (certificate_for (factory sample_sha v08) permuted_once "test")
    ≡ ok sample_frame
frame_view_roundtrip_example =
    frame_view_roundtrip sample_sha v08 sample_frame sample_frame permuted_frame "iris" "17"
      sample_schema permuting permuted_once "test" fit_permutes transform_permutes

abbrev sample_pandas : Pandas
sample_pandas = record {
  to_numeric = λ c. ok c;
  is_integer_type = λ d. d == "int64" || d == "Int64";
  takes_operand = λ d n. ltb n int64_half;
  float_of = λ z. z;
  round_close = λ d. none;
  least_value = λ d. negsuc 0x7fff_ffff_ffff_ffff;
  greatest_value = λ d. pos 0x7fff_ffff_ffff_ffff;
  astype = λ d c. ok (record c { dtype = d });
}

abbrev remainder_parameters : RemainderParameters
remainder_parameters = record {
  selected = "age";
  quotient = "age__quotient";
  remainder = "age__remainder";
  modulus = 10;
  source_columns = row_id_column ∷ "score" ∷ "age" ∷ [];
  source_dtype = "int64";
  source_dtypes = ("age", "int64") ∷ ("score", "object") ∷ (row_id_column, "string") ∷ [];
}

abbrev dividing : Fitted RemainderParameters
dividing = record {
  dataset_id = "iris";
  seed = "17";
  feature_schema = sample_schema;
  fit_parameters = remainder_parameters;
  partition_parameters = [];
}

abbrev divided_once : Fitted RemainderParameters
divided_once = record dividing { partition_parameters = ("test", remainder_parameters) ∷ [] }

abbrev divided_frame : Frame
divided_frame =
    (row_id_column, record { dtype = "string"; cells = string "r1" ∷ string "r2" ∷ [] })
    ∷ ("score", record { dtype = "object"; cells = string "low" ∷ missing ∷ [] })
    ∷ (
      "age__quotient",
      record { dtype = "Int64"; cells = integer (pos 4) ∷ integer (negsuc 0) ∷ [] },
    )
    ∷ ("age__remainder", record { dtype = "Int64"; cells = integer (pos 7) ∷ integer (pos 7) ∷ [] })
    ∷ []

fit_divides :
    fit (quotient_remainder sample_sha sample_pandas 10) sample_frame "iris" "17" sample_schema
    ≡ ok dividing
unfolding fit quotient_remainder distinct contains lookup insert remove select drop insert_at
    insert_checked index_of same_names input_is_valid output_is_valid has_target_code
    source_dtype_map pair_le insert_pair sort_pairs by_digest selected_columns text_le predictors
    positions permuted fit_columns column_permutation fit_remainder integer_column split_column
    place_columns insert_both divided quotient_cell remainder_cell floor_div floor_mod
    collision_safe_name search_name generated_name decimal sub_ℕ cell_fits leb_ℤ
fit_divides = refl

transform_divides :
    transform (quotient_remainder sample_sha sample_pandas 10) (some dividing) sample_frame "test"
    ≡ ok (divided_frame, divided_once)
unfolding transform quotient_remainder distinct contains lookup insert remove select drop insert_at
    insert_checked index_of same_names input_is_valid output_is_valid has_target_code
    source_dtype_map pair_le insert_pair sort_pairs by_digest selected_columns text_le predictors
    positions permuted fit_columns column_permutation fit_remainder integer_column split_column
    place_columns insert_both divided quotient_cell remainder_cell floor_div floor_mod
    collision_safe_name search_name generated_name decimal sub_ℕ cell_fits leb_ℤ
transform_divides = refl

-- 2 ^ 63, which a uint64 holds, comes back as the least 64-bit integer.
beyond_int64 : combine64 10 (pos 922_337_203_685_477_580) (pos 8) ≡ negsuc 0x7fff_ffff_ffff_ffff
unfolding combine64 wrap64 times plus
beyond_int64 = refl

sample_IsDivisible :
    IsDivisible sample_pandas remainder_parameters
      (record { dtype = "int64"; cells = integer (pos 47) ∷ integer (negsuc 2) ∷ [] })
unfolding is_int64
sample_IsDivisible = record {
  some_modulus = omega arith;
  small_modulus = omega arith;
  integers = (refl, (refl, tt));
  numeric = refl;
  casts = λ cs integers. refl;
}

sample_HasExact : HasExact sample_sha sample_pandas 10 remainder_parameters sample_frame
unfolding HasExact distinct contains lookup insert remove select drop insert_at insert_checked
    index_of same_names input_is_valid output_is_valid has_target_code source_dtype_map pair_le
    insert_pair sort_pairs by_digest selected_columns text_le predictors positions permuted
    fit_columns column_permutation quotient_remainder fit_remainder integer_column split_column
    place_columns insert_both divided quotient_cell remainder_cell floor_div floor_mod
    collision_safe_name search_name generated_name decimal sub_ℕ cell_fits leb_ℤ
sample_HasExact = (
  record { dtype = "int64"; cells = integer (pos 47) ∷ integer (negsuc 2) ∷ [] },
  refl,
  record {
    is_divisible = sample_IsDivisible;
    of_source = refl;
    is_integer_dtype = refl;
    exact = ((refl, refl), ((refl, refl), tt));
    holds_missing = refl;
    numeric_joined = refl;
  },
)

quotient_remainder_roundtrip_example :
    reconstruct
      (quotient_remainder sample_sha sample_pandas 10)
      (some divided_once)
      divided_frame
      (certificate_for (quotient_remainder sample_sha sample_pandas 10) divided_once "test")
    ≡ ok sample_frame
quotient_remainder_roundtrip_example =
    quotient_remainder_roundtrip sample_sha sample_pandas 10 sample_frame sample_frame divided_frame
      "iris" "17" sample_schema dividing divided_once "test" fit_divides sample_HasExact
      transform_divides

split_divides :
    split_column sample_sha sample_pandas 10 remainder_parameters sample_frame
    ≡ ok (divided_frame, remainder_parameters)
unfolding split_column distinct contains lookup insert remove select drop insert_at insert_checked
    index_of same_names input_is_valid output_is_valid has_target_code source_dtype_map pair_le
    insert_pair sort_pairs by_digest selected_columns text_le predictors positions permuted
    fit_columns column_permutation quotient_remainder fit_remainder integer_column place_columns
    insert_both divided quotient_cell remainder_cell floor_div floor_mod collision_safe_name
    search_name generated_name decimal sub_ℕ cell_fits leb_ℤ
split_divides = refl

sample_lookup :
    lookup "age" sample_frame
    ≡ some (record { dtype = "int64"; cells = integer (pos 47) ∷ integer (negsuc 2) ∷ [] })
unfolding lookup
sample_lookup = refl

sample_distinct : distinct (keys sample_frame) ≡ true
unfolding distinct contains
sample_distinct = refl

split_column-IsRemainder_example :
    (before after : Frame) × (quotients remainders : Column) × (sample_frame
      ≡ before
        ++ (("age", record { dtype = "int64"; cells = integer (pos 47) ∷ integer (negsuc 2) ∷ [] })
            ∷ after))
    × (divided_frame
        ≡ before ++ (("age__quotient", quotients) ∷ ("age__remainder", remainders) ∷ after))
    × All (IsRemainder 10) remainders.cells
    × (combine_cells 10 quotients.cells remainders.cells
        ≡ integer (pos 47) ∷ integer (negsuc 2) ∷ [])
split_column-IsRemainder_example =
    split_column-IsRemainder sample_sha sample_pandas 10 remainder_parameters remainder_parameters
      sample_frame divided_frame
      (record { dtype = "int64"; cells = integer (pos 47) ∷ integer (negsuc 2) ∷ [] })
      sample_distinct sample_lookup sample_IsDivisible split_divides
