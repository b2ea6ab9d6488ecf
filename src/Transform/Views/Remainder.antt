-- ===== src/Transform/Views/Remainder.antt =====
-- An integer column as quotient and remainder: transformations/quotient_remainder.py and
-- `restore_series_dtype` of transformations/base.py. What pandas does to a column is a parameter.
pub mod Exact
use mathlib.Core.Option
use Prim.Native.String.{◌++◌ as ◌+++◌}
use text.Mathlib.Text.{starts_with}
use schema_guard.Base.{
  require, ℕ, ◌+◌, Bool, true, false, not, ◌&&◌, ◌||◌, if◌then◌else◌, ◌==◌, ℤ, pos, Option, none,
  some, List, [], ◌∷◌, map, all, is_some, String, Result, Error, ok, err, found, ◌>>=◌, ◌>>◌,
}
use schema_guard.Base.Dict.{Dict, keys, lookup, contains}
use schema_guard.Split.Config.{Double}
use schema_guard.Transform.Names.{collision_safe_name}
use schema_guard.Transform.Frame.{
  Frame, Cell, missing, boolean, integer, float, string, Column, select, drop, insert_at, index_of,
}
use schema_guard.Transform.Base.{FeatureSchema, Steps, source_dtype_map}
use schema_guard.Transform.Views.Digest.{selected_columns}
use schema_guard.Transform.Views.Duplicate.{name_of, first, is_empty}
use schema_guard.Transform.Views.Arithmetic.{floor_div, floor_mod, combine64, is_int64, leb_ℤ}

-- A column of an integer type takes a number as an operand, or the operation raises OverflowError;
-- `float(n)` of an integer is an integer; a float is rounded to the next integer if it is finite and
-- close to it; an integer type has its least and its greatest value.
pub record Pandas : Type 0 where
  pub to_numeric : Column → Result Column
  pub is_integer_type : String → Bool
  pub takes_operand : String → ℕ → Bool
  pub float_of : ℤ → ℤ
  pub round_close : Double → Option ℤ
  pub least_value : String → ℤ
  pub greatest_value : String → ℤ
  pub astype : String → Column → Result Column

pub record RemainderParameters : Type 0 where
  pub selected : String
  pub quotient : String
  pub remainder : String
  pub modulus : ℕ
  pub source_columns : List String
  pub source_dtype : String
  pub source_dtypes : Dict String

-- A cell of a column of integers is an integer or missing. The divisor is positive, so that the
-- quotient stays in the type of the cell.
unfoldable pub quotient_cell : ℕ → Cell → Cell
quotient_cell m (integer z) = integer (floor_div z m)
quotient_cell m c = c

unfoldable pub remainder_cell : ℕ → Cell → Cell
remainder_cell m (integer z) = integer (floor_mod z m)
remainder_cell m c = c

-- `quotient * modulus + remainder` of columns of 64-bit integers
unfoldable pub combine_cells : ℕ → List Cell → List Cell → List Cell
combine_cells m (integer q ∷ qs) (integer r ∷ rs) =
    integer (combine64 m q r) ∷ combine_cells m qs rs
combine_cells m (q ∷ qs) (r ∷ rs) = missing ∷ combine_cells m qs rs
combine_cells m qs rs = []

abbrev cons_cell : Option Cell → Option (List Cell) → Option (List Cell)
cons_cell none cs = none
cons_cell (some c) none = none
cons_cell (some c) (some cs) = some (c ∷ cs)

abbrev pub has_missing : List Cell → Bool
has_missing [] = false
has_missing (missing ∷ cs) = true
has_missing (c ∷ cs) = has_missing cs

-- `dtype.startswith(("int", "uint", "Int", "UInt"))`
abbrev pub is_integer_name : String → Bool
is_integer_name dtype =
    starts_with dtype "int"
    || starts_with dtype "uint"
    || starts_with dtype "Int"
    || starts_with dtype "UInt"

abbrev pub is_nullable : String → Bool
is_nullable dtype = starts_with dtype "Int" || starts_with dtype "UInt"

abbrev float_names : List String
float_names = "float16" ∷ "float32" ∷ "float64" ∷ "Float32" ∷ "Float64" ∷ []

-- A number that is no operand of a column of integers.
abbrev pub require_operand : Bool → Result (Unit {0})
require_operand true = ok tt
require_operand false = err Error.overflow_error

module _ (pandas : Pandas) where
  -- `(values // modulus).astype("Int64")`, and the same of the remainder.
  unfoldable pub divided : (ℕ → Cell → Cell) → ℕ → Column → Result Column
  divided operation m values =
      require_operand (pandas.takes_operand values.dtype m)
      >> pandas.astype "Int64" (record values { cells = map (operation m) values.cells })

  -- A cell after `numeric.where(missing, rounded)`.
  unfoldable pub rounded_cell : Cell → Option Cell
  rounded_cell missing = some missing
  rounded_cell (integer z) = some (integer (pandas.float_of z))
  rounded_cell (float d) = Option.map integer (pandas.round_close d)
  rounded_cell (boolean b) = none
  rounded_cell (string s) = none

  unfoldable pub rounded_cells : List Cell → Option (List Cell)
  rounded_cells [] = some []
  rounded_cells (c ∷ cs) = cons_cell (rounded_cell c) (rounded_cells cs)

  -- `finite.min() < info.min or finite.max() > info.max` is false.
  unfoldable pub cell_fits : String → Cell → Bool
  cell_fits dtype (integer z) =
      leb_ℤ (pandas.least_value dtype) z && leb_ℤ z (pandas.greatest_value dtype)
  cell_fits dtype c = true

  -- `numeric.astype(dtype)` for an integer type: only the nullable types hold a missing cell.
  unfoldable pub cast_integers : String → List Cell → Result Column
  cast_integers dtype cs =
      if has_missing cs && not (is_nullable dtype)
      then err Error.value_error
      else ok (record { dtype = dtype; cells = cs })

  unfoldable pub restore_integers : String → Option (List Cell) → Result Column
  restore_integers dtype none = err Error.value_error
  restore_integers dtype (some cs) =
      if all (cell_fits dtype) cs then cast_integers dtype cs else err Error.value_error

  unfoldable pub restore_series_dtype : Column → String → Result Column
  restore_series_dtype values dtype = pandas.to_numeric values >>= (λ numeric.
      if is_integer_name dtype
      then restore_integers dtype (rounded_cells numeric.cells)
      else if contains dtype float_names
      then pandas.astype dtype numeric
      else pandas.astype dtype values)

module _ (sha256 : String → String) (pandas : Pandas) (modulus : ℕ) where
  unfoldable pub integer_column : String → String → FeatureSchema → Result String
  integer_column dataset_id seed schema =
      require (not (is_empty schema.integer_columns))
      >> first (selected_columns sha256 schema.integer_columns dataset_id seed 1)

  unfoldable pub fit_remainder :
      Frame → String → String → FeatureSchema → Result RemainderParameters
  fit_remainder x dataset_id seed schema = integer_column dataset_id seed schema >>= (λ column.
      name_of (collision_safe_name (column +++ "__quotient") (keys x)) >>= (λ q.
        name_of (collision_safe_name (column +++ "__remainder") (q ∷ keys x)) >>= (λ r.
          found (lookup column x) >>= (λ source. ok (record {
            selected = column;
            quotient = q;
            remainder = r;
            modulus = modulus;
            source_columns = keys x;
            source_dtype = source.dtype;
            source_dtypes = source_dtype_map schema.columns schema.dtypes;
          })))))

  -- The quotient takes the place of the column and the remainder follows it.
  unfoldable pub insert_both :
      RemainderParameters → Frame → Column → Column → Frame → Result (Frame × RemainderParameters)
  insert_both p x quotients remainders out = index_of p.selected (keys x) >>= (λ position.
      insert_at position p.quotient quotients out
      >>= (λ one. insert_at (position + 1) p.remainder remainders one >>= (λ two. ok (two, p))))

  unfoldable pub place_columns :
      RemainderParameters → Frame → Column → Result (Frame × RemainderParameters)
  place_columns p x values =
      require (pandas.is_integer_type values.dtype)
      >> divided pandas quotient_cell p.modulus values
      >>= (λ quotients.
          divided pandas remainder_cell p.modulus values
          >>= (λ remainders. drop (p.selected ∷ []) x >>= insert_both p x quotients remainders))

  unfoldable pub split_column : RemainderParameters → Frame → Result (Frame × RemainderParameters)
  split_column p x = found (lookup p.selected x) >>= pandas.to_numeric >>= place_columns p x

  unfoldable pub join_column : Frame → RemainderParameters → Result Frame
  join_column z p = found (lookup p.quotient z) >>= (λ q. found (lookup p.remainder z) >>= (λ r.
      require_operand (is_int64 (pos p.modulus))
      >> found (lookup p.selected p.source_dtypes)
      >>= restore_series_dtype pandas
          (record { dtype = "Int64"; cells = combine_cells p.modulus q.cells r.cells })
      >>= (λ restored. drop (p.quotient ∷ p.remainder ∷ []) z >>= (λ out.
          index_of p.selected p.source_columns >>= (λ position.
            insert_at position p.selected restored out >>= select p.source_columns)))))

  unfoldable pub quotient_remainder : Steps RemainderParameters
  quotient_remainder = record {
    view_id = "V07";
    fit_step = fit_remainder;
    transform_step = λ dataset_id seed p x partition. split_column p x;
    reconstruct_step = join_column;
  }
