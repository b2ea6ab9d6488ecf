-- ===== src/Transform/Views/Rows.antt =====
-- The permutation of the training rows: transformations/row_permutation.py. A column is read by row
-- positions; the index that `reset_index` renews is no part of a frame here. `str` of a cell that is no
-- text is an argument.
pub mod Gather
pub mod Order
pub mod Exact
use Prim.Native.String.{◌++◌ as ◌+++◌}
use schema_guard.Base.{
  ℕ, zero, suc, Bool, true, false, if◌then◌else◌, leb, ◌==◌, Option, none, some, List, [], ◌∷◌, map,
  length, String, Result, Error, ok, err, ◌>>=◌, found,
}
use schema_guard.Base.Dict.{lookup, keys, remove}
use schema_guard.Base.Sorting.{sort_by}
use schema_guard.Hashing.{text_le}
use schema_guard.Transform.Frame.{
  Frame, Cell, missing, boolean, integer, float, string, row_id_column,
}
use schema_guard.Transform.Base.{FeatureSchema, Steps}
use schema_guard.Transform.Views.Columns.{positions}

pub record RowParameters : Type 0 where
  pub source_columns : List String
  pub source_row_ids : List String
  pub output_row_ids : List String
  pub forward_order : List ℕ
  pub inverse_order : List ℕ

-- `xs[i]`
unfoldable pub at {ℓ} : {A : Type ℓ} → ℕ → List A → Result A
at i [] = err Error.index_error
at zero (x ∷ xs) = ok x
at (suc i) (x ∷ xs) = at i xs

unfoldable pub pick {ℓ} : {A : Type ℓ} → List ℕ → List A → Result (List A)
pick [] xs = ok []
pick (i ∷ is) xs = at i xs >>= (λ x. pick is xs >>= (λ ys. ok (x ∷ ys)))

-- `frame.iloc[is]`
unfoldable pub iloc : List ℕ → Frame → Result Frame
iloc is [] = ok []
iloc is ((c, v) ∷ f) =
    pick is v.cells
    >>= (λ cells. iloc is f >>= (λ rest. ok ((c, record v { cells = cells }) ∷ rest)))

-- `range(start, start + n)`
unfoldable pub indices : ℕ → ℕ → List ℕ
indices start zero = []
indices start (suc n) = start ∷ indices (suc start) n

-- `{str(row_id): index for index, row_id in enumerate(ids)}`, from the index of the first one: a
-- later index replaces an earlier one.
unfoldable pub last_position : ℕ → String → List String → Option ℕ
last_position start s [] = none
last_position start s (r ∷ rs) = elim (last_position (suc start) s rs) [
  | none ↦ if r == s then some start else none
  | some n ↦ some n
]

-- The rank of a cell; a cell that the dictionary has not is missing.
unfoldable pub rank : List String → Cell → Option ℕ
rank ids (string s) = last_position 0 s ids
rank ids _ = none

-- Missing ranks come last. The rows of equal ranks, which different identifiers never have, keep
-- their order here.
unfoldable pub rank_le : Option ℕ × ℕ → Option ℕ × ℕ → Bool
rank_le (some a, i) (some b, j) = leb a b
rank_le (some a, i) (none, j) = true
rank_le (none, i) (some b, j) = false
rank_le (none, i) (none, j) = true

unfoldable pub enumerate {ℓ} : {A : Type ℓ} → ℕ → List A → List (A × ℕ)
enumerate start [] = []
enumerate start (x ∷ xs) = (x, start) ∷ enumerate (suc start) xs

abbrev pub key_le : String × ℕ → String × ℕ → Bool
key_le p q = text_le p.0 q.0

abbrev pub indexes {ℓ} : {A : Type ℓ} → List (A × ℕ) → List ℕ
indexes = map (λ p. p.1)

abbrev pub restore_column : String
restore_column = "__sg_restore_order"

-- The column that is assigned for the sort is dropped again.
unfoldable pub restore_rows : Frame → RowParameters → Result Frame
restore_rows z p = found (lookup row_id_column z) >>= (λ v.
    iloc (indexes (sort_by rank_le (enumerate 0 (map (rank p.source_row_ids) v.cells)))) z
    >>= (λ out. ok (remove restore_column out)))

module _ (sha256 : String → String) (str : Cell → String) where
  unfoldable pub cell_text : Cell → String
  cell_text (string s) = s
  cell_text c = str c

  -- `[str(value) for value in frame[ROW_ID_COLUMN].tolist()]`
  unfoldable pub row_ids : Frame → Result (List String)
  row_ids f = found (lookup row_id_column f) >>= (λ v. ok (map cell_text v.cells))

  -- The row positions in the order of the digests of the row identifiers.
  unfoldable pub row_order : String → String → List String → List ℕ
  row_order dataset_id seed ids = indexes (
      sort_by key_le
        (enumerate 0 (map (λ r. sha256 (dataset_id +++ "|" +++ seed +++ "|" +++ r)) ids)))

  unfoldable pub permute_rows :
      String → String → RowParameters → Frame → List String → Result (Frame × RowParameters)
  permute_rows dataset_id seed p x ids = iloc (row_order dataset_id seed ids) x >>= (λ out.
      row_ids out >>= (λ outs. positions ids outs >>= (λ forward. positions outs ids >>= (λ inverse.
        ok (
          out,
          record p {
            source_row_ids = ids;
            output_row_ids = outs;
            forward_order = forward;
            inverse_order = inverse;
          },
        )))))

  unfoldable pub transform_rows :
      String → String → RowParameters → Frame → String → Result (Frame × RowParameters)
  transform_rows dataset_id seed p x partition = row_ids x >>= (λ ids.
      let kept = indices 0 (length ids) in
      if partition == "train"
      then permute_rows dataset_id seed p x ids
      else ok (
        x,
        record p {
          source_row_ids = ids;
          output_row_ids = ids;
          forward_order = kept;
          inverse_order = kept;
        },
      ))

  unfoldable pub row_permutation : Steps RowParameters
  row_permutation = record {
    view_id = "V09";
    fit_step = λ x dataset_id seed schema. ok (record {
      source_columns = keys x;
      source_row_ids = [];
      output_row_ids = [];
      forward_order = [];
      inverse_order = [];
    });
    transform_step = transform_rows;
    reconstruct_step = restore_rows;
  }
