-- ===== src/Transform/Views/Roundtrip.antt =====
-- The views give the tables back: `transform` and `reconstruct` of the classes in
-- transformations/identity.py, column_permutation.py, duplicate_feature.py,
-- row_permutation.py and quotient_remainder.py.
use schema_guard.Base.{ℕ, ◌-◌, ◌<◌, true, pos, some, List, map, [], ◌∷◌, ◌++◌, String, ◌≡◌, All, ok}
use schema_guard.Base.Dict.{lookup, keys}
use schema_guard.Transform.Frame.{
  Frame, Cell, missing, boolean, integer, float, string, Column, distinct,
}
use schema_guard.Transform.Frame.Place.{index_of-IsSplit, replaced}
use schema_guard.Transform.Base.{
  FeatureSchema, Steps, Fitted, fit, transform, reconstruct, certificate_for,
}
use schema_guard.Transform.Base.Reconstruct.{Roundtrips, transform-reconstruct}
use schema_guard.Transform.Views.Identity.{
  IdentityParameters, identity_view, identity_view-IsReversible,
}
use schema_guard.Transform.Views.Columns.{
  PermutationParameters, column_permutation, column_permutation-IsReversible,
}
use schema_guard.Transform.Views.Rows.{RowParameters, row_permutation}
use schema_guard.Transform.Views.Rows.Exact.{HasRowIds, row_permutation-IsReversible}
use schema_guard.Transform.Views.Duplicate.{
  DuplicateParameters, duplicate_feature, duplicate_feature-IsReversible,
}
use schema_guard.Transform.Views.Arithmetic.{leb_ℤ, floor_div-floor_mod}
use schema_guard.Transform.Views.Remainder.{
  Pandas, RemainderParameters, remainder_cell, combine_cells, split_column, quotient_remainder,
}
use schema_guard.Transform.Views.Remainder.Exact.{
  HasExact, IsInt64Cell, IsDivisible, quotient_of, remainder_of, combine_integers, split_column-ok,
  quotient_remainder-IsReversible,
}

-- The views that only move columns or add them.
pub data FrameView : Type 0 where
  v00 v05 v08 : FrameView

-- `view.factory` of the registry, for these views.
abbrev pub ParametersOf : FrameView → Type 0
ParametersOf v00 = IdentityParameters
ParametersOf v05 = DuplicateParameters
ParametersOf v08 = PermutationParameters

unfoldable pub factory : (String → String) → (v : FrameView) → Steps (ParametersOf v)
factory sha256 v00 = identity_view
factory sha256 v05 = duplicate_feature sha256
factory sha256 v08 = column_permutation sha256

-- The identity view, the duplicate of a column and the permutation of the columns give every table
-- back: what a fitted object has transformed, it reconstructs exactly from the certificate of the
-- partition, whatever the digests are.
pub frame_view_roundtrip :
    (sha256 : String → String) (v : FrameView) (x y z : Frame) (dataset_id seed : String)
    (schema : FeatureSchema) (t u : Fitted (ParametersOf v)) (partition : String)
    → fit (factory sha256 v) x dataset_id seed schema ≡ ok t
    → transform (factory sha256 v) (some t) y partition ≡ ok (z, u)
    → reconstruct (factory sha256 v) (some u) z (certificate_for (factory sha256 v) u partition)
      ≡ ok y
unfolding factory Roundtrips
frame_view_roundtrip sha256 v00 x y z dataset_id seed schema t u partition f h =
    transform-reconstruct identity_view _ identity_view-IsReversible x y z dataset_id seed schema t
      u partition f tt h
frame_view_roundtrip sha256 v05 x y z dataset_id seed schema t u partition f h =
    transform-reconstruct (duplicate_feature sha256) _ (duplicate_feature-IsReversible sha256) x y z
      dataset_id seed schema t u partition f tt h
frame_view_roundtrip sha256 v08 x y z dataset_id seed schema t u partition f h =
    transform-reconstruct (column_permutation sha256) _ (column_permutation-IsReversible sha256) x y
      z dataset_id seed schema t u partition f tt h

-- The permutation of the training rows gives the columns of a table back exactly, in training and in
-- the other partitions, whatever the digests are, if its rows have different texts as identifiers, its
-- columns have a cell for each row, and no column has the name of the one that the reconstruction adds.
pub row_permutation_roundtrip :
    (sha256 : String → String) (str : Cell → String) (x y z : Frame) (dataset_id seed : String)
    (schema : FeatureSchema) (t u : Fitted RowParameters) (partition : String)
    → fit (row_permutation sha256 str) x dataset_id seed schema ≡ ok t
    → HasRowIds y
    → transform (row_permutation sha256 str) (some t) y partition ≡ ok (z, u)
    → reconstruct
        (row_permutation sha256 str)
        (some u)
        z
        (certificate_for (row_permutation sha256 str) u partition)
      ≡ ok y
unfolding Roundtrips
row_permutation_roundtrip sha256 str x y z dataset_id seed schema t u partition f rows h =
    transform-reconstruct (row_permutation sha256 str) _ (row_permutation-IsReversible sha256 str) x
      y z dataset_id seed schema t u partition f rows h

-- The view of quotient and remainder gives a table back exactly, as above, if the modulus is a
-- positive 64-bit integer and the selected column has the integer type of the training table, one that
-- has room for its cells, each missing or a 64-bit integer that a float holds. pandas' conversions are
-- taken to keep the values that the new type holds.
pub quotient_remainder_roundtrip :
    (sha256 : String → String) (pandas : Pandas) (modulus : ℕ) (x y z : Frame)
    (dataset_id seed : String) (schema : FeatureSchema) (t u : Fitted RemainderParameters)
    (partition : String)
    → fit (quotient_remainder sha256 pandas modulus) x dataset_id seed schema ≡ ok t
    → HasExact sha256 pandas modulus t.fit_parameters y
    → transform (quotient_remainder sha256 pandas modulus) (some t) y partition ≡ ok (z, u)
    → reconstruct
        (quotient_remainder sha256 pandas modulus)
        (some u)
        z
        (certificate_for (quotient_remainder sha256 pandas modulus) u partition)
      ≡ ok y
unfolding Roundtrips
quotient_remainder_roundtrip sha256 pandas modulus =
    transform-reconstruct (quotient_remainder sha256 pandas modulus) _
      (quotient_remainder-IsReversible sha256 pandas modulus)

-- Missing, or a number from 0 to m - 1.
abbrev pub IsRemainder : ℕ → Cell → Type 0
IsRemainder m missing = Unit
IsRemainder m (integer z) = (leb_ℤ (pos 0) z ≡ true) × (leb_ℤ z (pos (m - 1)) ≡ true)
IsRemainder m (boolean b) = ⊥
IsRemainder m (float d) = ⊥
IsRemainder m (string s) = ⊥

remainders :
    (m : ℕ) (cs : List Cell)
    → 0 < m
    → All IsInt64Cell cs
    → All (IsRemainder m) (map (remainder_cell m) cs)
unfolding remainder_cell
remainders m [] h e = tt
remainders m (missing ∷ cs) h e = (tt, remainders m cs h e.1)
remainders m (integer z ∷ cs) h e =
    let bounds = floor_div-floor_mod z m h in ((bounds.0, bounds.1), remainders m cs h e.1)
remainders m (boolean b ∷ cs) h e = absurd e.0
remainders m (float d ∷ cs) h e = absurd e.0
remainders m (string s ∷ cs) h e = absurd e.0

-- When a table of different column names is split, and its selected column and the modulus m are
-- 64-bit integers, m positive, two columns stand in the place of the selected one: remainders from 0
-- to m - 1, and quotients that give its cells back as quotient * m + remainder in 64-bit arithmetic.
-- The columns before and after it are as they were.
pub split_column-IsRemainder :
    (sha256 : String → String) (pandas : Pandas) (modulus : ℕ) (p q : RemainderParameters)
    (y z : Frame) (v : Column)
    → distinct (keys y) ≡ true
    → lookup p.selected y ≡ some v
    → IsDivisible pandas p v
    → split_column sha256 pandas modulus p y ≡ ok (z, q)
    → (before after : Frame) × (quotients remainders : Column) × (y
        ≡ before ++ ((p.selected, v) ∷ after))
      × (z ≡ before ++ ((p.quotient, quotients) ∷ (p.remainder, remainders) ∷ after))
      × All (IsRemainder p.modulus) remainders.cells
      × (combine_cells p.modulus quotients.cells remainders.cells ≡ v.cells)
split_column-IsRemainder sha256 pandas modulus p q y z v d looked fits split =
    let (position, one, at, first, second, same) =
      split_column-ok sha256 pandas modulus p q y z v split looked fits in
    let (before, after, whole, out) =
      replaced p.selected p.quotient p.remainder v _ _ position y one z
        (index_of-IsSplit p.selected v position y d at looked) first second in
    (
      before,
      after,
      quotient_of sha256 pandas modulus p v,
      remainder_of sha256 pandas modulus p v,
      whole,
      out,
      remainders p.modulus v.cells fits.some_modulus fits.integers,
      combine_integers p.modulus v.cells fits.some_modulus fits.small_modulus fits.integers,
    )
