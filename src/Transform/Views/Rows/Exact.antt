-- ===== src/Transform/Views/Rows/Exact.antt =====
-- The rows come back in their order: `_transform` and `_reconstruct` of
-- transformations/row_permutation.py.
use Prim.Native.String.{◌++◌ as ◌+++◌}
use schema_guard.Base.{
  ℕ, true, false, ◌==◌, some, List, [], ◌∷◌, map, length, length-map, String, ◌≡◌, refl, sym, ap,
  subst, ◌∙◌, arith, All, Bool-cases, inl, inr, ok, >>=-eq-ok, ok-injective,
}
use schema_guard.Base.Dict.{lookup, keys, contains, remove}
use schema_guard.Base.Sorting.{sort_by}
use schema_guard.Transform.Frame.{Frame, Column, Cell, missing, string, row_id_column, distinct}
use schema_guard.Transform.Frame.Insert.{remove_absent}
use schema_guard.Transform.Base.Reconstruct.{IsReversible}
use schema_guard.Transform.Views.Columns.{positions}
use schema_guard.Transform.Views.Rows.{
  RowParameters, iloc, indices, rank, rank_le, enumerate, indexes, key_le, restore_column,
  cell_text, row_ids, row_order, permute_rows, transform_rows, restore_rows, row_permutation,
  last_position,
}
use schema_guard.Transform.Views.Rows.Gather.{
  get, gather, Within, gathered, HasRows, iloc-ok, HasRows-gathered, gathered-gathered,
  gathered_all, lookup-gathered, gather-map,
}
use schema_guard.Transform.Views.Rows.Order.{
  sort_numbers, sort_numbers-positions, sort_numbers-indices, indices-Within, positions-Within,
  ranked, gather-ranked, last_position-get,
}

-- A table whose rows have different texts as identifiers, whose columns have a cell for each row,
-- and which has no column of the name that the reconstruction uses.
pub record HasRowIds (y : Frame) : Type 0 where
  pub ids : List String
  pub column : Column
  pub there : lookup row_id_column y ≡ some column
  pub texts : column.cells ≡ map string ids
  pub differ : distinct ids ≡ true
  pub even : HasRows (length ids) y
  pub free : contains restore_column (keys y) ≡ false

module _ (ids : List String) (differ : distinct ids ≡ true) where
  -- The ranks of the identifiers that stand at the positions of an order are these positions.
  ranks :
      (order : List ℕ)
      → All (Within (length ids)) order
      → map (rank ids) (map string (gather "" ids order)) ≡ map some order
  unfolding rank
  ranks [] h = refl
  ranks (i ∷ order) h =
      let first : last_position 0 (get "" ids i) ids ≡ some i =
        last_position-get 0 i ids differ h.0 ∙ ap some (omega arith) in
      rw (first, ranks order h.1) refl

module _ {y : Frame} (rows : HasRowIds y) (order : List ℕ)
    (within : All (Within (length rows.ids)) order)
    (complete : sort_numbers order ≡ indices 0 (length rows.ids)) where
  inside : All (Within (length order)) (indexes (sort_by rank_le (ranked order)))
  inside =
      subst (λ n. All (Within n) (indexes (sort_by rank_le (ranked order)))) (length-map some order)
        (positions-Within rank_le (map some order))

  restored : gathered (indexes (sort_by rank_le (ranked order))) (gathered order y) ≡ y
  restored =
      gathered-gathered (indexes (sort_by rank_le (ranked order))) order y inside
      ∙ ap (λ is. gathered is y) (gather-ranked order ∙ complete)
      ∙ gathered_all (length rows.ids) y rows.even

  restore_gathered :
      (p : RowParameters) → p.source_row_ids ≡ rows.ids → restore_rows (gathered order y) p ≡ ok y
  unfolding restore_rows
  restore_gathered p source =
      let texts =
        ap (λ cs. gather missing cs order) rows.texts
        ∙ gather-map missing "" string rows.ids order within in
      let rank_cells : map (rank p.source_row_ids) (gather missing rows.column.cells order)
          ≡ map some order =
        ap (λ ids. map (rank ids) (gather missing rows.column.cells order)) source
        ∙ ap (map (rank rows.ids)) texts
        ∙ ranks rows.ids rows.differ order within in
      rw (lookup-gathered row_id_column order y rows.there) (
        rw rank_cells (
          rw
            (iloc-ok (indexes (sort_by rank_le (ranked order))) (length order) (gathered order y)
              (HasRows-gathered order y) inside)
            (ap (λ f. ok (remove restore_column f)) restored
              ∙ ap ok (remove_absent restore_column y rows.free))))

module _ (sha256 : String → String) (str : Cell → String) where
  cell_texts : (ids : List String) → map (cell_text sha256 str) (map string ids) ≡ ids
  unfolding cell_text
  cell_texts [] = refl
  cell_texts (r ∷ rs) = ap (◌∷◌ r) (cell_texts rs)

  row_ids-ok : {y : Frame} (rows : HasRowIds y) → row_ids sha256 str y ≡ ok rows.ids
  unfolding row_ids
  row_ids-ok rows =
      rw (rows.there) (ap ok (ap (map (cell_text sha256 str)) rows.texts ∙ cell_texts rows.ids))

  row_order-Within :
      (dataset_id seed : String) (ids : List String)
      → All (Within (length ids)) (row_order sha256 str dataset_id seed ids)
        × (sort_numbers (row_order sha256 str dataset_id seed ids) ≡ indices 0 (length ids))
  unfolding row_order
  row_order-Within dataset_id seed ids =
      let digests = map (λ r. sha256 (dataset_id +++ "|" +++ seed +++ "|" +++ r)) ids in
      let size : length digests ≡ length ids = length-map _ ids in
      (
        subst (λ n. All (Within n) (indexes (sort_by key_le (enumerate 0 digests)))) size
            (positions-Within key_le digests),
        sort_numbers-positions key_le digests ∙ ap (indices 0) size,
      )

  -- What the step leaves: the rows in an order of all positions, and the identifiers as they were.
  IsReordered : (y z : Frame) (q : RowParameters) → HasRowIds y → Type 0
  IsReordered y z q rows =
      (order : List ℕ) × All (Within (length rows.ids)) order
      × (sort_numbers order ≡ indices 0 (length rows.ids))
      × (gathered order y ≡ z)
      × (q.source_row_ids ≡ rows.ids)

  permute_rows-IsReordered :
      (dataset_id seed : String) (p q : RowParameters) (y z : Frame) (rows : HasRowIds y)
      → permute_rows sha256 str dataset_id seed p y rows.ids ≡ ok (z, q)
      → IsReordered y z q rows
  unfolding permute_rows IsReordered
  permute_rows-IsReordered dataset_id seed p q y z rows made =
      let order = row_order sha256 str dataset_id seed rows.ids in
      let (within, complete) = row_order-Within dataset_id seed rows.ids in
      let (out, picked, h1) = >>=-eq-ok (iloc order y) _ made in
      let (outs, read, h2) = >>=-eq-ok (row_ids sha256 str out) _ h1 in
      let (forward, first, h3) = >>=-eq-ok (positions rows.ids outs) _ h2 in
      let (inverse, second, h4) = >>=-eq-ok (positions outs rows.ids) _ h3 in
      let is_out =
        ok-injective (sym (iloc-ok order (length rows.ids) y rows.even within) ∙ picked) in
      let pair = ok-injective h4 in
      (
        order,
        within,
        complete,
        is_out ∙ ap (λ e. e.0) pair,
        ap (λ e. e.1.source_row_ids) (sym pair),
      )

  transform_rows-IsReordered :
      (dataset_id seed : String) (p q : RowParameters) (y z : Frame) (partition : String)
      (rows : HasRowIds y)
      → transform_rows sha256 str dataset_id seed p y partition ≡ ok (z, q)
      → IsReordered y z q rows
  unfolding transform_rows IsReordered
  transform_rows-IsReordered dataset_id seed p q y z partition rows made =
      let known = rw (row_ids-ok rows) at made in
      elim (Bool-cases (partition == "train")) [
        | inl train ↦ permute_rows-IsReordered dataset_id seed p q y z rows (rw train at known)
        | inr other ↦
            let pair = ok-injective (rw other at known) in
            let n = length rows.ids in
            (
              indices 0 n,
              indices-Within 0 n n (omega arith),
              sort_numbers-indices 0 n,
              gathered_all n y rows.even ∙ ap (λ e. e.0) pair,
              ap (λ e. e.1.source_row_ids) (sym pair),
            )
      ]

  -- The view of the rows gives a table back.
  pub row_permutation-IsReversible : IsReversible (row_permutation sha256 str) (λ p y. HasRowIds y)
  unfolding row_permutation IsReversible IsReordered
  row_permutation-IsReversible x y z dataset_id seed schema p q partition fit_ok d columns rows
        made =
      let (order, within, complete, same, source) =
        transform_rows-IsReordered dataset_id seed p q y z partition rows made in
      subst (λ f. restore_rows f q ≡ ok y) same
        (restore_gathered rows order within complete q source)
