-- ===== src/Split/Folds.antt =====
-- The folds of the rows: `_folds` of splits/selection.py. The held-out indices of each fold come
-- from scikit-learn's StratifiedGroupKFold and are an argument; the rows are in their sorted order.
use schema_guard.Base.{
  ℕ, zero, suc, ◌+◌, Bool, ◌&&◌, if◌then◌else◌, Option, none, some, List, [], ◌∷◌, all, String,
  is_some, Result, Error, ok, err, ◌>>=◌, ◌≡◌,
}
use schema_guard.Hashing.{sort_texts}
use schema_guard.Base.Dict.{Dict, lookup, insert, keys, contains}

-- `xs[index]`
abbrev pub at_index {ℓ} : {A : Type ℓ} → List A → ℕ → Option A
at_index [] i = none
at_index (x ∷ xs) zero = some x
at_index (x ∷ xs) (suc i) = at_index xs i

-- An index past the end raises.
abbrev pub item {ℓ} : {A : Type ℓ} → Option A → Result A
item none = err Error.index_error
item (some a) = ok a

pub item-eq-ok {ℓ} : {A : Type ℓ} (o : Option A) {a : A} → item o ≡ ok a → o ≡ some a
item-eq-ok none h = cc
item-eq-ok (some b) h = cc

-- `for index in held_out`
unfoldable pub hold_out : List String → ℕ → List ℕ → Dict ℕ → Result (Dict ℕ)
hold_out row_ids fold [] result = ok result
hold_out row_ids fold (index ∷ held_out) result = item (at_index row_ids index) >>= (λ row_id.
    (if is_some (lookup row_id result)
      then err Error.value_error
      else ok (insert row_id fold result))
    >>= hold_out row_ids fold held_out)

-- `for fold, (_train, held_out) in enumerate(...)`
unfoldable pub assign_folds : List String → ℕ → List (List ℕ) → Dict ℕ → Result (Dict ℕ)
assign_folds row_ids fold [] result = ok result
assign_folds row_ids fold (held_out ∷ splits) result =
    hold_out row_ids fold held_out result >>= assign_folds row_ids (fold + 1) splits

-- `set(result) == set(row_ids)`
unfoldable pub covers : Dict ℕ → List String → Bool
covers result row_ids =
    all (λ r. contains r row_ids) (keys result) && all (λ r. is_some (lookup r result)) row_ids

-- `astype(str).sort_values(kind="mergesort")`
-- The splits are those of the rows in ascending order of their identifiers.
unfoldable pub folds : List String → List (List ℕ) → Result (Dict ℕ)
folds row_ids splits =
    let ordered = sort_texts row_ids in
    assign_folds ordered 0 splits []
    >>= (λ result. if covers result ordered then ok result else err Error.value_error)
