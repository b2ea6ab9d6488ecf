-- ===== src/Split/Select.antt =====
-- The choice among all pairs of folds: `select_fold_assignment` of splits/selection.py. The folds
-- come from scikit-learn's StratifiedGroupKFold and are an argument.
pub mod Order
pub mod Best
pub mod Chosen
pub mod Tallied
use schema_guard.Base.{
  ℕ, zero, suc, ◌+◌, Bool, true, false, ◌||◌, ◌&&◌, if◌then◌else◌, ltb, eqb, List, [], ◌∷◌, ◌++◌,
  String, Result, ok, ◌>>=◌,
}
use schema_guard.Base.Dict.{Dict}
use schema_guard.Split.Config.{Arithmetic, SplitGenerationConfig, same_numbers}
use schema_guard.Split.Candidate.{
  Selection, SortKey, Item, empty_partition, hard_constraint_violation, valid, candidate,
}

-- The order of tuples of numbers.
unfoldable pub precedes : List ℕ → List ℕ → Bool
precedes [] [] = false
precedes [] (y ∷ ys) = true
precedes (x ∷ xs) [] = false
precedes (x ∷ xs) (y ∷ ys) = ltb x y || eqb x y && precedes xs ys

-- The order of the keys `(size_score, class_score, train_folds, calibration_fold, test_fold)`.
unfoldable pub key_precedes : SortKey → SortKey → Bool
key_precedes k l =
    ltb k.size_score l.size_score
    || eqb k.size_score l.size_score
      && (ltb k.class_score l.class_score
          || eqb k.class_score l.class_score
            && (precedes k.train_folds l.train_folds
                || same_numbers k.train_folds l.train_folds
                  && (ltb k.calibration_fold l.calibration_fold
                      || eqb k.calibration_fold l.calibration_fold && ltb k.test_fold l.test_fold)))

-- `min(candidates, key=...)` of a list whose first element is given: a later candidate is taken only
-- when its key is smaller.
unfoldable pub least : Selection → List Selection → Selection
least best [] = best
least best (c ∷ cs) = least (if key_precedes c.sort_key best.sort_key then c else best) cs

-- `range(start, start + n)`
unfoldable pub range_from : ℕ → ℕ → List ℕ
range_from start zero = []
range_from start (suc n) = start ∷ range_from (start + 1) n

-- What the two loops have collected.
pub record Search : Type 0 where
  pub candidates : List Selection
  pub candidate_diagnostics : List (ℕ × ℕ × Item)
  pub hard_violation_candidates : ℕ

-- The body of the inner loop after the candidate is judged.
unfoldable pub note_item : ℕ → ℕ → Item → Search → Search
note_item cal tst empty_partition s = record s {
  candidate_diagnostics = s.candidate_diagnostics ++ ((cal, tst, empty_partition) ∷ []);
}
note_item cal tst (hard_constraint_violation c) s = record s {
  candidate_diagnostics = s.candidate_diagnostics ++ ((cal, tst, hard_constraint_violation c) ∷ []);
  hard_violation_candidates = s.hard_violation_candidates + 1;
}
note_item cal tst (valid selection) s = record s {
  candidate_diagnostics = s.candidate_diagnostics ++ ((cal, tst, valid selection) ∷ []);
  candidates = s.candidates ++ (selection ∷ []);
}

-- `for test_fold in test_folds`; `judged` is the call of `_candidate`.
unfoldable pub search_tests : (ℕ → ℕ → Result Item) → ℕ → List ℕ → Search → Result Search
search_tests judged calibration_fold [] s = ok s
search_tests judged calibration_fold (test_fold ∷ test_folds) s =
    (if eqb calibration_fold test_fold
      then ok s
      else judged calibration_fold test_fold
        >>= (λ item. ok (note_item calibration_fold test_fold item s)))
    >>= search_tests judged calibration_fold test_folds

-- `for calibration_fold in calibration_folds`
unfoldable pub search_folds : (ℕ → ℕ → Result Item) → List ℕ → List ℕ → Search → Result Search
search_folds judged [] folds s = ok s
search_folds judged (calibration_fold ∷ calibration_folds) folds s =
    search_tests judged calibration_fold folds s >>= search_folds judged calibration_folds folds

pub data Outcome : Type 0 where
  constraint_infeasible : Search → Outcome
  pass : Selection → Search → Outcome

-- Nothing is selected from no candidates.
unfoldable pub select_least : Search → List Selection → Outcome
select_least s [] = constraint_infeasible s
select_least s (c ∷ cs) = pass (least c cs) s

abbrev pub no_search : Search
no_search = record { candidates = []; candidate_diagnostics = []; hard_violation_candidates = 0 }

unfoldable pub select_fold_assignment :
    Arithmetic → SplitGenerationConfig → Dict ℕ → List String → Dict ℕ → Result Outcome
select_fold_assignment a config fold_by_row row_ids target_by_row =
    let folds = range_from 0 config.group_folds in
    search_folds (candidate a config fold_by_row row_ids target_by_row) folds folds no_search
    >>= (λ s. ok (select_least s s.candidates))
