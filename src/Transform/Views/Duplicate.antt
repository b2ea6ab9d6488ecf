-- ===== src/Transform/Views/Duplicate.antt =====
-- The duplicate of a column: transformations/duplicate_feature.py.
use Prim.Native.String.{◌++◌ as ◌+++◌}
use schema_guard.Base.{
  require, same_bool, Bool, true, false, not, ◌&&◌, if◌then◌else◌, ◌==◌, eq_iff, eq_refl, eqb, ℤ,
  pos, negsuc, Option, none, some, List, [], ◌∷◌, String, ◌≡◌, sym, ap, subst, ◌∙◌, arith, In,
  Result, Error, ok, err, found, ◌>>=◌, ◌>>◌, >>=-eq-ok, ok-injective, ok-ne-err,
}
use schema_guard.Base.Dict.{keys, contains, lookup, insert, remove, lookup-insert, lookup-remove}
use schema_guard.Split.Counts.{found-eq-ok}
use schema_guard.Transform.Names.{collision_safe_name, collision_safe_name_fresh}
use schema_guard.Transform.Frame.{
  Frame, Cell, missing, boolean, integer, float, string, Column, select, drop,
}
use schema_guard.Transform.Frame.Select.{select_agreeing, In-contains}
use schema_guard.Transform.Base.{FeatureSchema, Steps}
use schema_guard.Transform.Base.Reconstruct.{IsReversible}
use schema_guard.Transform.Views.Digest.{selected_columns}

pub record DuplicateParameters : Type 0 where
  pub selected : String
  pub generated : String
  pub source_columns : List String
  pub projection_validated : Bool

-- The loop of the name always ends, so that the other case does not occur.
abbrev pub name_of : Option String → Result String
name_of none = err Error.runtime_error
name_of (some name) = ok name

-- `xs[0]`
abbrev pub first : List String → Result String
first [] = err Error.index_error
first (c ∷ cs) = ok c

abbrev same_integer : ℤ → ℤ → Bool
same_integer (pos m) (pos n) = eqb m n
same_integer (pos m) (negsuc n) = false
same_integer (negsuc m) (pos n) = false
same_integer (negsuc m) (negsuc n) = eqb m n

-- Missing cells are equal.
unfoldable pub same_cell : Cell → Cell → Bool
same_cell missing missing = true
same_cell (boolean a) (boolean b) = same_bool a b
same_cell (integer a) (integer b) = same_integer a b
same_cell (float a) (float b) = eqb a b
same_cell (string a) (string b) = a == b
same_cell a b = false

unfoldable pub same_cells : List Cell → List Cell → Bool
same_cells [] [] = true
same_cells (a ∷ as_) (b ∷ bs) = same_cell a b && same_cells as_ bs
same_cells as_ bs = false

-- `a.equals(b)`
unfoldable pub equals : Column → Column → Bool
equals a b = a.dtype == b.dtype && same_cells a.cells b.cells

abbrev pub is_empty : List String → Bool
is_empty [] = true
is_empty (c ∷ cs) = false

abbrev or_else : List String → List String → List String
or_else [] ds = ds
or_else (c ∷ cs) ds = c ∷ cs

module _ (sha256 : String → String) where
  unfoldable pub fit_duplicate :
      Frame → String → String → FeatureSchema → Result DuplicateParameters
  fit_duplicate x dataset_id seed schema =
      let candidates = or_else schema.numeric_columns schema.categorical_columns in
      (require (not (is_empty candidates))
        >> first (selected_columns sha256 candidates dataset_id seed 1))
      >>= (λ parent. name_of (collision_safe_name (parent +++ "__duplicate") (keys x)) >>= (λ name.
          ok (record {
            selected = parent;
            generated = name;
            source_columns = keys x;
            projection_validated = false;
          })))

  unfoldable pub duplicate_columns :
      DuplicateParameters → Frame → Result (Frame × DuplicateParameters)
  duplicate_columns p x = found (lookup p.selected x) >>= (λ parent.
      let out = insert p.generated parent x in
      found (lookup p.selected out) >>= (λ left. found (lookup p.generated out) >>= (λ right.
        if equals left right
        then ok (out, record p { projection_validated = true })
        else err Error.value_error)))

  unfoldable pub duplicate_feature : Steps DuplicateParameters
  duplicate_feature = record {
    view_id = "V05";
    fit_step = fit_duplicate;
    transform_step = λ dataset_id seed p x partition. duplicate_columns p x;
    reconstruct_step = λ z p. drop (p.generated ∷ []) z >>= select p.source_columns;
  }

  fit_duplicate-ok :
      (x : Frame) (dataset_id seed : String) (schema : FeatureSchema) (p : DuplicateParameters)
      → fit_duplicate x dataset_id seed schema ≡ ok p
      → (p.source_columns ≡ keys x) × (contains p.generated (keys x) ≡ false)
  unfolding fit_duplicate
  fit_duplicate-ok x dataset_id seed schema p h =
      let candidates = or_else schema.numeric_columns schema.categorical_columns in
      let (parent, one, rest) =
        >>=-eq-ok
          (require (not (is_empty candidates))
            >> first (selected_columns sha256 candidates dataset_id seed 1))
          _ h in
      let (fresh, named, new) = collision_safe_name_fresh (parent +++ "__duplicate") (keys x) in
      let (name, chosen, made) =
        >>=-eq-ok (name_of (collision_safe_name (parent +++ "__duplicate") (keys x))) _ rest in
      let same_name : name ≡ fresh = ok-injective (sym chosen ∙ ap name_of named) in
      let same = sym (ok-injective made) in
      (
        ap (λ r. r.source_columns) same,
        subst (λ n. contains n (keys x) ≡ false) (sym (ap (λ r. r.generated) same ∙ same_name)) new,
      )

  duplicate_columns-ok :
      (p q : DuplicateParameters) (x z : Frame)
      → duplicate_columns p x ≡ ok (z, q)
      → (parent : Column) × (lookup p.selected x ≡ some parent)
        × (z ≡ insert p.generated parent x)
        × (q.generated ≡ p.generated)
        × (q.source_columns ≡ p.source_columns)
  unfolding duplicate_columns
  duplicate_columns-ok p q x z h =
      let (parent, looked, rest) = >>=-eq-ok (found (lookup p.selected x)) _ h in
      let out = insert p.generated parent x in
      let (left, at_left, rest_left) = >>=-eq-ok (found (lookup p.selected out)) _ rest in
      let (right, at_right, made) = >>=-eq-ok (found (lookup p.generated out)) _ rest_left in
      let pair = checked (equals left right) out made in
      (
        parent,
        found-eq-ok (lookup p.selected x) looked,
        sym (ap (λ e. e.0) pair),
        sym (ap (λ e. e.1.generated) pair),
        sym (ap (λ e. e.1.source_columns) pair),
      )
    where
      checked :
          (b : Bool) (out : Frame)
          → if◌then◌else◌ {A = Result (Frame × DuplicateParameters)} b
              (ok (out, record p { projection_validated = true }))
              (err Error.value_error)
            ≡ ok (z, q)
          → ◌≡◌ {A = Frame × DuplicateParameters}
              (out, record p { projection_validated = true })
              (z, q)
      checked true out e = ok-injective e
      checked false out e = absurd (ok-ne-err (sym e))

  others :
      (c : String) (parent : Column) (y z : Frame) (name name' : String)
      → z ≡ insert name parent y
      → name' ≡ name
      → contains name (keys y) ≡ false
      → In c (keys y)
      → lookup c (remove name' z) ≡ lookup c y
  others c parent y z name name' is_out same new i =
      rw (same, is_out)
        (ground (
          arith,
          lookup-remove name c (insert name parent y),
          lookup-insert name c parent y,
          eq_iff name c,
          In-contains i,
          new,
        ))

  -- Dropping the duplicate gives the table back.
  pub duplicate_feature-IsReversible : IsReversible duplicate_feature (λ p y. Unit)
  unfolding duplicate_feature IsReversible drop
  duplicate_feature-IsReversible x y z dataset_id seed schema p q partition fit_ok d columns fits
        made =
      let (source, new) = fit_duplicate-ok x dataset_id seed schema p fit_ok in
      let (parent, looked, is_out, same_name, same_source) = duplicate_columns-ok p q y z made in
      let new_y : contains p.generated (keys y) ≡ false =
        subst (λ cs. contains p.generated cs ≡ false) columns new in
      let there_now : lookup q.generated z ≡ some parent =
        rw (is_out, same_name)
          (ground (arith, lookup-insert p.generated p.generated parent y, eq_refl p.generated)) in
      let names : q.source_columns ≡ keys y = same_source ∙ source ∙ columns in
      rw there_now (
        rw names (
          select_agreeing y (remove q.generated z) d
            (λ c i. others c parent y z p.generated q.generated is_out same_name new_y i)))
