-- ===== src/Transform/Views/Remainder/Exact.antt =====
-- When an integer column comes back exactly: transformations/quotient_remainder.py.
use Prim.Native.String.{◌++◌ as ◌+++◌}
use schema_guard.Transform.Names.{collision_safe_name}
use schema_guard.Transform.Views.Duplicate.{name_of}
use schema_guard.Base.{
  require, ℕ, ◌+◌, ◌<◌, true, false, not, ◌&&◌, eq_iff, some, List, [], ◌∷◌, map, all, String, ◌==◌,
  ◌≡◌, refl, sym, subst, ap, ◌∙◌, arith, All, pos, ok, found, ◌>>=◌, ◌>>◌, >>=-eq-ok, >>-eq-ok,
  ok-injective, ok-ne-err, Bool-cases, inl, inr,
}
use schema_guard.Base.Dict.{keys, lookup, remove, contains, lookup-remove}
use schema_guard.Transform.Frame.{
  Frame, Cell, missing, boolean, integer, float, string, Column, drop, insert_at, index_of,
}
use schema_guard.Transform.Frame.Select.{select_agreeing}
use schema_guard.Transform.Frame.Insert.{remove-insert_at, remove_comm, reinsert_at}
use schema_guard.Transform.Base.{FeatureSchema}
use schema_guard.Transform.Base.Reconstruct.{IsReversible}
use schema_guard.Transform.Views.Arithmetic.{
  is_int64, int64_half, is_int64-pos, combine64-floor_div, floor_div-is_int64,
}
use schema_guard.Transform.Views.Remainder.{
  Pandas, RemainderParameters, quotient_cell, remainder_cell, combine_cells, rounded_cells,
  rounded_cell, cell_fits, has_missing, cast_integers, is_integer_name, is_nullable,
  restore_integers, require_operand, divided, restore_series_dtype, fit_remainder, integer_column,
  insert_both, place_columns, split_column, join_column, quotient_remainder,
}

-- A 64-bit integer or a missing cell.
abbrev pub IsInt64Cell : Cell → Type 0
IsInt64Cell missing = Unit
IsInt64Cell (integer z) = is_int64 z ≡ true
IsInt64Cell (boolean b) = ⊥
IsInt64Cell (float d) = ⊥
IsInt64Cell (string s) = ⊥

-- A column of 64-bit integers and a positive modulus that is one. pandas takes the column for numbers
-- as it is, and its conversion to Int64 keeps the cells of such a column.
pub record IsDivisible (pandas : Pandas) (p : RemainderParameters) (column : Column) : Type 0 where
  pub some_modulus : 0 < p.modulus
  pub small_modulus : p.modulus < int64_half
  pub integers : All IsInt64Cell column.cells
  pub numeric : pandas.to_numeric column ≡ ok column
  pub casts :
      (cs : List Cell)
      → All IsInt64Cell cs
      → pandas.astype "Int64" (record column { cells = cs })
        ≡ ok (record { dtype = "Int64"; cells = cs })

-- A 64-bit integer that a float holds and the type has room for, or a missing cell.
abbrev pub IsExactCell : Pandas → String → Cell → Type 0
IsExactCell pandas dtype missing = Unit
IsExactCell pandas dtype (integer z) =
    (pandas.float_of z ≡ z) × (cell_fits pandas dtype (integer z) ≡ true)
IsExactCell pandas dtype (boolean b) = ⊥
IsExactCell pandas dtype (float d) = ⊥
IsExactCell pandas dtype (string s) = ⊥

-- A column of an integer type all of whose cells are exact. pandas also takes the column of its cells
-- that the quotient and the remainder give for numbers as it is.
pub record IsExact (pandas : Pandas) (p : RemainderParameters) (column : Column) : Type 0 where
  pub is_divisible : IsDivisible pandas p column
  pub of_source : lookup p.selected p.source_dtypes ≡ some column.dtype
  pub is_integer_dtype : is_integer_name column.dtype ≡ true
  pub exact : All (IsExactCell pandas column.dtype) column.cells
  pub holds_missing : (has_missing column.cells && not (is_nullable column.dtype)) ≡ false
  pub numeric_joined :
      pandas.to_numeric (record { dtype = "Int64"; cells = column.cells })
      ≡ ok (record { dtype = "Int64"; cells = column.cells })

pub combine_integers :
    (m : ℕ) (cs : List Cell)
    → 0 < m
    → m < int64_half
    → All IsInt64Cell cs
    → combine_cells m (map (quotient_cell m) cs) (map (remainder_cell m) cs) ≡ cs
unfolding combine_cells quotient_cell remainder_cell
combine_integers m [] h small e = refl
combine_integers m (missing ∷ cs) h small e = ap (◌∷◌ missing) (combine_integers m cs h small e.1)
combine_integers m (integer z ∷ cs) h small e =
    ap (λ y. integer y ∷ combine_cells m (map (quotient_cell m) cs) (map (remainder_cell m) cs))
      (combine64-floor_div z m h small e.0)
    ∙ ap (◌∷◌ (integer z)) (combine_integers m cs h small e.1)
combine_integers m (boolean b ∷ cs) h small e = absurd e.0
combine_integers m (float b ∷ cs) h small e = absurd e.0
combine_integers m (string b ∷ cs) h small e = absurd e.0

-- The quotients and the remainders are 64-bit integers.
divided_integers :
    (m : ℕ) (cs : List Cell)
    → 0 < m
    → m < int64_half
    → All IsInt64Cell cs
    → All IsInt64Cell (map (quotient_cell m) cs) × All IsInt64Cell (map (remainder_cell m) cs)
unfolding quotient_cell remainder_cell
divided_integers m [] h small e = (tt, tt)
divided_integers m (missing ∷ cs) h small e =
    let (q, r) = divided_integers m cs h small e.1 in ((tt, q), (tt, r))
divided_integers m (integer z ∷ cs) h small e =
    let (q, r) = divided_integers m cs h small e.1 in
    let (first_q, first_r) = floor_div-is_int64 z m h small e.0 in ((first_q, q), (first_r, r))
divided_integers m (boolean b ∷ cs) h small e = absurd e.0
divided_integers m (float b ∷ cs) h small e = absurd e.0
divided_integers m (string b ∷ cs) h small e = absurd e.0

rounded_exact :
    (pandas : Pandas) (dtype : String) (cs : List Cell)
    → All (IsExactCell pandas dtype) cs
    → (rounded_cells pandas cs ≡ some cs) × (all (cell_fits pandas dtype) cs ≡ true)
unfolding rounded_cells rounded_cell cell_fits
rounded_exact pandas dtype [] e = (refl, refl)
rounded_exact pandas dtype (missing ∷ cs) e =
    let (r, f) = rounded_exact pandas dtype cs e.1 in (rw r refl, f)
rounded_exact pandas dtype (integer z ∷ cs) e =
    let (r, f) = rounded_exact pandas dtype cs e.1 in (rw (r, e.0.0) refl, ground (arith, f, e.0.1))
rounded_exact pandas dtype (boolean b ∷ cs) e = absurd e.0
rounded_exact pandas dtype (float b ∷ cs) e = absurd e.0
rounded_exact pandas dtype (string b ∷ cs) e = absurd e.0

restore_exact :
    (pandas : Pandas) (p : RemainderParameters) (column : Column)
    → IsExact pandas p column
    → restore_series_dtype pandas (record { dtype = "Int64"; cells = column.cells }) column.dtype
      ≡ ok column
unfolding restore_series_dtype restore_integers cast_integers
restore_exact pandas p column e =
    let (r, f) = rounded_exact pandas column.dtype column.cells e.exact in
    rw e.numeric_joined (rw e.is_integer_dtype (rw r (rw f (rw e.holds_missing refl))))

lookup-contains :
    (c : String) (f : Frame) (v : Column) → lookup c f ≡ some v → contains c (keys f) ≡ true
unfolding lookup contains
lookup-contains c [] v h = cc
lookup-contains c ((j, w) ∷ f) v h = ground (arith, lookup-contains c f v)

-- A name that could be inserted differs from the names that were there.
names_differ :
    (position : ℕ) (name other : String) (column v : Column) (f g : Frame)
    → insert_at position name column f ≡ ok g
    → lookup other f ≡ some v
    → (name == other) ≡ false
unfolding insert_at
names_differ position name other column v f g h l = elim (Bool-cases (name == other)) [
  | inl e ↦
      let same : name ≡ other = ground (arith, eq_iff name other, e) in
      let found_name : lookup name f ≡ some v = rw same l in
      let has = lookup-contains name f v found_name in absurd (ok-ne-err (sym (rw has at h)))
  | inr e ↦ e
]

module _ (sha256 : String → String) (pandas : Pandas) (modulus : ℕ) where
  -- The table has the selected column, and it is exact.
  unfoldable pub HasExact : RemainderParameters → Frame → Type 0
  HasExact p y = (v : Column) × (lookup p.selected y ≡ some v) × IsExact pandas p v

  fit_remainder-ok :
      (x : Frame) (dataset_id seed : String) (schema : FeatureSchema) (p : RemainderParameters)
      → fit_remainder sha256 pandas modulus x dataset_id seed schema ≡ ok p
      → p.source_columns ≡ keys x
  unfolding fit_remainder
  fit_remainder-ok x dataset_id seed schema p h =
      let (column, chosen, rest) =
        >>=-eq-ok (integer_column sha256 pandas modulus dataset_id seed schema) _ h in
      let (q, named, rest_q) =
        >>=-eq-ok (name_of (collision_safe_name (column +++ "__quotient") (keys x))) _ rest in
      let (r, named_r, rest_r) =
        >>=-eq-ok (name_of (collision_safe_name (column +++ "__remainder") (q ∷ keys x))) _
          rest_q in
      let (source, looked, made) = >>=-eq-ok (found (lookup column x)) _ rest_r in
      ap (λ r. r.source_columns) (sym (ok-injective made))

  abbrev pub quotient_of : RemainderParameters → Column → Column
  quotient_of p v = record { dtype = "Int64"; cells = map (quotient_cell p.modulus) v.cells }

  abbrev pub remainder_of : RemainderParameters → Column → Column
  remainder_of p v = record { dtype = "Int64"; cells = map (remainder_cell p.modulus) v.cells }

  divided-ok :
      (operation : ℕ → Cell → Cell) (p : RemainderParameters) (v : Column) {w : Column}
      → IsDivisible pandas p v
      → All IsInt64Cell (map (operation p.modulus) v.cells)
      → divided pandas operation p.modulus v ≡ ok w
      → w ≡ record { dtype = "Int64"; cells = map (operation p.modulus) v.cells }
  unfolding divided
  divided-ok operation p v fits integers h =
      let (checked, required, cast) =
        >>-eq-ok (require_operand (pandas.takes_operand v.dtype p.modulus)) _ h in
      ok-injective (sym cast ∙ fits.casts (map (operation p.modulus) v.cells) integers)

  -- What has been inserted where.
  abbrev pub IsPlaced :
      RemainderParameters → RemainderParameters → Frame → Frame → Frame → Column → Column → Type 0
  IsPlaced p q y z out quotients remainders =
      (position : ℕ) × (one : Frame) × (index_of p.selected (keys y) ≡ ok position)
      × (insert_at position p.quotient quotients out ≡ ok one)
      × (insert_at (position + 1) p.remainder remainders one ≡ ok z)
      × (p ≡ q)

  insert_both-ok :
      (p q : RemainderParameters) (y z out : Frame) (quotients remainders : Column)
      → insert_both sha256 pandas modulus p y quotients remainders out ≡ ok (z, q)
      → IsPlaced p q y z out quotients remainders
  unfolding insert_both
  insert_both-ok p q y z out quotients remainders h =
      let (position, at, inserts) = >>=-eq-ok (index_of p.selected (keys y)) _ h in
      let (one, first, second) =
        >>=-eq-ok (insert_at position p.quotient quotients out) _ inserts in
      let (two, after, made) =
        >>=-eq-ok (insert_at (position + 1) p.remainder remainders one) _ second in
      let pair = ok-injective made in
      (position, one, at, first, after ∙ ap ok (ap (λ e. e.0) pair), ap (λ e. e.1) pair)

  pub split_column-ok :
      (p q : RemainderParameters) (y z : Frame) (v : Column)
      → split_column sha256 pandas modulus p y ≡ ok (z, q)
      → lookup p.selected y ≡ some v
      → IsDivisible pandas p v
      → IsPlaced p q y z (remove p.selected y) (quotient_of p v) (remainder_of p v)
  unfolding split_column place_columns drop
  split_column-ok p q y z v h looked fits =
      let (integers_q, integers_r) =
        divided_integers p.modulus v.cells fits.some_modulus fits.small_modulus fits.integers in
      let (values, read, placed_values) =
        >>=-eq-ok (found (lookup p.selected y) >>= pandas.to_numeric) _ h in
      let is_v : values ≡ v = ok-injective (sym (rw looked at read) ∙ fits.numeric) in
      let placed : place_columns sha256 pandas modulus p y v ≡ ok (z, q) =
        subst (λ c. place_columns sha256 pandas modulus p y c ≡ ok (z, q)) is_v placed_values in
      let (quotients, both_q, rest_q) =
        >>=-eq-ok
          (require (pandas.is_integer_type v.dtype) >> divided pandas quotient_cell p.modulus v) _
          placed in
      let (checked, required, divided_q) =
        >>-eq-ok _ (divided pandas quotient_cell p.modulus v) both_q in
      let (remainders, divided_r, rest) =
        >>=-eq-ok (divided pandas remainder_cell p.modulus v) _ rest_q in
      let (out, drops, inserted) = >>=-eq-ok (drop (p.selected ∷ []) y) _ rest in
      let is_out : out ≡ remove p.selected y = ok-injective (sym drops ∙ rw looked refl) in
      let is_q = divided-ok quotient_cell p v fits integers_q divided_q in
      let is_r = divided-ok remainder_cell p v fits integers_r divided_r in
      let inserts =
        λ (c d : Column) (f : Frame). insert_both sha256 pandas modulus p y c d f ≡ ok (z, q) in
      insert_both-ok p q y z (remove p.selected y) (quotient_of p v) (remainder_of p v) (
        subst (λ f. inserts (quotient_of p v) (remainder_of p v) f) is_out
          (subst (λ c. inserts c (remainder_of p v) out) is_q
            (subst (λ d. inserts quotients d out) is_r inserted)))

  -- Dropping the two columns again leaves the table without the selected one.
  pub dropped :
      (p : RemainderParameters) (y z one : Frame) (v : Column) (position : ℕ)
      → insert_at position p.quotient (quotient_of p v) (remove p.selected y) ≡ ok one
      → insert_at (position + 1) p.remainder (remainder_of p v) one ≡ ok z
      → (lookup p.quotient z ≡ some (quotient_of p v))
        × (lookup p.remainder z ≡ some (remainder_of p v))
        × (drop (p.quotient ∷ p.remainder ∷ []) z ≡ ok (remove p.selected y))
  unfolding drop
  dropped p y z one v position first second =
      let (without_r, at_r) = remove-insert_at (position + 1) p.remainder _ one z second in
      let (without_q, at_q) =
        remove-insert_at position p.quotient _ (remove p.selected y) one first in
      let differ : (p.remainder == p.quotient) ≡ false =
        names_differ (position + 1) p.remainder p.quotient _ _ one z second at_q in
      let q_in_z : lookup p.quotient z ≡ some (quotient_of p v) = ground (
        arith,
        differ,
        lookup-remove p.remainder p.quotient z,
        ap (lookup p.quotient) without_r,
        at_q,
      ) in
      let r_later : lookup p.remainder (remove p.quotient z) ≡ some (remainder_of p v) = ground (
        arith,
        differ,
        eq_iff p.remainder p.quotient,
        eq_iff p.quotient p.remainder,
        lookup-remove p.quotient p.remainder z,
        at_r,
      ) in
      let rest : remove p.remainder (remove p.quotient z) ≡ remove p.selected y =
        remove_comm p.remainder p.quotient z ∙ ap (remove p.quotient) without_r ∙ without_q in
      (q_in_z, at_r, rw q_in_z (rw r_later (ap ok rest)))

  pub quotient_remainder-IsReversible :
      IsReversible (quotient_remainder sha256 pandas modulus) HasExact
  unfolding quotient_remainder IsReversible HasExact join_column
  quotient_remainder-IsReversible x y z dataset_id seed schema p q partition fit_ok d columns fits
        made =
      let (v, looked, exact) = fits in
      let (position, one, at, first, second, same) =
        split_column-ok p q y z v made looked exact.is_divisible in
      let (at_q, at_r, out) = dropped p y z one v position first second in
      let source : p.source_columns ≡ keys y =
        fit_remainder-ok x dataset_id seed schema p fit_ok ∙ columns in
      let cells =
        combine_integers p.modulus v.cells exact.is_divisible.some_modulus
          exact.is_divisible.small_modulus exact.is_divisible.integers in
      let operand : is_int64 (pos p.modulus) ≡ true =
        is_int64-pos p.modulus exact.is_divisible.small_modulus in
      rw (← same) (
        rw (at_q, at_r, operand, exact.of_source)
          (rw cells (
            rw (restore_exact pandas p v exact) (
              rw out (
                rw source (
                  rw (at, reinsert_at p.selected v position y d at looked)
                    (select_agreeing y y d (λ c i. refl))))))))
