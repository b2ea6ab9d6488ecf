-- ===== src/Transform/Frame.antt =====
-- Tables of columns, as far as the views use pandas' data frames: a column is its type and its
-- cells, a frame is its columns by name, in order. The index of the rows is left out.
pub mod Select
pub mod Insert
pub mod Place
use schema_guard.Base.{
  ℕ, zero, suc, Bool, true, false, not, ◌&&◌, if◌then◌else◌, ◌==◌, is_some, all, ℤ, Option, none,
  some, List, [], ◌∷◌, map, String, Result, Error, ok, err, found, ◌>>=◌,
}
use schema_guard.Base.Dict.{Dict, lookup, insert, remove, keys, contains}
use schema_guard.Split.Config.{Double}

pub data Cell : Type 0 where
  missing : Cell
  boolean : Bool → Cell
  integer : ℤ → Cell
  float : Double → Cell
  string : String → Cell

pub record Column : Type 0 where
  pub dtype : String
  pub cells : List Cell

abbrev pub Frame : Type 0
Frame = Dict Column

abbrev pub row_id_column : String
row_id_column = "__sg_row_id"

-- `not columns.duplicated().any()`
unfoldable pub distinct : List String → Bool
distinct [] = true
distinct (c ∷ cs) = not (contains c cs) && distinct cs

-- `frame[columns]`
unfoldable pub select : List String → Frame → Result Frame
select [] f = ok []
select (c ∷ cs) f =
    found (lookup c f) >>= (λ column. select cs f >>= (λ rest. ok ((c, column) ∷ rest)))

-- `frame.drop(columns=columns)`: a missing column raises.
unfoldable pub drop : List String → Frame → Result Frame
drop [] f = ok f
drop (c ∷ cs) f = found (lookup c f) >>= (λ column. drop cs (remove c f))

unfoldable pub insert_checked : ℕ → String → Column → Frame → Result Frame
insert_checked zero name column f = ok ((name, column) ∷ f)
insert_checked (suc position) name column [] = err Error.index_error
insert_checked (suc position) name column ((c, other) ∷ f) =
    insert_checked position name column f >>= (λ rest. ok ((c, other) ∷ rest))

-- `frame.insert(position, name, column)`: a name that is there raises, and so does a position past
-- the end.
unfoldable pub insert_at : ℕ → String → Column → Frame → Result Frame
unfolding insert_checked
insert_at position name column f =
    if contains name (keys f) then err Error.value_error else insert_checked position name column f

-- `names.index(name)`
unfoldable pub index_of : String → List String → Result ℕ
index_of name [] = err Error.value_error
index_of name (c ∷ cs) = if c == name then ok 0 else index_of name cs >>= (λ n. ok (suc n))
