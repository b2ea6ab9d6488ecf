-- ===== src/Transform/Views/Identity.antt =====
-- The identity view: transformations/identity.py.
use schema_guard.Base.{String, List, sym, ap, ok, ok-injective}
use schema_guard.Base.Dict.{keys}
use schema_guard.Transform.Base.{Steps}
use schema_guard.Transform.Base.Reconstruct.{IsReversible}

-- Of the parameters, `source_columns` is the only one that depends on the table.
pub record IdentityParameters : Type 0 where
  pub source_columns : List String

unfoldable pub identity_view : Steps IdentityParameters
identity_view = record {
  view_id = "V00";
  fit_step = λ x dataset_id seed schema. ok (record { source_columns = keys x });
  transform_step = λ dataset_id seed p x partition. ok (x, p);
  reconstruct_step = λ z p. ok z;
}

pub identity_view-IsReversible : IsReversible identity_view (λ p y. Unit)
unfolding identity_view IsReversible
identity_view-IsReversible x y z dataset_id seed schema p q partition fitted d columns fits made =
    ap ok (sym (ap (λ e. e.0) (ok-injective made)))
