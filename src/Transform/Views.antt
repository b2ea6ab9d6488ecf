-- ===== src/Transform/Views.antt =====
-- The views themselves: transformations/identity.py, column_permutation.py, duplicate_feature.py,
-- row_permutation.py and quotient_remainder.py, and the choice of columns that they share.
pub mod Digest
pub mod Identity
pub mod Columns
pub mod Rows
pub mod Duplicate
pub mod Arithmetic
pub mod Remainder
pub mod Roundtrip
